-- ===== src/Sessions/Loop.antt =====
-- The loop of `handle_client`.
use event_management_server.Base.{
  ℕ, suc, ◌<◌, ◌≤◌, ◌≡◌, refl, ap, false, List, [], ◌∷◌, ◌++◌, length, size_mod, uint_mod, ◌==◌,
}
use event_management_server.Seats.{Event}
use event_management_server.Memory.{State, done}
use event_management_server.Memory.Returns
use event_management_server.Memory.Returns.{Returns, returns}
use event_management_server.Io.{my_read, my_read_loop, my_read_round}
use event_management_server.Io.Descriptor.{Bytes, Source, chunk, signal, failure, Sink, read}
use event_management_server.Io.Deliver.{sink}
use event_management_server.Io.Transfer.{contents, IsFlowing, my_read-Full}
use event_management_server.Wire.{int_size, encode}
use event_management_server.Operations.{Calls}
use event_management_server.Operations.View.{Lists}
use event_management_server.Operations.CreateSpec.{Fresh}
use event_management_server.Operations.Reserve.{AllValid}
use event_management_server.Sessions.{Link, serve_request, session_round, session_loop, op_code_of}
use event_management_server.Sessions.Messages.{
  Request, create, reserve, show, list_events, op_code, arguments, Fits, serve_spec,
}
use event_management_server.Sessions.Requests.{Waits}
use event_management_server.Sessions.Serve.{serve_request_lem}

flowing_end : (src : Source) → IsFlowing src → contents src ≡ [] → src ≡ []
flowing_end [] flow e = refl
flowing_end (chunk [] ∷ src) flow e = absurd flow
flowing_end (chunk (b ∷ bs) ∷ src) flow e = cc
flowing_end (signal ∷ src) flow e = absurd flow
flowing_end (failure ∷ src) flow e = absurd flow

module _ (stale : ℕ → Source → Bytes) (sized : (n : ℕ) (src : Source) → length (stale n src) ≡ n)
    (calls : ℕ → Calls) (fuel : ℕ) where
  -- With nothing more to come the session is over.
  pub session_end :
      (rounds : ℕ) {response : Sink} (link : Link) (s : State)
      → Waits [] response link
      → session_loop stale calls fuel (suc rounds) link s
        ≡ done (record { request = []; response = response }) s
  unfolding session_loop session_round op_code_of my_read my_read_loop my_read_round read
  session_end rounds {response} link s w =
      rw (flowing_end link.request w.flowing w.coming)
        (ap (λ t. done (record { request = []; response = t }) s) w.kept)

  serves : (request : Request) → (op_code request == 2) ≡ false
  unfolding op_code
  serves (create event_id num_rows num_cols) = refl
  serves (reserve event_id seats) = refl
  serves (show event_id) = refl
  serves list_events = refl

  -- A round with a request in the pipe serves it and goes on.
  pub session_step :
      {P : Link → State → Type 0} (s : State) (rounds : ℕ) (request : Request) (bytes : Bytes)
      (response : Sink) (link : Link)
      → Waits (op_code request ∷ bytes) response link
      → ((link' : Link)
          → Waits bytes response link'
          → Returns
              (λ l s'. Returns P (session_loop stale calls fuel rounds l s'))
              (serve_request stale (calls rounds) fuel (op_code request) link' s))
      → Returns P (session_loop stale calls fuel (suc rounds) link s)
  unfolding session_loop session_round op_code_of
  session_step s rounds request bytes response link w more =
      let full = my_read-Full (op_code request ∷ []) bytes link.request w.flowing w.coming in
      rw (full.result, serves request)
        (Returns.bind
          (more _ (record { flowing = full.flowing; coming = full.left; kept = w.kept }))
          λ l s' p. p)

  -- A session of one request, in whatever chunks it arrives: the loop ends, its answer is behind
  -- the earlier ones, and the memory stands for the list of events that the request leaves.
  pub session_loop_lem :
      {s : State} {es : List Event} (session_id : ℕ) (request : Request) (written : Bytes)
      (link : Link)
      → Lists s es
      → AllValid es
      → Fresh (calls 1) s
      → session_id < uint_mod
      → Fits request
      → length es ≤ fuel
      → length es < size_mod
      → Waits
          (op_code request ∷ (encode int_size session_id ++ arguments request []))
          (sink [] written)
          link
      → Returns
          (λ link' s'.
            (link'.response ≡ sink [] (written ++ (serve_spec (calls 1) request es).0))
            × Lists s' (serve_spec (calls 1) request es).1)
          (session_loop stale calls fuel 2 link s)
  session_loop_lem {s} session_id request written link l valid fresh small fits enough bound w =
      session_step s 1 request (encode int_size session_id ++ arguments request [])
        (sink [] written) link w
        λ link' w'.
          Returns.mono
            (serve_request_lem stale sized (calls 1) fuel l written session_id request [] link'
              small fits fresh valid enough bound w')
            λ l2 s' p. rw (session_end 0 l2 s' p.0) (returns (refl, p.1))
