-- ===== src/Sessions/Whole.antt =====
-- A whole session: any number of requests, and the message that ends it.
use event_management_server.Base.{
  ℕ, suc, ◌+◌, ◌<◌, ◌≤◌, ◌≡◌, sym, subst, List, [], ◌∷◌, ◌++◌, arith, length, append_assoc,
  append-nil, size_mod, uint_mod,
}
use event_management_server.Seats.{Event}
use event_management_server.Memory.{State}
use event_management_server.Memory.Returns
use event_management_server.Memory.Returns.{Returns, returns}
use event_management_server.Io.Descriptor.{Bytes, Source, Sink}
use event_management_server.Io.Deliver.{sink}
use event_management_server.Io.Transfer.{my_read-Full}
use event_management_server.Wire.{int_size, encode}
use event_management_server.Operations.{Calls}
use event_management_server.Operations.View.{Lists}
use event_management_server.Operations.Reserve.{AllValid}
use event_management_server.Sessions.{Link, session_loop, session_round, op_code_of}
use event_management_server.Sessions.Messages.{Request, op_code, arguments, serve_spec}
use event_management_server.Sessions.Requests.{Waits}
use event_management_server.Sessions.Serve.{serve_request_lem}
use event_management_server.Sessions.Loop.{session_step}
use event_management_server.Sessions.Frame.{serve_request-Keeps}
use event_management_server.Sessions.Many.{
  requests_bytes, serve_all, AllFit, serve_spec-AllValid, length-serve_spec, Supply, Returns-Supply,
}

module _ (stale : ℕ → Source → Bytes) (sized : (n : ℕ) (src : Source) → length (stale n src) ≡ n)
    (calls : ℕ → Calls) (fuel : ℕ) (session_id : ℕ) (small : session_id < uint_mod) where
  -- Operation code 2 ends the loop; what follows it is not read.
  session_quit :
      (rounds : ℕ) {tail : Bytes} {response : Sink} {P : Link → State → Type 0} (link : Link)
      (s : State)
      → Waits (2 ∷ tail) response link
      → ((link' : Link) → Waits tail response link' → P link' s)
      → Returns P (session_loop stale calls fuel (suc rounds) link s)
  unfolding session_loop session_round op_code_of
  session_quit rounds {tail} link s w end =
      let full = my_read-Full (2 ∷ []) tail link.request w.flowing w.coming in
      rw full.result
        (returns (end _ (record { flowing = full.flowing; coming = full.left; kept = w.kept })))

  -- The loop ends, after as many rounds as there are requests and one more, for any requests that
  -- fit their types, in whatever chunks they arrive: the answers are there in order, each the one
  -- that the list of events gives after the requests before it, and the memory stands for the list
  -- that all of them leave. `malloc` returns addresses that are unused, and none twice.
  pub session_loop-Serves :
      (requests : List Request) {s : State} {es : List Event} (tail written : Bytes) (link : Link)
      → Lists s es
      → AllValid es
      → Supply calls (length requests) s
      → AllFit requests
      → length es + length requests ≤ fuel
      → length es + length requests < size_mod
      → Waits (requests_bytes session_id requests (2 ∷ tail)) (sink [] written) link
      → Returns
          (λ link' s'.
            Waits tail (sink [] (written ++ (serve_all calls requests es).0)) link'
            × Lists s' (serve_all calls requests es).1)
          (session_loop stale calls fuel (suc (length requests)) link s)
  unfolding requests_bytes serve_all
  session_loop-Serves [] {s} tail written link l valid supply fits enough bound w =
      session_quit 0 link s w
        λ link' w'. (subst (λ t. Waits tail (sink [] t) link') (sym (append-nil written)) w', l)
  session_loop-Serves (r ∷ requests) {s} {es} tail written link l valid supply fits enough bound w =
      let n = length requests in
      let rest = requests_bytes session_id requests (2 ∷ tail) in
      let step = serve_spec (calls (suc n)) r es in
      let answers = (serve_all calls requests step.1).0 in
      let shorter = length-serve_spec (calls (suc n)) r es in
      session_step stale sized calls fuel s (suc n) r
        (encode int_size session_id ++ arguments r rest) (sink [] written) link w
        λ link1 w1.
          Returns.mono
            (Returns-Supply calls n s _ supply
              (λ k h.
                (serve_request-Keeps (calls k) stale (calls (suc n)) fuel
                    (supply.distinct k (suc n) (omega arith) (omega arith)) (op_code r) link1).holds
                  s (supply.fresh k (omega arith)))
              (serve_request_lem stale sized (calls (suc n)) fuel l written session_id r rest link1
                small fits.0 (supply.fresh (suc n) (omega arith)) valid (omega arith) (omega arith)
                w1))
            λ link2 s' p.
              Returns.mono
                (session_loop-Serves requests tail (written ++ step.0) link2 p.0.1
                  (serve_spec-AllValid (calls (suc n)) r es fits.1 valid) p.1 fits.2 (omega arith)
                  (omega arith) p.0.0)
                λ link3 s'' q. (
                  subst (λ t. Waits tail (sink [] t) link3) (append_assoc written step.0 answers)
                      q.0,
                  q.1,
                )
