-- ===== src/Api/Exchange.antt =====
-- Client and server at the two ends of a session's pipes.
use event_management_server.Base.{
  ℕ, ◌<◌, ◌≤◌, ◌≡◌, refl, ap, sym, ◌∙◌, some, List, [], length, arith, append-nil, size_mod,
  uint_mod,
}
use event_management_server.Seats.{Event, Seat}
use event_management_server.Memory.{State, Cmd}
use event_management_server.Memory.Returns
use event_management_server.Memory.Returns.{Returns, returns}
use event_management_server.Io.Descriptor.{Bytes, Source, Sink}
use event_management_server.Io.Deliver.{sink}
use event_management_server.Io.Transfer.{contents, IsFlowing}
use event_management_server.Wire.{int_size, encode}
use event_management_server.Operations.{Calls}
use event_management_server.Operations.View.{Lists}
use event_management_server.Operations.CreateSpec.{Fresh, create_spec, create_code-le}
use event_management_server.Operations.Reserve.{AllValid, reserve_spec, reserve_code-le}
use event_management_server.Sessions.{Link, session_loop}
use event_management_server.Sessions.Messages.{
  Request, create, reserve, Fits, serve_spec, rows_of, cols_of,
}
use event_management_server.Sessions.Loop.{session_loop_lem}
use event_management_server.Api.{Outcome, ems_create, ems_reserve, await_result, closed}
use event_management_server.Api.Requests.{
  working, request_bytes, ems_create-request, ems_reserve-request, ems_create-written,
  ems_reserve-written, await_result-closed,
}

-- A pipe: the bytes that were written arrive, in chunks that are not empty.
pub record Delivering (deliver : Bytes → Source) : Type 0 where
  pub flowing : (bs : Bytes) → IsFlowing (deliver bs)
  pub all_there : (bs : Bytes) → contents (deliver bs) ≡ bs

-- The server's session on what a client wrote.
abbrev pub server : (ℕ → Source → Bytes) → (Bytes → Source) → (ℕ → Calls) → ℕ → Outcome → Cmd Link
server stale deliver calls fuel o =
    session_loop stale calls fuel 2
      (record { request = deliver o.requests.written; response = sink [] [] })

abbrev pub unanswered : Sink → Source
unanswered requests = []

module _ (stale : ℕ → Source → Bytes) (sized : (n : ℕ) (src : Source) → length (stale n src) ≡ n)
    (deliver : Bytes → Source) (pipe : Delivering deliver) (calls : ℕ → Calls) (fuel : ℕ)
    {s : State} {es : List Event} (l : Lists s es) (valid : AllValid es) (enough : length es ≤ fuel)
    (bound : length es < size_mod) where
  pub exchanged :
      (session_id : ℕ) (request : Request)
      → Fresh (calls 1) s
      → session_id < uint_mod
      → Fits request
      → Returns
          (λ link' s'.
            (link'.response ≡ sink [] (serve_spec (calls 1) request es).0)
            × Lists s' (serve_spec (calls 1) request es).1)
          (session_loop stale calls fuel 2
            (record { request = deliver (request_bytes session_id request); response = sink [] [] })
            s)
  unfolding request_bytes
  exchanged session_id request fresh small fits =
      session_loop_lem stale sized calls fuel session_id request [] _ l valid fresh small fits
        enough bound (record { flowing = pipe.flowing _; coming = pipe.all_there _; kept = refl })

  answered_code :
      (r : ℕ) (output requests : Sink) (link : Link)
      → r < uint_mod
      → link.response ≡ sink [] (encode int_size r)
      → (await_result working stale
          (λ _. deliver link.response.written)
          (closed working stale (λ _. deliver link.response.written))
          output
          requests).code
        ≡ some r
  answered_code r output requests link small e =
      await_result-closed stale (λ _. deliver link.response.written) r [] output requests sized
        small (pipe.flowing _)
        (pipe.all_there _ ∙ ap (λ t. t.written) e ∙ sym (append-nil (encode int_size r)))

  -- A client's `ems_create` and the server's session on what it wrote: the memory stands for the
  -- list of events with the new event, and the client returns the server's code; where the id is
  -- known or a call of the server fails, the list is as it was and the client returns 1. All pipes
  -- of the client work.
  pub ems_create_exchange :
      (session_id id rows cols : ℕ) (output : Sink)
      → Fresh (calls 1) s
      → session_id < uint_mod
      → Fits (create id rows cols)
      → Returns
          (λ link' s'.
            Lists s' (create_spec (calls 1) id rows cols es).1
            × ((ems_create working stale
                  (λ _. deliver link'.response.written)
                  session_id
                  id
                  rows
                  cols
                  output
                  (sink [] [])).code
                ≡ some (create_spec (calls 1) id rows cols es).0))
          (server stale deliver calls fuel
            (ems_create working stale unanswered session_id id rows cols output (sink [] []))
            s)
  unfolding serve_spec
  ems_create_exchange session_id id rows cols output fresh small fits =
      let code = (create_spec (calls 1) id rows cols es).0 in
      rw (ems_create-written stale unanswered session_id id rows cols output) (
        Returns.mono (exchanged session_id (create id rows cols) fresh small fits) λ link' s' p. (
          p.1,
          ap (λ o. o.code)
                (ems_create-request stale (λ _. deliver link'.response.written) session_id id rows
                  cols output)
              ∙ answered_code code output _ link'
                  (omega (arith, create_code-le (calls 1) id rows cols es)) p.0,
        ))

  -- The same for `ems_reserve`, with the seats of a request as the two arrays: the first event with
  -- the id takes the request or the list is as it was, and the client returns the server's code.
  pub ems_reserve_exchange :
      (session_id id : ℕ) (seats : List Seat) (output : Sink)
      → Fresh (calls 1) s
      → session_id < uint_mod
      → Fits (reserve id seats)
      → Returns
          (λ link' s'.
            Lists s' (reserve_spec (calls 1) id seats es).1
            × ((ems_reserve working stale
                  (λ _. deliver link'.response.written)
                  session_id
                  id
                  (length seats)
                  (rows_of seats)
                  (cols_of seats)
                  output
                  (sink [] [])).code
                ≡ some (reserve_spec (calls 1) id seats es).0))
          (server stale deliver calls fuel
            (ems_reserve working stale unanswered session_id id
              (length seats)
              (rows_of seats)
              (cols_of seats)
              output
              (sink [] []))
            s)
  unfolding serve_spec
  ems_reserve_exchange session_id id seats output fresh small fits =
      let code = (reserve_spec (calls 1) id seats es).0 in
      rw (ems_reserve-written stale unanswered session_id id seats output) (
        Returns.mono (exchanged session_id (reserve id seats) fresh small fits) λ link' s' p. (
          p.1,
          ap (λ o. o.code)
                (ems_reserve-request stale (λ _. deliver link'.response.written) session_id id seats
                  output)
              ∙ answered_code code output _ link'
                  (omega (arith, reserve_code-le (calls 1) id seats es)) p.0,
        ))
