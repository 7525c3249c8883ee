-- ===== src/Server/Setup.antt =====
-- The round of the main thread that reads the message of `ems_setup`.
use event_management_server.Base.{
  ℕ, ◌-◌, ◌<◌, ◌≡◌, refl, ap, sym, ◌∙◌, subst, true, some, List, [], ◌∷◌, ◌++◌, arith, length,
  append_assoc, inl, inr, uint_mod,
}
use event_management_server.Memory.{State, Cmd}
use event_management_server.Memory.Returns.{Returns, returns}
use event_management_server.Io.{my_read}
use event_management_server.Io.Descriptor.{Bytes, Source}
use event_management_server.Io.Transfer.{contents, IsFlowing, Full, my_read-Full}
use event_management_server.Wire.{overlay}
use event_management_server.Wire.Values.{overlay_full}
use event_management_server.Requests.{Request, max_session_count, increment}
use event_management_server.Requests.Queue.{IsQueue, stamped, insert_request_lem}
use event_management_server.Api.Connection.{max_path}
use event_management_server.Server.{after_signals}
use event_management_server.Server.Extract.{
  c_string, Main, After, goes_on, Round, read_path, path_received, serve_op_code, new_request,
  insert, inserted, extract_round, round_received,
}
use event_management_server.Server.Paths.{
  IsPath, path_bytes, length-path_bytes, c_string-path_bytes, snprintf_path-c_string,
}
use event_management_server.Server.Connect.{setup_bytes}

-- After the round the request waits behind the others, with the client's paths and the session
-- counter as its id, and `rest` is left to read.
pub record Enqueued (request_path response_path rest : Bytes) (waiting : List Request)
    (session_id : ℕ) (main : Main) : Type 0 where
  pub request : Request
  pub queued : IsQueue main.queue (waiting ++ request ∷ [])
  pub numbered : request.session_id ≡ session_id
  pub next_number : main.queue.session_counter ≡ increment session_id
  pub reads : c_string request.request_pipe_path ≡ some request_path
  pub writes : c_string request.response_pipe_path ≡ some response_path
  pub flowing : IsFlowing main.server_pipe
  pub left : contents main.server_pipe ≡ rest

module _ (stale : ℕ → Source → Bytes) (sized : (n : ℕ) (src : Source) → length (stale n src) ≡ n)
    (size fuel : ℕ) where
  read_path_lem :
      {P : After → State → Type 0} {s : State} (server_path path rest : Bytes)
      (next : Bytes → Main → Cmd After) (main : Main)
      → IsPath path
      → IsFlowing main.server_pipe
      → contents main.server_pipe ≡ path_bytes path ++ rest
      → ((src : Source)
          → IsFlowing src
          → contents src ≡ rest
          → Returns P (next (path_bytes path) (record main { server_pipe = src }) s))
      → Returns P (read_path stale server_path size fuel next main s)
  unfolding read_path path_received
  read_path_lem server_path path rest next main p flow coming more =
      let full : Full max_path (path_bytes path) rest (my_read max_path main.server_pipe) =
        subst (λ n. Full n (path_bytes path) rest (my_read n main.server_pipe))
          (length-path_bytes path p)
          (my_read-Full (path_bytes path) rest main.server_pipe flow coming) in
      let old = stale max_path main.server_pipe in
      let whole : overlay (path_bytes path) old ≡ path_bytes path =
        overlay_full (path_bytes path) old
          (sized max_path main.server_pipe ∙ sym (length-path_bytes path p)) in
      rw (full.result, whole) (more _ full.flowing full.left)

  new_request_lem :
      {s : State} (round : Round) (array server_path request_path response_path rest : Bytes)
      (waiting : List Request) (main : Main)
      → round.created ≡ true
      → round.joined ≡ true
      → IsPath request_path
      → IsPath response_path
      → IsPath server_path
      → c_string array ≡ some server_path
      → IsQueue main.queue waiting
      → length waiting < max_session_count
      → IsFlowing main.server_pipe
      → contents main.server_pipe ≡ rest
      → Returns
          (λ after s'.
            (s' ≡ s)
            × (main' : Main) × (after ≡ goes_on main')
            × Enqueued request_path response_path rest waiting main.queue.session_counter main')
          (new_request stale array size fuel round
            (path_bytes request_path)
            (path_bytes response_path)
            main
            s)
  unfolding new_request insert inserted
  new_request_lem {s} round array server_path request_path response_path rest waiting main made
        joins p q r named queue room flow coming =
      let (request_array, copied, reads) =
        snprintf_path-c_string round.old (path_bytes request_path) request_path p
          (c_string-path_bytes request_path p) in
      let (response_array, copied', writes) =
        snprintf_path-c_string round.old (path_bytes response_path) response_path q
          (c_string-path_bytes response_path q) in
      let (server_array, copied2, _) = snprintf_path-c_string round.old array server_path r named in
      let request : Request = record {
        session_id = uint_mod - 1;
        request_pipe_path = request_array;
        response_pipe_path = response_array;
        server_pipe_path = server_array;
      } in
      elim (insert_request_lem request main.queue waiting queue) [
        | inl (full, _) ↦ absurd (omega arith)
        | inr (b, _, taken, queue', raised) ↦
            rw (copied, new_request, copied', new_request, copied2, new_request, made, taken, joins)
              (returns (
                refl,
                record main { queue = b },
                refl,
                record {
                  request = stamped request main.queue;
                  queued = queue';
                  numbered = refl;
                  next_number = raised;
                  reads = reads;
                  writes = writes;
                  flowing = flow;
                  left = coming;
                },
              ))
      ]

  -- The round for each array that holds the path of the server's pipe.
  pub extract_round-array :
      {s : State} (round : Round) (array server_path request_path response_path rest : Bytes)
      (waiting : List Request) (main : Main)
      → round.created ≡ true
      → round.joined ≡ true
      → after_signals round.signals main.print_flag ≡ 0
      → IsPath request_path
      → IsPath response_path
      → IsPath server_path
      → c_string array ≡ some server_path
      → IsQueue main.queue waiting
      → length waiting < max_session_count
      → IsFlowing main.server_pipe
      → contents main.server_pipe ≡ setup_bytes request_path response_path ++ rest
      → Returns
          (λ after s'.
            (s' ≡ s)
            × (main' : Main) × (after ≡ goes_on main')
            × Enqueued request_path response_path rest waiting main.queue.session_counter main')
          (extract_round stale array size fuel round main s)
  unfolding extract_round round_received serve_op_code setup_bytes
  extract_round-array {s} round array server_path request_path response_path rest waiting main made
        joins clear p q r named queue room flow coming =
      let paths = path_bytes request_path ++ (path_bytes response_path ++ rest) in
      let got = my_read-Full (1 ∷ []) paths main.server_pipe flow (
        coming
        ∙ ap (λ t. 1 ∷ t)
            (append_assoc (path_bytes request_path) (path_bytes response_path) rest)) in
      let both = λ (bs cs : Bytes). new_request stale array size fuel round bs cs in
      let second = λ (bs : Bytes). read_path stale array size fuel (both bs) in
      rw (got.result, clear)
        (read_path_lem {s = s} array request_path (path_bytes response_path ++ rest) second _ p
          got.flowing got.left
          λ src flow1 left1.
            read_path_lem {s = s} array response_path rest (both (path_bytes request_path)) _ q
              flow1 left1
              λ src' flow2 left2.
                new_request_lem round array server_path request_path response_path rest waiting _
                  made joins p q r named queue room flow2 left2)

  -- The round of the main thread in which the message of a client is next in the server pipe, in
  -- whatever chunks: with the flag clear, room in the buffer and threads that start and end, the
  -- request waits behind the others, and the memory is as it was.
  pub extract_round-setup :
      {s : State} (round : Round) (server_path request_path response_path rest : Bytes)
      (waiting : List Request) (main : Main)
      → round.created ≡ true
      → round.joined ≡ true
      → after_signals round.signals main.print_flag ≡ 0
      → IsPath request_path
      → IsPath response_path
      → IsPath server_path
      → IsQueue main.queue waiting
      → length waiting < max_session_count
      → IsFlowing main.server_pipe
      → contents main.server_pipe ≡ setup_bytes request_path response_path ++ rest
      → Returns
          (λ after s'.
            (s' ≡ s)
            × (main' : Main) × (after ≡ goes_on main')
            × Enqueued request_path response_path rest waiting main.queue.session_counter main')
          (extract_round stale (path_bytes server_path) size fuel round main s)
  extract_round-setup {s} round server_path request_path response_path rest waiting main made joins
        clear p q r queue room flow coming =
      extract_round-array round (path_bytes server_path) server_path request_path response_path rest
        waiting main made joins clear p q r (c_string-path_bytes server_path r) queue room flow
        coming
