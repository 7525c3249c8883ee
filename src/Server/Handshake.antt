-- ===== src/Server/Handshake.antt =====
-- Client, main thread and worker at the start of a session: `ems_setup` of src/client/api.c, and
-- `extract_requests`, `retrieve_request` and `handle_client` of src/server/main.c.
use event_management_server.Base.{
  ℕ, suc, ◌+◌, ◌<◌, ◌≤◌, ◌≡◌, refl, ap, ◌∙◌, true, none, some, List, [], ◌∷◌, ◌++◌, arith, length,
  size_mod, uint_mod,
}
use event_management_server.Seats.{Event}
use event_management_server.Memory.{State, Cmd, fault, pure, ◌>>=◌}
use event_management_server.Memory.Returns
use event_management_server.Memory.Returns.{Returns, returns}
use event_management_server.Io.Descriptor.{Bytes, Source}
use event_management_server.Io.Deliver.{sink}
use event_management_server.Io.Transfer.{contents, IsFlowing}
use event_management_server.Wire.{int_size, encode}
use event_management_server.Operations.{Calls}
use event_management_server.Operations.View.{Lists}
use event_management_server.Operations.Reserve.{AllValid}
use event_management_server.Requests.{Request, retrieve_request}
use event_management_server.Requests.Queue.{IsQueue, retrieve_request_lem}
use event_management_server.Sessions.{Link}
use event_management_server.Sessions.Messages
use event_management_server.Sessions.Start.{handle_client}
use event_management_server.Sessions.Many.{requests_bytes, serve_all, AllFit, Supply}
use event_management_server.Sessions.Client.{all_open, handle_client-Serves}
use event_management_server.Api.Connection.{Session, ems_setup}
use event_management_server.Api.Exchange.{Delivering}
use event_management_server.Server.{after_signals}
use event_management_server.Server.Extract.{
  c_string, Main, After, goes_on, breaks, waits, Round, extract_round,
}
use event_management_server.Server.Paths.{IsPath, path_bytes}
use event_management_server.Server.Connect.{connected, setup_bytes, session_of, ems_setup_lem}
use event_management_server.Server.Setup.{extract_round-setup}

module _ (stale : ℕ → Source → Bytes) (named : Bytes → Source) (calls : ℕ → Calls)
    (fuel rounds : ℕ) where
  -- A worker on the request that it took: the name of the pipe that it answers on, and the pipes
  -- afterwards. `named` has what is to be read from the pipe with a name.
  worker_serves : Request → Cmd (Bytes × Link)
  worker_serves r = elim (c_string r.request_pipe_path) [
    | none ↦ λ _. fault
    | some path ↦ elim (c_string r.response_pipe_path) [
      | none ↦ λ _. fault
      | some reply_path ↦ do
        link ←
            handle_client all_open stale calls fuel rounds r.session_id
              (record { request = named path; response = sink [] [] })
        pure (reply_path, link)
    ]
  ]

  -- A worker after a round of the main thread.
  worker_takes : After → Cmd (Bytes × Link)
  unfolding worker_serves
  worker_takes (goes_on main) = elim (retrieve_request main.queue) [
    | none ↦ λ _. fault
    | some (r, queue) ↦ worker_serves r
  ]
  worker_takes (breaks main) = λ _. fault
  worker_takes (waits r main) = λ _. fault

  -- A round of the main thread, and a worker on the first request then.
  pub session_of_round : (server_path : Bytes) (size : ℕ) → Round → Main → Cmd (Bytes × Link)
  unfolding worker_takes
  session_of_round server_path size round main = do
    after ← extract_round stale (path_bytes server_path) size fuel round main
    worker_takes after

-- The session that a client and the server have after `ems_setup`, and what the session did.
pub record Established (deliver : Bytes → Source) (stale : ℕ → Source → Bytes)
    (server_path request_path response_path : Bytes) (session : Session) (id : ℕ) (answers : Bytes)
    (out : Bytes × Link) : Type 0 where
  pub replied_on : out.0 ≡ response_path
  pub answered : out.1.response ≡ sink [] (encode int_size id ++ answers)
  pub connects :
      ems_setup connected stale
        (λ _. deliver out.1.response.written)
        request_path
        response_path
        server_path
        session
        (sink [] [])
      ≡ record {
        code = some 0;
        server = sink [] (setup_bytes request_path response_path);
        session = session_of id request_path response_path;
      }

module _ (stale : ℕ → Source → Bytes) (sized : (n : ℕ) (src : Source) → length (stale n src) ≡ n)
    (deliver : Bytes → Source) (pipe : Delivering deliver) (calls : ℕ → Calls) (fuel : ℕ)
    (server_path request_path response_path : Bytes) (p : IsPath request_path)
    (q : IsPath response_path) (r : IsPath server_path) (session : Session) where
  connects_lem :
      (id : ℕ) (answers : Bytes) (link : Link)
      → id < uint_mod
      → link.response ≡ sink [] (encode int_size id ++ answers)
      → ems_setup connected stale
          (λ _. deliver link.response.written)
          request_path
          response_path
          server_path
          session
          (sink [] [])
        ≡ record {
          code = some 0;
          server = sink [] (setup_bytes request_path response_path);
          session = session_of id request_path response_path;
        }
  connects_lem id answers link small e =
      ems_setup_lem stale sized (λ _. deliver link.response.written) request_path response_path
        answers session id small (pipe.flowing _) (pipe.all_there _ ∙ ap (λ t. t.written) e)
        server_path p q r

  worker_serves_lem :
      {s : State} {es : List Event} (named : Bytes → Source) (requests : List Messages.Request)
      (tail : Bytes) (request : Request) (id : ℕ)
      → c_string request.request_pipe_path ≡ some request_path
      → c_string request.response_pipe_path ≡ some response_path
      → request.session_id ≡ id
      → id < uint_mod
      → named request_path ≡ deliver (requests_bytes id requests (2 ∷ tail))
      → Lists s es
      → AllValid es
      → Supply calls (length requests) s
      → AllFit requests
      → length es + length requests ≤ fuel
      → length es + length requests < size_mod
      → Returns
          (λ out s'.
            Established deliver stale server_path request_path response_path session id
              (serve_all calls requests es).0
              out
            × Lists s' (serve_all calls requests es).1)
          (worker_serves stale named calls fuel (suc (length requests)) request s)
  unfolding worker_serves
  worker_serves_lem named requests tail request id reads writes numbered small sends l valid supply
        fits enough bound =
      rw (reads, worker_serves, writes, numbered, sends)
        (Returns.bind
          (handle_client-Serves stale calls fuel id requests tail _ sized small l valid supply fits
            enough bound
            (record { flowing = pipe.flowing _; coming = pipe.all_there _; kept = refl }))
          λ link s' w. returns (
            record {
              replied_on = refl;
              answered = w.0.kept;
              connects = connects_lem id _ link small w.0.kept;
            },
            w.1,
          ))

  -- The message of a client's `ems_setup` comes next at the main thread and no request waits: the
  -- main thread inserts a request, a worker takes it and serves the client's requests from the pipe
  -- with the client's name for it, and answers on the pipe with the other name. The client reads
  -- there the session counter, which is its id then, and `ems_setup` returns 0; behind it are the
  -- answers to its requests, as the list of events gives them.
  pub ems_setup_exchange :
      {s : State} {es : List Event} (named : Bytes → Source) (requests : List Messages.Request)
      (tail rest : Bytes) (size : ℕ) (round : Round) (main : Main)
      → round.created ≡ true
      → round.joined ≡ true
      → after_signals round.signals main.print_flag ≡ 0
      → IsQueue main.queue []
      → main.queue.session_counter < uint_mod
      → IsFlowing main.server_pipe
      → contents main.server_pipe ≡ setup_bytes request_path response_path ++ rest
      → named request_path ≡ deliver (requests_bytes main.queue.session_counter requests (2 ∷ tail))
      → Lists s es
      → AllValid es
      → Supply calls (length requests) s
      → AllFit requests
      → length es + length requests ≤ fuel
      → length es + length requests < size_mod
      → Returns
          (λ out s'.
            Established deliver stale server_path request_path response_path session
              main.queue.session_counter
              (serve_all calls requests es).0
              out
            × Lists s' (serve_all calls requests es).1)
          (session_of_round stale named calls fuel
            (suc (length requests))
            server_path
            size
            round
            main
            s)
  unfolding session_of_round worker_takes
  ems_setup_exchange {s} {es} named requests tail rest size round main made joins clear queue small
        flow coming sends l valid supply fits enough bound =
      Returns.bind
        (extract_round-setup stale sized size fuel {s = s} round server_path request_path
          response_path rest [] main made joins clear p q r queue (omega arith) flow coming)
        λ after s' (same, main', on, e).
          let (left, taken, _) = retrieve_request_lem main'.queue e.request [] e.queued in
          rw (on, worker_takes, taken, worker_takes, same)
            (worker_serves_lem named requests tail e.request main.queue.session_counter e.reads
              e.writes e.numbered small sends l valid supply fits enough bound)
