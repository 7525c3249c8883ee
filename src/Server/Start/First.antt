-- ===== src/Server/Start/First.antt =====
-- The start of the server and its first client: `main` of src/server/main.c.
use event_management_server.Base.{
  ℕ, ◌<◌, ◌≡◌, refl, subst, true, [], ◌∷◌, ◌++◌, arith, length, uint_mod,
}
use event_management_server.Memory.{State, null}
use event_management_server.Memory.Returns
use event_management_server.Memory.Returns.{Returns, returns}
use event_management_server.Io.Descriptor.{Bytes, Source}
use event_management_server.Io.Transfer.{contents, IsFlowing}
use event_management_server.Number.Print.{decimal_text}
use event_management_server.Operations.{ems_init}
use event_management_server.Operations.View.{Lists}
use event_management_server.Operations.Lifecycle.{creates, Initialised, ems_init_lem}
use event_management_server.Requests.Queue.{IsQueue}
use event_management_server.Server.{after_signals}
use event_management_server.Server.Extract.{Round, Main, After, goes_on, extract_requests, loop_on}
use event_management_server.Server.Paths.{IsPath, c_string-append, snprintf_path-c_string}
use event_management_server.Server.Connect.{setup_bytes}
use event_management_server.Server.Setup.{Enqueued, extract_round-array}
use event_management_server.Server.Start.{
  ServerCalls, Result, still_running, after_loop, start_server, with_delay, server_main,
}
use event_management_server.Server.Start.Delay.{delay_of-decimal_text}

-- The calls of `main` up to the loop of `extract_requests` succeed.
pub record AllStart (calls : ServerCalls) : Type 0 where
  pub list : creates calls.init ≡ true
  pub fifo : calls.mkfifo ≡ true
  pub pipe : calls.open_pipe ≡ true
  pub threads : calls.threads_start ≡ true

-- The server waits for the next message: it has no events, the delay is `delay`, and the request of
-- the first client waits for a worker.
pub record HasStarted (request_path response_path rest : Bytes) (delay session_id : ℕ) (r : Result)
    (s : State) : Type 0 where
  pub main : Main
  pub running : r ≡ still_running main
  pub no_events : Lists s []
  pub delay_set : s.state_access_delay_us ≡ delay
  pub enqueued : Enqueued request_path response_path rest [] session_id main

module _ (calls : ServerCalls) (size fuel : ℕ) (stale : ℕ → Source → Bytes)
    (sized : (n : ℕ) (src : Source) → length (stale n src) ≡ n) where
  start_server-first :
      {s : State} (round : Round) (old server_path request_path response_path rest : Bytes)
      (delay : ℕ) (main : Main)
      → AllStart calls
      → Lists s []
      → s.state_access_delay_us ≡ delay
      → round.created ≡ true
      → round.joined ≡ true
      → after_signals round.signals main.print_flag ≡ 0
      → IsPath request_path
      → IsPath response_path
      → IsPath server_path
      → IsQueue main.queue []
      → IsFlowing main.server_pipe
      → contents main.server_pipe ≡ setup_bytes request_path response_path ++ rest
      → Returns
          (HasStarted request_path response_path rest delay main.queue.session_counter)
          (start_server calls size stale fuel (round ∷ []) old main server_path s)
  unfolding start_server after_loop extract_requests loop_on
  start_server-first {s} round old server_path request_path response_path rest delay main all l d
        made joins clear p q r queue flow coming =
      let Waiting = λ (after : After) (s' : State).
        (s' ≡ s)
        × (main' : Main) × (after ≡ goes_on main')
        × Enqueued request_path response_path rest [] main.queue.session_counter main' in
      let (array, copied, named) =
        snprintf_path-c_string old (server_path ++ 0 ∷ []) server_path r
          (c_string-append server_path [] r.nonzero) in
      simp (all.fifo, all.pipe, copied, start_server, all.threads)
        (Returns.bind {P = Waiting}
          (Returns.bind
            (extract_round-array stale sized size fuel {s = s} round array server_path request_path
              response_path rest [] main made joins clear p q r named queue (omega arith) flow
              coming)
            λ after s' (same, main', on, e). rw (on, loop_on) (returns (same, main', refl, e)))
          λ after s' (same, main', on, e).
            rw (on, after_loop, same)
              (returns (record {
                main = main';
                running = refl;
                no_events = l;
                delay_set = d;
                enqueued = e;
              })))

  -- A server that starts with a path and a delay, both as texts, and whose first message is that of
  -- a client's `ems_setup`: it has no events and the delay, and the client's request waits for a worker
  -- with the session counter as its id.
  pub server_main_lem :
      (s : State) (round : Round) (old server_path request_path response_path rest : Bytes)
      (delay : ℕ) (main : Main)
      → AllStart calls
      → s.event_list ≡ null
      → delay < uint_mod
      → round.created ≡ true
      → round.joined ≡ true
      → after_signals round.signals main.print_flag ≡ 0
      → IsPath request_path
      → IsPath response_path
      → IsPath server_path
      → IsQueue main.queue []
      → IsFlowing main.server_pipe
      → contents main.server_pipe ≡ setup_bytes request_path response_path ++ rest
      → Returns (HasStarted request_path response_path rest delay main.queue.session_counter) (
          server_main calls size stale fuel
            (round ∷ [])
            old
            main
            (server_path ∷ decimal_text delay ∷ [])
            s)
  unfolding server_main with_delay
  server_main_lem s round old server_path request_path response_path rest delay main all empty small
        made joins clear p q r queue flow coming =
      let initialised = ems_init_lem calls.init s delay empty in
      rw (delay_of-decimal_text delay small, with_delay)
        (Returns.bind
          (subst (λ b. Returns (Initialised b delay) (ems_init calls.init delay s)) all.list
            initialised)
          λ code s' (zero, l, d). rw zero (
            start_server-first round old server_path request_path response_path rest delay main all
              l d made joins clear p q r queue flow coming))
