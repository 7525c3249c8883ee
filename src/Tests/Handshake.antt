-- ===== src/Tests/Handshake.antt =====
-- The start of a session, and its end, through pipes that deliver a byte string at once.
use event_management_server.Base.{◌+◌, refl, [], ◌∷◌, ◌++◌, arith}
use event_management_server.Memory.Returns.{Returns}
use event_management_server.Memory.Ended.{Ended}
use event_management_server.Operations.Ends.{Listed}
use event_management_server.Io.Descriptor.{file}
use event_management_server.Io.Deliver.{sink}
use event_management_server.Operations.View.{Lists}
use event_management_server.Sessions.{Link}
use event_management_server.Sessions.Start.{handle_client}
use event_management_server.Sessions.Many.{requests_bytes, serve_all}
use event_management_server.Sessions.Client.{all_open}
use event_management_server.Sessions.Ends.{handle_client-Ended}
use event_management_server.Server.Connect.{setup_bytes}
use event_management_server.Server.Handshake.{Established, session_of_round, ems_setup_exchange}
use event_management_server.Tests.Seats.{concert, concert-IsValid}
use event_management_server.Tests.Memory.{running, running-Lists}
use event_management_server.Tests.Sessions.{stale, stale_size, file-IsFlowing, contents-file, pipe}
use event_management_server.Tests.Whole.{rounds, rounds-Supply, two, two-AllFit}
use event_management_server.Tests.Server.{
  r_path, a_path, s_path, r-IsPath, a-IsPath, s-IsPath, fresh_session, empty-IsQueue, waiting_main,
  quiet_round, quiet,
}

ems_setup_exchange_example :
    Returns
      (λ out s'.
        Established
          (λ bs. file bs)
          stale
          s_path
          r_path
          a_path
          fresh_session
          0
          (serve_all rounds two (concert ∷ [])).0
          out
        × Lists s' (serve_all rounds two (concert ∷ [])).1)
      (session_of_round stale
        (λ _. file (requests_bytes 0 two (2 ∷ [])))
        rounds
        3
        3
        s_path
        1
        quiet_round
        waiting_main
        running)
ems_setup_exchange_example =
    ems_setup_exchange stale stale_size (λ bs. file bs) pipe rounds 3 s_path r_path a_path r-IsPath
      a-IsPath s-IsPath fresh_session (λ _. file (requests_bytes 0 two (2 ∷ []))) two [] [] 1
      quiet_round waiting_main refl refl quiet empty-IsQueue (omega arith)
      (file-IsFlowing (setup_bytes r_path a_path ++ []))
      (contents-file (setup_bytes r_path a_path ++ [])) refl running-Lists (concert-IsValid, tt)
      (rounds-Supply 2) two-AllFit (omega arith) (omega arith)

-- A client that creates an event and breaks off in a reservation.
abbrev broken_link : Link
broken_link = record {
  request = file (
      3 ∷ 1 ∷ 0 ∷ 0 ∷ 0 ∷ 9 ∷ 0 ∷ 0 ∷ 0 ∷ 2 ∷ 0 ∷ 0 ∷ 0 ∷ 0 ∷ 0 ∷ 0 ∷ 0 ∷ 2 ∷ 0 ∷ 0 ∷ 0 ∷ 0 ∷ 0 ∷ 0
      ∷ 0 ∷ 4 ∷ 1 ∷ []);
  response = sink [] [];
}

handle_client-Ended_example :
    Ended
      (λ _ s'. Listed (1 + 27) s')
      (handle_client all_open stale rounds 28 28 3 broken_link running)
handle_client-Ended_example =
    handle_client-Ended stale rounds 28 all_open 3 27 broken_link (omega arith) running-Lists
      (rounds-Supply 27) (omega arith) (omega arith)
