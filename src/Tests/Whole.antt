-- ===== src/Tests/Whole.antt =====
-- Whole sessions of the server, and what it prints.
use event_management_server.Base.{ℕ, ◌+◌, ◌≡◌, refl, List, [], ◌∷◌, ◌++◌, arith}
use event_management_server.Memory.Returns.{Returns}
use event_management_server.Io.Descriptor.{file}
use event_management_server.Io.Deliver.{sink}
use event_management_server.Wire.{int_size, encode}
use event_management_server.Seats.Types.{HasTypes}
use event_management_server.Operations.{Calls}
use event_management_server.Operations.View.{Lists}
use event_management_server.Operations.Sending.{Answers}
use event_management_server.Operations.Stdout.{ems_show_stdout}
use event_management_server.Operations.StdoutShow.{stdout_spec, ems_show_stdout_lem}
use event_management_server.Sessions.{Link}
use event_management_server.Sessions.Messages.{create, show, Fits}
use event_management_server.Sessions.Messages
use event_management_server.Sessions.Requests.{Waits}
use event_management_server.Sessions.Start.{handle_client}
use event_management_server.Sessions.Many.{requests_bytes, serve_all, IsSized, AllFit, Supply}
use event_management_server.Sessions.Client.{all_open, handle_client-Serves}
use event_management_server.Server.{print_events}
use event_management_server.Server.Events.{printed, print_events_lem}
use event_management_server.Tests.Seats.{concert, concert-IsValid}
use event_management_server.Tests.Memory.{running, running-Lists, calls}
use event_management_server.Tests.Sessions.{
  stale, stale_size, file-IsFlowing, contents-file, create_Fits, show_Fits,
}

pub concert-HasTypes : HasTypes concert
concert-HasTypes = record {
  id-lt = omega arith;
  rows-lt = omega arith;
  cols-lt = omega arith;
  seats_fit =
      (omega arith, (omega arith, (omega arith, (omega arith, (omega arith, (omega arith, tt))))));
}

-- The calls of the rounds that are left.
abbrev pub rounds : ℕ → Calls
rounds k = record calls { malloc_event = 40 + k; malloc_node = 50 + k }

pub rounds-Supply : (n : ℕ) → Supply rounds n running
rounds-Supply n = record {
  fresh = λ k h. record { event = ground arith; node = ground arith };
  distinct = λ j k h h'. record {
    event = λ e. absurd (omega (arith, e));
    node = λ e. absurd (omega (arith, e));
  };
}

abbrev pub two : List Messages.Request
two = create 8 4 5 ∷ show 7 ∷ []

pub two-AllFit : AllFit two
unfolding IsSized
two-AllFit = (create_Fits, omega arith, (show_Fits, tt, tt))

abbrev client_link : Link
client_link = record { request = file (requests_bytes 3 two (2 ∷ [])); response = sink [] [] }

client_link-Waits : Waits (requests_bytes 3 two (2 ∷ [])) (sink [] []) client_link
client_link-Waits = record {
  flowing = file-IsFlowing (requests_bytes 3 two (2 ∷ []));
  coming = contents-file (requests_bytes 3 two (2 ∷ []));
  kept = refl;
}

handle_client-Serves_example :
    Returns
      (λ link' s'.
        Waits [] (sink [] (encode int_size 3 ++ (serve_all rounds two (concert ∷ [])).0)) link'
        × Lists s' (serve_all rounds two (concert ∷ [])).1)
      (handle_client all_open stale rounds 3 3 3 client_link running)
handle_client-Serves_example =
    handle_client-Serves stale rounds 3 3 two [] client_link stale_size (omega arith) running-Lists
      (concert-IsValid, tt) (rounds-Supply 2) two-AllFit (omega arith) (omega arith)
      client_link-Waits

ems_show_stdout_lem_example :
    Answers running
      (sink [] [])
      (stdout_spec calls 7 (concert ∷ [])).0
      (stdout_spec calls 7 (concert ∷ [])).1
      (ems_show_stdout calls 1 7 (sink [] []) running)
ems_show_stdout_lem_example =
    ems_show_stdout_lem calls 1 7 (sink [] []) running-Lists (concert-IsValid, tt)
      (concert-HasTypes, tt) (omega arith)

print_events_lem_example :
    Returns
      (λ out s'.
        (s' ≡ running)
        × (out ≡ (
          (printed rounds (concert ∷ []) 2).0,
          sink [] (b'>' ∷ (printed rounds (concert ∷ []) 2).1),
        )))
      (print_events rounds 1 2 (sink [] (b'>' ∷ [])) running)
print_events_lem_example =
    print_events_lem rounds 1 2 (b'>' ∷ []) running-Lists (concert-IsValid, tt)
      (concert-HasTypes, tt) (omega arith) (omega arith)
