-- ===== src/Tests/Api.antt =====
-- The client's calls through pipes that deliver a byte string at once, and through pipes that do not
-- open.
use event_management_server.Base.{
  ℕ, replicate, refl, ◌≡◌, ap, sym, ◌∙◌, append-nil, true, false, some, [], ◌∷◌, arith,
}
use event_management_server.Memory.Returns.{Returns}
use event_management_server.Io.Descriptor.{Bytes, Source, file, accept, refuse, Sink}
use event_management_server.Io.Deliver.{sink}
use event_management_server.Wire.{int_size, decode, encode}
use event_management_server.Operations.View.{Lists}
use event_management_server.Sessions.Messages.{create}
use event_management_server.Api.{ems_create}
use event_management_server.Api.Show.{ems_show}
use event_management_server.Api.ListEvents.{ems_list_events}
use event_management_server.Api.Requests.{
  working, request_bytes, ems_create-request, await_result-closed,
}
use event_management_server.Api.Exchange.{server, unanswered}
use event_management_server.Api.Answers.{Gives, shown, listed}
use event_management_server.Api.Reports.{ems_show_exchange, ems_list_events_exchange}
use event_management_server.Api.Success.{
  Succeeded, create_message, ems_create-Succeeded, ems_create-unanswered,
}
use event_management_server.Api.Connection.{Session, QuitCalls, ems_quit}
use event_management_server.Api.Farewell.{Leaves, ems_quit-Leaves}
use event_management_server.Tests.Seats.{concert, concert-IsValid}
use event_management_server.Tests.Memory.{running, running-Lists, running-Fresh, calls}
use event_management_server.Tests.Sessions.{stale, stale_size, pipe, file-IsFlowing, contents-file}
use event_management_server.Tests.Whole.{concert-HasTypes}

ems_show_exchange_example :
    Returns
      (λ link' s'.
        Lists s' (concert ∷ [])
        × Gives (b'>' ∷ []) (shown calls 7 (concert ∷ [])) (
            ems_show working stale
              (λ _. file link'.response.written)
              1
              7
              (sink [] (b'>' ∷ []))
              (sink [] [])))
      (server stale
        (λ bs. file bs)
        (λ _. calls)
        1
        (ems_show working stale unanswered 1 7 (sink [] (b'>' ∷ [])) (sink [] []))
        running)
ems_show_exchange_example =
    ems_show_exchange stale stale_size (λ bs. file bs) pipe (λ _. calls) 1 running-Lists
      (concert-IsValid, tt) (concert-HasTypes, tt) (omega arith) (omega arith) 1 (b'>' ∷ [])
      running-Fresh (omega arith) 7 (omega arith)

ems_list_events_exchange_example :
    Returns
      (λ link' s'.
        Lists s' (concert ∷ [])
        × Gives (b'>' ∷ []) (listed calls (concert ∷ [])) (
            ems_list_events working stale
              (λ _. file link'.response.written)
              1
              (sink [] (b'>' ∷ []))
              (sink [] [])))
      (server stale
        (λ bs. file bs)
        (λ _. calls)
        1
        (ems_list_events working stale unanswered 1 (sink [] (b'>' ∷ [])) (sink [] []))
        running)
ems_list_events_exchange_example =
    ems_list_events_exchange stale stale_size (λ bs. file bs) pipe (λ _. calls) 1 running-Lists
      (concert-IsValid, tt) (concert-HasTypes, tt) (omega arith) (omega arith) 1 (b'>' ∷ [])
      running-Fresh (omega arith)

abbrev success : Sink → Source
success requests = file (encode int_size 0)

created : (ems_create working stale success 1 8 4 5 (sink [] []) (sink [] [])).code ≡ some 0
created =
    ap (λ o. o.code) (ems_create-request stale success 1 8 4 5 (sink [] []))
    ∙ await_result-closed stale success 0 [] (sink [] []) (sink [] (request_bytes 1 (create 8 4 5)))
        stale_size (omega arith) (file-IsFlowing (encode int_size 0))
        (contents-file (encode int_size 0) ∙ sym (append-nil (encode int_size 0)))

ems_create-Succeeded_example :
    Succeeded working stale success []
      (create_message 1 8 4 5)
      (ems_create working stale success 1 8 4 5 (sink [] []) (sink [] []))
ems_create-Succeeded_example =
    ems_create-Succeeded working stale success 1 8 4 5 (sink [] []) (sink [] []) created

abbrev session : Session
session = record { session_id = 3; req_pipe_path = b'r' ∷ []; resp_pipe_path = b'a' ∷ [] }

-- The pipe of the answers is gone.
abbrev half_closed : QuitCalls
half_closed = record {
  open_request = true;
  close_request = true;
  open_response = false;
  close_response = true;
}

ems_quit-Leaves_example :
    Leaves session
      (b'>' ∷ [])
      (ems_quit half_closed session (sink (accept 1 ∷ refuse ∷ []) (b'>' ∷ [])))
ems_quit-Leaves_example =
    ems_quit-Leaves half_closed session (sink (accept 1 ∷ refuse ∷ []) (b'>' ∷ []))

-- The variables hold zeros before they are read.
abbrev zeros : ℕ → Source → Bytes
zeros n src = replicate n 0

nothing_held : decode (zeros int_size []) ≡ 0
unfolding decode
nothing_held = refl

ems_create-unanswered_example :
    (ems_create working zeros unanswered 1 8 4 5 (sink [] []) (sink [] [])).code ≡ some 0
ems_create-unanswered_example = ems_create-unanswered zeros 1 8 4 5 (sink [] []) nothing_held
