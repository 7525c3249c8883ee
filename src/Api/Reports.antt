-- ===== src/Api/Reports.antt =====
-- Client and server at the two ends of a session's pipes, for the requests that change nothing.
use event_management_server.Base.{ℕ, ◌<◌, ◌≤◌, ◌≡◌, ap, ◌∙◌, List, [], length, size_mod, uint_mod}
use event_management_server.Seats.{Event}
use event_management_server.Seats.Types.{AllTypes}
use event_management_server.Memory.{State}
use event_management_server.Memory.Returns
use event_management_server.Memory.Returns.{Returns}
use event_management_server.Io.Descriptor.{Bytes, Source}
use event_management_server.Io.Deliver.{sink}
use event_management_server.Operations.{Calls}
use event_management_server.Operations.View.{Lists}
use event_management_server.Operations.CreateSpec.{Fresh}
use event_management_server.Operations.Reserve.{AllValid}
use event_management_server.Sessions.Messages.{show, list_events, Fits, serve_spec}
use event_management_server.Api.Show.{ems_show}
use event_management_server.Api.ListEvents.{ems_list_events}
use event_management_server.Api.Requests.{
  working, request_bytes, ems_show-request, ems_show-written, ems_list_events-request,
  ems_list_events-written,
}
use event_management_server.Api.Answers.{Gives, shown, listed, answer_shown, answer_listed}
use event_management_server.Api.Exchange.{Delivering, server, unanswered, exchanged}

module _ (stale : ℕ → Source → Bytes) (sized : (n : ℕ) (src : Source) → length (stale n src) ≡ n)
    (deliver : Bytes → Source) (pipe : Delivering deliver) (calls : ℕ → Calls) (fuel : ℕ)
    {s : State} {es : List Event} (l : Lists s es) (valid : AllValid es) (types : AllTypes es)
    (enough : length es ≤ fuel) (bound : length es < size_mod) (session_id : ℕ) (text : Bytes)
    (fresh : Fresh (calls 1) s) (small : session_id < uint_mod) where
  -- A client's `ems_show` and the server's session on what it wrote: the list is as it was, and
  -- the client prints the seats of the first event with the id row by row behind what is in its
  -- output file and returns 0; where there is none or a lock of the server fails it prints nothing
  -- and returns 1. All pipes of the client work, and its output file takes everything.
  pub ems_show_exchange :
      (id : ℕ)
      → id < uint_mod
      → Returns
          (λ link' s'.
            Lists s' es
            × Gives text (shown (calls 1) id es) (
                ems_show working stale
                  (λ _. deliver link'.response.written)
                  session_id
                  id
                  (sink [] text)
                  (sink [] [])))
          (server stale deliver calls fuel
            (ems_show working stale unanswered session_id id (sink [] text) (sink [] []))
            s)
  unfolding serve_spec Fits
  ems_show_exchange id fits = rw (ems_show-written stale unanswered session_id id (sink [] text)) (
      Returns.mono
        (exchanged stale sized deliver pipe calls fuel l valid enough bound session_id (show id)
          fresh small fits)
        λ link' s' p. (
          p.1,
          rw
              (ems_show-request stale (λ _. deliver link'.response.written) session_id id
                (sink [] text))
              (answer_shown stale sized (λ _. deliver link'.response.written) text
                (sink [] (request_bytes session_id (show id))) (pipe.flowing _) (calls 1) id es
                valid types (pipe.all_there _ ∙ ap (λ t. t.written) p.0)),
        ))

  -- The same for `ems_list_events`: the client prints a line for each event, in the order of the
  -- list, and returns 0; where there is none it prints a message and returns 1, and where the
  -- lock fails it prints nothing and returns 1.
  pub ems_list_events_exchange :
      Returns
        (λ link' s'.
          Lists s' es
          × Gives text (listed (calls 1) es) (
              ems_list_events working stale
                (λ _. deliver link'.response.written)
                session_id
                (sink [] text)
                (sink [] [])))
        (server stale deliver calls fuel
          (ems_list_events working stale unanswered session_id (sink [] text) (sink [] []))
          s)
  unfolding serve_spec Fits
  ems_list_events_exchange =
      rw (ems_list_events-written stale unanswered session_id (sink [] text)) (
        Returns.mono
          (exchanged stale sized deliver pipe calls fuel l valid enough bound session_id list_events
            fresh small tt)
          λ link' s' p. (
            p.1,
            rw
                (ems_list_events-request stale (λ _. deliver link'.response.written) session_id
                  (sink [] text))
                (answer_listed stale sized (λ _. deliver link'.response.written) text
                  (sink [] (request_bytes session_id list_events)) (pipe.flowing _) (calls 1) es
                  types bound (pipe.all_there _ ∙ ap (λ t. t.written) p.0)),
          ))
