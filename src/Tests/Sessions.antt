-- ===== src/Tests/Sessions.antt =====
-- Requests and answers through pipes that deliver a byte string at once.
use event_management_server.Base.{
  ℕ, ◌≡◌, refl, some, [], ◌∷◌, length, replicate, length-replicate, arith, append-nil,
}
use event_management_server.Memory.Returns.{Returns}
use event_management_server.Io.Descriptor.{Bytes, Source, file, accept, refuse, Sink}
use event_management_server.Io.Deliver.{sink}
use event_management_server.Io.Transfer.{contents, IsFlowing}
use event_management_server.Operations.Answer.{ems_show}
use event_management_server.Operations.Sending.{Answers}
use event_management_server.Operations.Answer.{ems_list_events}
use event_management_server.Operations.ListEvents.{list_spec, ems_list_events_lem}
use event_management_server.Operations.View.{Lists}
use event_management_server.Operations.Show.{show_spec, ems_show_lem}
use event_management_server.Operations.CreateSpec.{create_spec}
use event_management_server.Operations.Reserve.{reserve_spec}
use event_management_server.Sessions.Messages.{create, reserve, show, Fits}
use event_management_server.Api.{ems_create, ems_reserve}
use event_management_server.Api.Requests.{working}
use event_management_server.Api.Exchange.{
  Delivering, server, unanswered, ems_create_exchange, ems_reserve_exchange,
}
use event_management_server.Tests.Seats.{concert, request, concert-IsValid}
use event_management_server.Tests.Memory.{running, running-Lists, calls, running-Fresh}

abbrev pub stale : ℕ → Source → Bytes
stale n src = replicate n 7

pub stale_size : (n : ℕ) (src : Source) → length (stale n src) ≡ n
stale_size n src = length-replicate n 7

abbrev slow : Sink
slow = sink (accept 6 ∷ refuse ∷ []) []

ems_show_lem_example :
    Answers running slow
      (show_spec calls 7 (concert ∷ [])).0
      (show_spec calls 7 (concert ∷ [])).1
      (ems_show calls 1 7 slow running)
ems_show_lem_example = ems_show_lem calls 1 7 slow running-Lists (concert-IsValid, tt) (omega arith)

ems_list_events_lem_example :
    Answers running slow
      (list_spec calls (concert ∷ [])).0
      (list_spec calls (concert ∷ [])).1
      (ems_list_events calls 1 slow running)
ems_list_events_lem_example =
    ems_list_events_lem calls 1 slow running-Lists (omega arith) (omega arith)

pub file-IsFlowing : (bs : Bytes) → IsFlowing (file bs)
file-IsFlowing [] = tt
file-IsFlowing (b ∷ bs) = tt

pub contents-file : (bs : Bytes) → contents (file bs) ≡ bs
contents-file [] = refl
contents-file (b ∷ bs) = append-nil (b ∷ bs)

pub pipe : Delivering (λ bs. file bs)
pipe = record { flowing = file-IsFlowing; all_there = contents-file }

pub show_Fits : Fits (show 7)
unfolding Fits
show_Fits = omega arith

pub create_Fits : Fits (create 8 4 5)
unfolding Fits
create_Fits = (omega arith, omega arith, omega arith)

ems_create_exchange_example :
    Returns
      (λ link' s'.
        Lists s' (create_spec calls 8 4 5 (concert ∷ [])).1
        × ((ems_create working stale
              (λ _. file link'.response.written)
              1
              8
              4
              5
              slow
              (sink [] [])).code
            ≡ some (create_spec calls 8 4 5 (concert ∷ [])).0))
      (server stale
        (λ bs. file bs)
        (λ _. calls)
        1
        (ems_create working stale unanswered 1 8 4 5 slow (sink [] []))
        running)
ems_create_exchange_example =
    ems_create_exchange stale stale_size (λ bs. file bs) pipe (λ _. calls) 1 running-Lists
      (concert-IsValid, tt) (omega arith) (omega arith) 1 8 4 5 slow running-Fresh (omega arith)
      create_Fits

reserve_Fits : Fits (reserve 7 request)
unfolding Fits
reserve_Fits =
    (omega arith, omega arith, (omega arith, (omega arith, tt)), (omega arith, (omega arith, tt)))

ems_reserve_exchange_example :
    Returns
      (λ link' s'.
        Lists s' (reserve_spec calls 7 request (concert ∷ [])).1
        × ((ems_reserve working stale
              (λ _. file link'.response.written)
              1
              7
              2
              (1 ∷ 2 ∷ [])
              (1 ∷ 3 ∷ [])
              slow
              (sink [] [])).code
            ≡ some (reserve_spec calls 7 request (concert ∷ [])).0))
      (server stale
        (λ bs. file bs)
        (λ _. calls)
        1
        (ems_reserve working stale unanswered 1 7 2 (1 ∷ 2 ∷ []) (1 ∷ 3 ∷ []) slow (sink [] []))
        running)
ems_reserve_exchange_example =
    ems_reserve_exchange stale stale_size (λ bs. file bs) pipe (λ _. calls) 1 running-Lists
      (concert-IsValid, tt) (omega arith) (omega arith) 1 7 request slow running-Fresh (omega arith)
      reserve_Fits
