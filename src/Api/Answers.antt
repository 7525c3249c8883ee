-- ===== src/Api/Answers.antt =====
-- The answers of the server to `ems_show` and `ems_list_events`, and what the client makes of them.
use event_management_server.Base.{
  ℕ, ◌<◌, ◌≡◌, refl, ap, sym, ◌∙◌, Option, none, some, List, [], ◌∷◌, ◌++◌, arith, length, ◌==◌,
  if◌then◌else◌, Bool-cases, inl, inr, append-nil, size_mod,
}
use event_management_server.Seats.{Event}
use event_management_server.Seats.Index.{IsValid}
use event_management_server.Seats.Types.{HasTypes, AllTypes}
use event_management_server.Io.Descriptor.{Bytes, Source, Sink}
use event_management_server.Io.Deliver.{sink}
use event_management_server.Io.Transfer.{contents, IsFlowing}
use event_management_server.Wire.{int_size, size_size, encode}
use event_management_server.EventList.Lookup.{find_event}
use event_management_server.Operations.{Calls}
use event_management_server.Operations.Reserve.{AllValid, find_event-IsValid}
use event_management_server.Operations.Types.{find_event-HasTypes}
use event_management_server.Operations.Show.{show_of, show_spec, event_bytes, seats_bytes}
use event_management_server.Operations.ListEvents.{list_of, list_spec, ids_bytes}
use event_management_server.Api.{Outcome, await_result, closed}
use event_management_server.Api.Show.{show_answer}
use event_management_server.Api.ListEvents.{list_answer, no_events}
use event_management_server.Api.Requests.{working}
use event_management_server.Api.Printing.{await_result_lem, await_result-refused}
use event_management_server.Api.Grid.{grid_text, show_answer_lem}
use event_management_server.Api.EventLines.{lines_text, list_answer_lem, list_answer-none}

-- The return value and what is printed.
abbrev pub Result : Type 0
Result = ℕ × Bytes

shown_of : Calls → Option Event → Result
unfolding grid_text
shown_of calls none = (1, [])
shown_of calls (some e) =
    if calls.mutex_lock == 0 then (0, grid_text e.cols e.rows e.seats) else (1, [])

-- The seats of the first event with the id; 1 and no text where there is none or a lock fails.
unfoldable pub shown : Calls → ℕ → List Event → Result
unfolding shown_of
shown calls id es = if calls.rwlock_lock == 0 then shown_of calls (find_event id es) else (1, [])

listed_of : List Event → Result
unfolding lines_text
listed_of [] = (1, no_events)
listed_of (e ∷ es) = (0, lines_text (e ∷ es))

-- A line for each event; 1 and a message where there is none, 1 and no text where the lock fails.
unfoldable pub listed : Calls → List Event → Result
unfolding listed_of
listed calls es = if calls.rwlock_lock == 0 then listed_of es else (1, [])

-- The client returns the result and prints the text behind what is in its output file.
abbrev pub Gives : Bytes → Result → Outcome → Type 0
Gives text out o = (o.code ≡ some out.0) × (o.output ≡ sink [] (text ++ out.1))

module _ (stale : ℕ → Source → Bytes) (sized : (n : ℕ) (src : Source) → length (stale n src) ≡ n)
    (answers : Sink → Source) (text : Bytes) (requests : Sink)
    (flow : IsFlowing (answers requests)) where
  answer_refused :
      (next : ℕ → Outcome → Outcome)
      → contents (answers requests) ≡ encode int_size 1
      → Gives text (1, []) (await_result working stale answers next (sink [] text) requests)
  answer_refused next coming =
      await_result-refused (Gives text (1, [])) stale sized answers next 1 [] text requests
        (omega arith) flow (coming ∙ sym (append-nil (encode int_size 1))) refl
        λ o code output. (code, output ∙ ap (λ t. sink [] t) (sym (append-nil text)))

  shown_event :
      (e : Event)
      → IsValid e
      → HasTypes e
      → contents (answers requests) ≡ event_bytes e
      → Gives text
          (0, grid_text e.cols e.rows e.seats)
          (await_result working stale answers
            (show_answer stale (closed working stale answers))
            (sink [] text)
            requests)
  unfolding event_bytes closed
  shown_event e valid types coming =
      let rest = encode size_size e.rows ++ (encode size_size e.cols ++ seats_bytes e.seats) in
      let finish = closed working stale answers in
      let P = Gives text (0, grid_text e.cols e.rows e.seats) in
      await_result_lem P stale sized answers (show_answer stale finish) 0 rest text requests
        (omega arith) flow coming (omega arith)
        λ o r.
          show_answer_lem P stale sized e text finish 0 o valid types r λ o' r'. (refl, r'.output)

  shown_found :
      (calls : Calls) (found : Option Event)
      → ((e : Event) → found ≡ some e → IsValid e × HasTypes e)
      → contents (answers requests) ≡ (show_of calls found).1
      → Gives text (shown_of calls found) (
          await_result working stale answers
            (show_answer stale (closed working stale answers))
            (sink [] text)
            requests)
  unfolding show_of shown_of
  shown_found calls none good coming = answer_refused _ coming
  shown_found calls (some e) good coming = elim (Bool-cases (calls.mutex_lock == 0)) [
    | inl locked ↦ rw locked (shown_event e (good e refl).0 (good e refl).1 (simp locked at coming))
    | inr bad ↦ rw bad (answer_refused _ (simp bad at coming))
  ]

  -- The client on the server's answer to `ems_show`.
  pub answer_shown :
      (calls : Calls) (id : ℕ) (es : List Event)
      → AllValid es
      → AllTypes es
      → contents (answers requests) ≡ (show_spec calls id es).1
      → Gives text (shown calls id es) (
          await_result working stale answers
            (show_answer stale (closed working stale answers))
            (sink [] text)
            requests)
  unfolding show_spec shown
  answer_shown calls id es valid types coming = elim (Bool-cases (calls.rwlock_lock == 0)) [
    | inl locked ↦ rw locked (
        shown_found calls (find_event id es)
          (λ e f. (find_event-IsValid id es e valid f, find_event-HasTypes id es e types f))
          (simp locked at coming))
    | inr bad ↦ rw bad (answer_refused _ (simp bad at coming))
  ]

  listed_events :
      (e : Event) (es : List Event)
      → AllTypes (e ∷ es)
      → length (e ∷ es) < size_mod
      → contents (answers requests) ≡ (list_of (e ∷ es)).1
      → Gives text
          (0, lines_text (e ∷ es))
          (await_result working stale answers
            (list_answer stale (closed working stale answers))
            (sink [] text)
            requests)
  unfolding list_of closed
  listed_events e es types small coming =
      let rest = encode size_size (length (e ∷ es)) ++ ids_bytes (e ∷ es) in
      let finish = closed working stale answers in
      let P = Gives text (0, lines_text (e ∷ es)) in
      await_result_lem P stale sized answers (list_answer stale finish) 0 rest text requests
        (omega arith) flow coming (omega arith)
        λ o r.
          list_answer_lem P stale sized e es text finish o small types r λ o' r'. (refl, r'.output)

  listed_none :
      contents (answers requests) ≡ (list_of []).1
      → Gives text
          (1, no_events)
          (await_result working stale answers
            (list_answer stale (closed working stale answers))
            (sink [] text)
            requests)
  unfolding list_of
  listed_none coming =
      let finish = closed working stale answers in
      let P = Gives text (1, no_events) in
      await_result_lem P stale sized answers (list_answer stale finish) 2 [] text requests
        (omega arith) flow (coming ∙ sym (append-nil (encode int_size 2))) (omega arith)
        λ o r. list_answer-none P stale sized [] text finish o r λ o' code output. (code, output)

  listed_found :
      (es : List Event)
      → AllTypes es
      → length es < size_mod
      → contents (answers requests) ≡ (list_of es).1
      → Gives text (listed_of es) (
          await_result working stale answers
            (list_answer stale (closed working stale answers))
            (sink [] text)
            requests)
  unfolding listed_of
  listed_found [] types small coming = listed_none coming
  listed_found (e ∷ es) types small coming = listed_events e es types small coming

  -- The client on the server's answer to `ems_list_events`.
  pub answer_listed :
      (calls : Calls) (es : List Event)
      → AllTypes es
      → length es < size_mod
      → contents (answers requests) ≡ (list_spec calls es).1
      → Gives text (listed calls es) (
          await_result working stale answers
            (list_answer stale (closed working stale answers))
            (sink [] text)
            requests)
  unfolding list_spec listed
  answer_listed calls es types small coming = elim (Bool-cases (calls.rwlock_lock == 0)) [
    | inl locked ↦ rw locked (listed_found es types small (simp locked at coming))
    | inr bad ↦ rw bad (answer_refused _ (simp bad at coming))
  ]
