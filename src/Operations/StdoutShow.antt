-- ===== src/Operations/StdoutShow.antt =====
-- `ems_show_stdout` against the list of events.
use event_management_server.Base.{
  ℕ, ◌≤◌, ◌≡◌, refl, ap, sym, subst, Option, none, some, List, [], arith, length, ◌==◌,
  if◌then◌else◌, ==_ne, Bool-cases, inl, inr, append-nil,
}
use event_management_server.Seats.{Event}
use event_management_server.Seats.Index.{IsValid}
use event_management_server.Seats.Types.{HasTypes, AllTypes}
use event_management_server.Memory.{Ptr, null, State, done}
use event_management_server.Memory.Returns.{returns}
use event_management_server.Io.Descriptor.{Bytes, Sink}
use event_management_server.Wire.Answers.{whole}
use event_management_server.EventList.Chain.{Cells, events_of, deref-done}
use event_management_server.EventList.Lookup.{
  find_event, address_of, Located, missing, located, Content-Located,
}
use event_management_server.Operations.{Calls}
use event_management_server.Operations.View.{
  Lists, length-events_of, list_not_null, load_list-done, on_list-done, get_event-done,
}
use event_management_server.Operations.Reserve.{AllValid, find_event-IsValid}
use event_management_server.Operations.Types.{find_event-HasTypes}
use event_management_server.Operations.Sending.{Answers}
use event_management_server.Operations.Stdout.{show_located, ems_show_stdout}
use event_management_server.Operations.StdoutGrid.{spaced_grid, show_rows_lem}

grid_of : Calls → Option Event → ℕ × Bytes
unfolding spaced_grid
grid_of calls none = (1, [])
grid_of calls (some e) =
    if calls.mutex_lock == 0 then (0, spaced_grid e.cols e.rows e.seats) else (1, [])

-- The seats of the first event with the id, row by row; 1 and no text where there is none or a lock
-- fails.
unfoldable pub stdout_spec : Calls → ℕ → List Event → ℕ × Bytes
unfolding grid_of
stdout_spec calls id es =
    if calls.rwlock_lock == 0 then grid_of calls (find_event id es) else (1, [])

no_text : (s : State) (sink : Sink) → Answers s sink 1 [] (done (1, sink) s)
no_text s sink = returns (refl, whole refl (sym (append-nil sink.written)) (λ e. e))

module _ (calls : Calls) {s : State} {cells : Cells} (sink : Sink) where
  show_located_lem :
      (a : Ptr) (found : Option Event)
      → Located s cells a found
      → ((v : Event) → found ≡ some v → IsValid v × HasTypes v)
      → Answers s sink (grid_of calls found).0 (grid_of calls found).1 (show_located calls a sink s)
  unfolding grid_of show_located
  show_located_lem a found (missing h f) good = rw (h, f) (no_text s sink)
  show_located_lem a found (located v ne at f i) good =
      rw (==_ne a null ne, deref-done (λ t. t.events) a s v ne at, f)
        (elim (Bool-cases (calls.mutex_lock == 0)) [
          | inl locked ↦
              let (valid, types) = good v f in
              rw locked (
                show_rows_lem v valid v.rows 1 [] v.seats sink (omega arith) (omega arith)
                  (omega arith) valid.size refl types.seats_fit)
          | inr bad ↦ rw bad (no_text s sink)
        ])

-- `ems_show_stdout` leaves the state as it is. It prints the seats of the first event with the id row
-- by row, with code 0, or nothing, with code 1, where there is none or a lock fails; where writing
-- breaks off the code is 1 and a front of the text is there.
pub ems_show_stdout_lem :
    (calls : Calls) {s : State} {es : List Event} (fuel id : ℕ) (sink : Sink)
    → Lists s es
    → AllValid es
    → AllTypes es
    → length es ≤ fuel
    → Answers s sink
        (stdout_spec calls id es).0
        (stdout_spec calls id es).1
        (ems_show_stdout calls fuel id sink s)
unfolding ems_show_stdout stdout_spec
ems_show_stdout_lem calls {s} fuel id sink l valid types enough =
    let valid' : AllValid (events_of l.cells) = subst (λ xs. AllValid xs) (sym l.view) valid in
    let types' : AllTypes (events_of l.cells) = subst (λ xs. AllTypes xs) (sym l.view) types in
    rw (← l.view, list_not_null l.rep, on_list-done l.rep calls.rwlock_lock)
      (elim (Bool-cases (calls.rwlock_lock == 0)) [
        | inl locked ↦
            rw
              (
                locked,
                load_list-done l.rep,
                get_event-done l.rep fuel id
                    (omega (arith, length-events_of l.cells, ap length l.view)),
                on_list-done l.rep calls.rwlock_unlock,
              )
              (show_located_lem calls sink (address_of id l.cells)
                (find_event id (events_of l.cells)) (Content-Located id l.rep.content)
                λ v f. (
                  find_event-IsValid id (events_of l.cells) v valid' f,
                  find_event-HasTypes id (events_of l.cells) v types' f,
                ))
        | inr bad ↦ rw bad (no_text s sink)
      ])
