-- ===== src/Operations/Ends.antt =====
-- The operations on any list of events, also with events whose seats do not fit size_t.
use event_management_server.Base.{
  ℕ, zero, suc, ◌+◌, ◌<◌, ◌≤◌, ◌≡◌, refl, ap, List, arith, length, get_elem?, ◌==◌, ==_ne,
  Bool-cases, Option-cases, inl, inr, Option, size_mod,
}
use event_management_server.Seats.{
  Event, Seat, Reservation, refused, granted, corrupted, reserve_event, seat_count,
}
use event_management_server.Memory.{Ptr, null, State, Run, Cmd, pure}
use event_management_server.Memory.Ended.{Ended, ends, faults, Returns-Ended, Ended-if}
use event_management_server.Io.{my_write}
use event_management_server.Io.Descriptor.{Bytes, Sink}
use event_management_server.Wire.{int_size, size_size, encode, failed}
use event_management_server.EventList.Chain.{Cells, events_of, Represents, deref-done}
use event_management_server.EventList.Lookup.{
  address_of, find_event, Located, missing, located, Content-Located,
}
use event_management_server.EventList.Replace.{
  replace_cell, events_of-replace, Represents-replace, replace_event,
}
use event_management_server.Operations.{
  Calls, store_reservation, reserve_found, reserve_by, overrun_section, ems_reserve,
  ems_reserve_overrun, ems_create,
}
use event_management_server.Operations.CreateSpec.{Fresh}
use event_management_server.Operations.Create.{ems_create_lem}
use event_management_server.Operations.Lengths.{length-create_spec, length-replace_event}
use event_management_server.Operations.Answer.{
  put, show_seats, show_event, show_found, ems_show, ems_list_events, answer_int,
}
use event_management_server.Operations.ListEvents.{ems_list_events_lem}
use event_management_server.Operations.View.{
  Lists, length-events_of, list_not_null, load_list-done, on_list-done, get_event-done,
}

-- The memory stands for a list of at most `n` events.
pub record Listed (n : ℕ) (s : State) : Type 0 where
  pub events : List Event
  pub lists : Lists s events
  pub few : length events ≤ n

same_list : {s : State} {cells : Cells} → Represents s cells → Listed (length (events_of cells)) s
same_list {cells} rep = record {
  events = events_of cells;
  lists = record { cells = cells; rep = rep; view = refl };
  few = omega arith;
}

Ended-mono :
    {A : Type 0} {P Q : A → State → Type 0} {r : Run A}
    → Ended P r
    → ((a : A) (s : State) → P a s → Q a s)
    → Ended Q r
Ended-mono (ends p) weaken = ends (weaken _ _ p)
Ended-mono faults weaken = faults

put-Ended :
    (s : State) (bs : Bytes) (next : Sink → Cmd (ℕ × Sink)) (sink : Sink)
    → ((sink' : Sink) → Ended (λ _ s'. s' ≡ s) (next sink' s))
    → Ended (λ _ s'. s' ≡ s) (put bs next sink s)
unfolding put
put-Ended s bs next sink more =
    let (code, sink') = my_write bs sink in
    Ended-if (failed code) (pure (1, sink')) (next sink') s (ends refl) (more sink')

module _ (calls : Calls) {s : State} {cells : Cells} (rep : Represents s cells) (id : ℕ) where
  abbrev Kept : State → Type 0
  Kept s' = Listed (length (events_of cells)) s'

  store-Ended :
      (a : Ptr) (r : Reservation)
      → address_of id cells ≡ a
      → ¬ (a ≡ null)
      → Ended (λ _ s'. Kept s') (store_reservation a r s)
  unfolding store_reservation
  store-Ended a refused here ne = ends (same_list rep)
  store-Ended a (granted v) here ne = ends (record {
    events = replace_event id v (events_of cells);
    lists = record {
      cells = replace_cell id v cells;
      rep = Represents-replace id v a rep here ne;
      view = events_of-replace id v cells;
    };
    few = omega (arith, length-replace_event id v (events_of cells));
  })
  store-Ended a corrupted here ne = faults

  reserve_found-Ended :
      (section : Event → Reservation) (a : Ptr) (found : Option Event)
      → Located s cells a found
      → address_of id cells ≡ a
      → Ended (λ _ s'. Kept s') (reserve_found calls a section s)
  unfolding reserve_found
  reserve_found-Ended section a found (missing h f) here = rw h (ends (same_list rep))
  reserve_found-Ended section a found (located v ne at f i) here =
      rw (==_ne a null ne, deref-done (λ t. t.events) a s v ne at)
        (Ended-if (calls.mutex_lock == 0) (store_reservation a (section v)) (pure 1) s
          (store-Ended a (section v) here ne) (ends (same_list rep)))

reserve_by-Ended :
    (calls : Calls) {s : State} (fuel id n : ℕ) (section : Event → Reservation)
    → Listed n s
    → n ≤ fuel
    → Ended (λ _ s'. Listed n s') (reserve_by calls fuel id section s)
unfolding reserve_by
reserve_by-Ended calls {s} fuel id n section l enough =
    let rep = l.lists.rep in
    let size : length l.lists.cells ≤ fuel =
      omega (arith, length-events_of l.lists.cells, ap length l.lists.view, l.few, enough) in
    rw (list_not_null rep, on_list-done rep calls.rwlock_lock)
      (elim (Bool-cases (calls.rwlock_lock == 0)) [
        | inr bad ↦ rw bad (ends l)
        | inl locked ↦
            rw
              (
                locked,
                load_list-done rep,
                get_event-done rep fuel id size,
                on_list-done rep calls.rwlock_unlock,
              )
              (elim (Bool-cases (calls.rwlock_unlock == 0)) [
                | inr bad ↦ rw bad (ends l)
                | inl unlocked ↦ rw unlocked (
                    Ended-mono
                      (reserve_found-Ended calls rep id section (address_of id l.lists.cells)
                        (find_event id (events_of l.lists.cells)) (Content-Located id rep.content)
                        refl)
                      λ r s' k. record {
                        events = k.events;
                        lists = k.lists;
                        few = omega (arith, k.few, ap length l.lists.view, l.few);
                      })
              ])
      ])

show_seats-Ended :
    (s : State) (e : Event) (m i : ℕ) (sink : Sink)
    → Ended (λ _ s'. s' ≡ s) (show_seats e m i sink s)
unfolding show_seats put
show_seats-Ended s e zero i sink = ends refl
show_seats-Ended s e (suc m) i sink = elim (Option-cases (get_elem? e.seats i)) [
  | inl outside ↦ rw (outside, show_seats) faults
  | inr (v, here) ↦
      rw (here, show_seats)
        (put-Ended s (encode int_size v) (show_seats e m (i + 1)) sink
          λ sink'. show_seats-Ended s e m (i + 1) sink')
]

show_event-Ended :
    (s : State) (e : Event) (sink : Sink) → Ended (λ _ s'. s' ≡ s) (show_event e sink s)
unfolding show_event
show_event-Ended s e sink =
    let seats = show_seats e (seat_count e) 0 in
    let cols = put (encode size_size e.cols) seats in
    put-Ended s (encode int_size 0) (put (encode size_size e.rows) cols) sink λ sink1.
      put-Ended s (encode size_size e.rows) cols sink1 λ sink2.
        put-Ended s (encode size_size e.cols) seats sink2
          λ sink3. show_seats-Ended s e (seat_count e) 0 sink3

show_found-Ended :
    (calls : Calls) (s : State) (cells : Cells) (a : Ptr) (found : Option Event) (sink : Sink)
    → Located s cells a found
    → Ended (λ _ s'. s' ≡ s) (show_found calls a sink s)
unfolding show_found answer_int
show_found-Ended calls s cells a found sink (missing h f) = rw h (ends refl)
show_found-Ended calls s cells a found sink (located v ne at f i) =
    rw (==_ne a null ne, deref-done (λ t. t.events) a s v ne at)
      (Ended-if (calls.mutex_lock == 0) (show_event v sink) (answer_int 1 sink) s
        (show_event-Ended s v sink) (ends refl))

pub ems_show-Ended :
    (calls : Calls) {s : State} (fuel id n : ℕ) (sink : Sink)
    → Listed n s
    → n ≤ fuel
    → Ended (λ _ s'. s' ≡ s) (ems_show calls fuel id sink s)
unfolding ems_show answer_int
ems_show-Ended calls {s} fuel id n sink l enough =
    let rep = l.lists.rep in
    let size : length l.lists.cells ≤ fuel =
      omega (arith, length-events_of l.lists.cells, ap length l.lists.view, l.few, enough) in
    rw (list_not_null rep, on_list-done rep calls.rwlock_lock)
      (elim (Bool-cases (calls.rwlock_lock == 0)) [
        | inr bad ↦ rw bad (ends refl)
        | inl locked ↦
            rw
              (
                locked,
                load_list-done rep,
                get_event-done rep fuel id size,
                on_list-done rep calls.rwlock_unlock,
              )
              (show_found-Ended calls s l.lists.cells (address_of id l.lists.cells)
                (find_event id (events_of l.lists.cells)) sink (Content-Located id rep.content))
      ])

pub ems_reserve-Ended :
    (calls : Calls) {s : State} (fuel id n : ℕ) (seats : List Seat)
    → Listed n s
    → n ≤ fuel
    → Ended (λ _ s'. Listed n s') (ems_reserve calls fuel id seats s)
unfolding ems_reserve
ems_reserve-Ended calls fuel id n seats l enough =
    reserve_by-Ended calls fuel id n (λ e. reserve_event e seats) l enough

pub ems_reserve_overrun-Ended :
    (calls : Calls) {s : State} (fuel id n : ℕ) (seats : List Seat)
    → Listed n s
    → n ≤ fuel
    → Ended (λ _ s'. Listed n s') (ems_reserve_overrun calls fuel id seats s)
unfolding ems_reserve_overrun
ems_reserve_overrun-Ended calls fuel id n seats l enough =
    reserve_by-Ended calls fuel id n (overrun_section seats) l enough

pub ems_create-Ended :
    (calls : Calls) {s : State} (fuel id rows cols n : ℕ)
    → Listed n s
    → Fresh calls s
    → n ≤ fuel
    → Ended (λ _ s'. Listed (n + 1) s') (ems_create calls fuel id rows cols s)
ems_create-Ended calls fuel id rows cols n l fresh enough =
    Ended-mono
      (Returns-Ended
        (ems_create_lem calls fuel id rows cols l.lists fresh (omega (arith, l.few, enough))))
      λ r s' p. record {
        events = _;
        lists = p.1;
        few = omega (arith, length-create_spec calls id rows cols l.events, l.few);
      }

pub ems_list_events-Ended :
    (calls : Calls) {s : State} (fuel n : ℕ) (sink : Sink)
    → Listed n s
    → n ≤ fuel
    → n < size_mod
    → Ended (λ _ s'. s' ≡ s) (ems_list_events calls fuel sink s)
ems_list_events-Ended calls fuel n sink l enough bound =
    Ended-mono
      (Returns-Ended (
        ems_list_events_lem calls fuel sink l.lists (omega (arith, l.few, enough))
          (omega (arith, l.few, bound))))
      λ out s' p. p.0
