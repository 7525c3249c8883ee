-- ===== src/Operations/Create.antt =====
-- `ems_create` against the list of events.
use event_management_server.Base.{
  ℕ, ◌≤◌, ◌≡◌, refl, ap, ◌≢◌, Bool, true, false, not, Option, none, some, List, [], ◌∷◌, ◌++◌,
  arith, ◌==◌, length, if◌then◌else◌, ==_ne, Bool-cases, inl, inr,
}
use event_management_server.Seats.{Event, new_event}
use event_management_server.Memory.{Ptr, null, State, done, pure, ◌>>◌, update}
use event_management_server.Memory.Returns
use event_management_server.Memory.Returns.{Returns, returns}
use event_management_server.EventList.{append_to_list}
use event_management_server.EventList.Chain.{Cells, has_event, events_of, Represents}
use event_management_server.EventList.Lookup.{
  find_event, Located, missing, located, Content-Located,
}
use event_management_server.EventList.Append.{append_to_list_lem, append_to_list-null}
use event_management_server.Operations.{Calls, on_list, append_new, create_event, ems_create}
use event_management_server.Operations.CreateSpec.{allocates, Fresh, create_found, create_spec}
use event_management_server.Operations.View.{
  Lists, events_of-append, length-events_of, Represents-events, Content-fresh, list_not_null,
  load_list-done, on_list-done, get_event-done,
}

module _ (calls : Calls) {s : State} {cells : Cells} (id rows cols : ℕ) (rep : Represents s cells)
    (fresh : Fresh calls s) where
  apart : has_event calls.malloc_event cells ≡ false
  apart = Content-fresh calls.malloc_event rep.content fresh.event

  abbrev with_event : Event → State
  with_event v = record s { events = update s.events calls.malloc_event (some v) }

  abbrev with_events : Event → Option Event → State
  with_events v w = record s {
    events = update (update s.events calls.malloc_event (some v)) calls.malloc_event w;
  }

  kept : (v : Event) → Represents (with_event v) cells
  unfolding update
  kept v =
      Represents-events (update s.events calls.malloc_event (some v)) rep
        (λ a i. ground (arith, apart))

  kept_twice : (v : Event) (w : Option Event) → Represents (with_events v w) cells
  unfolding update
  kept_twice v w =
      Represents-events (update (update s.events calls.malloc_event (some v)) calls.malloc_event w)
        rep (λ a i. ground (arith, apart))

  -- Both ways out: the list as it was, or with the new event at its end.
  unchanged : {s' : State} → Represents s' cells → Lists s' (events_of cells)
  unchanged r = record { cells = cells; rep = r; view = refl }

  append_event :
      (v : Event)
      → calls.malloc_event ≢ null
      → calls.malloc_node ≢ null
      → Returns
          (λ r s'.
            (r ≡ 0)
            × Represents s'
                (cells ++ (calls.malloc_node, calls.malloc_event, new_event id rows cols) ∷ [])
            × (s'.event_list ≡ s.event_list))
          (append_to_list calls.malloc_node s.event_list calls.malloc_event
            (with_events v (some (new_event id rows cols))))
  unfolding update
  append_event v ne ne' =
      append_to_list_lem calls.malloc_node calls.malloc_event (new_event id rows cols)
        (kept_twice v (some (new_event id rows cols))) ne' fresh.node ne (ground arith) apart

  -- The outcome: the new event is at the end, or nothing has changed.
  abbrev Created : Bool → ℕ → State → Type 0
  Created ok r s' =
      (r ≡ (if ok then 0 else 1))
      × Lists s' (if ok then events_of cells ++ new_event id rows cols ∷ [] else events_of cells)

  append_new_lem :
      (v : Event)
      → calls.malloc_event ≢ null
      → Returns
          (Created (not (calls.malloc_node == null)))
          (append_new calls s.event_list (with_events v (some (new_event id rows cols))))
  unfolding append_new update
  append_new_lem v ne = elim (Bool-cases (calls.malloc_node == null)) [
    | inl gone ↦
        rw
          (
            append_to_list-null calls.malloc_node s.event_list calls.malloc_event
                (with_events v (some (new_event id rows cols))) gone,
            gone,
            on_list-done (kept_twice v (some (new_event id rows cols))) calls.rwlock_unlock,
          )
          (returns (
            refl,
            unchanged (
                Represents-events
                  (update
                    (update (update s.events calls.malloc_event (some v)) calls.malloc_event
                      (some (new_event id rows cols)))
                    calls.malloc_event none)
                  rep (λ a i. ground (arith, apart))),
          ))
    | inr there ↦ rw there (
        Returns.bind (append_event v ne (ground arith)) λ r s' p.
          rw (← p.2, on_list-done p.1 calls.rwlock_unlock, p.0)
            (returns (
              refl,
              record {
                cells =
                    cells ++ (calls.malloc_node, calls.malloc_event, new_event id rows cols) ∷ [];
                rep = p.1;
                view =
                    events_of-append cells calls.malloc_node calls.malloc_event
                      (new_event id rows cols);
              },
            )))
  ]

  failed : {s' : State} → Represents s' cells → Returns (Created false) (done 1 s')
  failed r = returns (refl, unchanged r)

  create_event_lem :
      Returns (Created (allocates calls)) (create_event calls s.event_list id rows cols s)
  unfolding create_event append_new update
  create_event_lem = elim (Bool-cases (calls.malloc_event == null)) [
    | inl gone ↦ rw (gone, on_list-done rep calls.rwlock_unlock) (returns (refl, unchanged rep))
    | inr there ↦
        let v : Event = record (new_event id rows cols) { seats = [] } in
        rw there (elim (Bool-cases (calls.mutex_init == 0)) [
          | inr bad ↦
              rw (bad, on_list-done (kept v) calls.rwlock_unlock) (failed (kept_twice v none))
          | inl good ↦ rw good (elim (Bool-cases calls.calloc) [
            | inr bad ↦
                rw (bad, on_list-done (kept v) calls.rwlock_unlock) (failed (kept_twice v none))
            | inl array ↦ rw array (append_new_lem v (ground arith))
          ])
        ])
  ]

  Created_lem :
      {r : ℕ} {s' : State} (ok : Bool)
      → Created ok r s'
      → let out : ℕ × List Event =
          if ok
          then (0, events_of cells ++ new_event id rows cols ∷ [])
          else (1, events_of cells) in
        (r ≡ out.0) × Lists s' out.1
  Created_lem true p = p
  Created_lem false p = p

  -- What follows the search, by what the search has found.
  after_search :
      (a : Ptr) (found : Option Event)
      → Located s cells a found
      → (calls.rwlock_lock == 0) ≡ true
      → Returns
          (λ r s'.
            (r ≡ (create_found calls id rows cols (events_of cells) found).0)
            × Lists s' (create_found calls id rows cols (events_of cells) found).1)
          ((if a == null
              then create_event calls s.event_list id rows cols
              else on_list s.event_list calls.rwlock_unlock >> pure 1)
            s)
  unfolding create_found
  after_search a found (missing h f) locked =
      rw (h, f, locked) (Returns.mono create_event_lem (λ r s' p. Created_lem (allocates calls) p))
  after_search a found (located v ne at f i) locked =
      rw (==_ne a null ne, f, on_list-done rep calls.rwlock_unlock) (returns (refl, unchanged rep))

create_unlocked :
    (calls : Calls) (id rows cols : ℕ) (es : List Event) (found : Option Event)
    → (calls.rwlock_lock == 0) ≡ false
    → create_found calls id rows cols es found ≡ (1, es)
unfolding create_found
create_unlocked calls id rows cols es none bad = rw bad
create_unlocked calls id rows cols es (some e) bad = refl

-- `ems_create` on the list of events, on every branch: a new id is added at the end with its seats
-- free and the code is 0; where the id is there, or a lock or an allocation fails, the code is 1
-- and the list is as it was. It neither faults nor runs out of fuel.
pub ems_create_lem :
    (calls : Calls) {s : State} {es : List Event} (fuel id rows cols : ℕ)
    → Lists s es
    → Fresh calls s
    → length es ≤ fuel
    → Returns
        (λ r s'.
          (r ≡ (create_spec calls id rows cols es).0)
          × Lists s' (create_spec calls id rows cols es).1)
        (ems_create calls fuel id rows cols s)
unfolding ems_create create_spec
ems_create_lem calls {s} fuel id rows cols l fresh enough =
    rw (← l.view, list_not_null l.rep, on_list-done l.rep calls.rwlock_lock)
      (elim (Bool-cases (calls.rwlock_lock == 0)) [
        | inl locked ↦
            rw
              (
                locked,
                load_list-done l.rep,
                get_event-done l.rep fuel id
                    (omega (arith, length-events_of l.cells, ap length l.view)),
              )
              (after_search calls id rows cols l.rep fresh _ _ (Content-Located id l.rep.content)
                locked)
        | inr bad ↦
            rw
              (
                bad,
                create_unlocked calls id rows cols (events_of l.cells)
                    (find_event id (events_of l.cells)) bad,
              )
              (returns (refl, unchanged calls id rows cols l.rep fresh l.rep))
      ])
