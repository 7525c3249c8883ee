-- ===== src/Operations/Reserve.antt =====
-- `ems_reserve` against the list of events.
use event_management_server.Base.{
  ℕ, ◌≤◌, ◌≡◌, refl, ap, sym, ◌∙◌, subst, ◌≢◌, Bool, ◌&&◌, Option, none, some, List, [], ◌∷◌, arith,
  ◌==◌, length, if◌then◌else◌, ==_ne, Bool-cases, inl, inr,
}
use event_management_server.Seats.{
  Event, Seat, Reservation, refused, granted, corrupted, reserve_event,
}
use event_management_server.Seats.Index.{IsValid}
use event_management_server.Seats.Reserve.{reserve_event_lem}
use event_management_server.Memory.{Ptr, null, State, done}
use event_management_server.Memory.Returns.{Returns, returns}
use event_management_server.EventList.Chain.{Cells, events_of, Represents, deref-done}
use event_management_server.EventList.Lookup.{
  address_of, find_event, Located, missing, located, Content-Located,
}
use event_management_server.EventList.Replace.{
  replace_event, replace_cell, events_of-replace, Represents-replace,
}
use event_management_server.Operations.{
  Calls, reserve_found, store_reservation, reserve_by, ems_reserve,
}
use event_management_server.Operations.View.{
  Lists, length-events_of, list_not_null, load_list-done, on_list-done, get_event-done,
}

abbrev pub AllValid : List Event → Type 0
AllValid [] = Unit {0}
AllValid (v ∷ es) = IsValid v × AllValid es

pub find_event-IsValid :
    (id : ℕ) (es : List Event) (v : Event) → AllValid es → find_event id es ≡ some v → IsValid v
unfolding find_event
find_event-IsValid id (w ∷ es) v h f = elim (Bool-cases (w.id == id)) [
  | inl hit ↦ let same : w ≡ v = ground arith in subst (λ e. IsValid e) same h.0
  | inr miss ↦ find_event-IsValid id es v h.1 (ground arith)
]
find_event-IsValid id [] v h f = cc

pub replace_event-AllValid :
    (id : ℕ) (v : Event) (es : List Event)
    → IsValid v
    → AllValid es
    → AllValid (replace_event id v es)
unfolding replace_event
replace_event-AllValid id v [] valid h = tt
replace_event-AllValid id v (w ∷ es) valid h = elim (Bool-cases (w.id == id)) [
  | inl hit ↦ rw hit (valid, h.1)
  | inr miss ↦ rw miss (h.0, replace_event-AllValid id v es valid h.1)
]

-- The locks of `ems_reserve` are taken, and the lock of the list is given back.
abbrev pub locks : Calls → Bool
locks calls = calls.rwlock_lock == 0 && calls.rwlock_unlock == 0 && calls.mutex_lock == 0

unfoldable pub reserved : ℕ → List Event → Reservation → ℕ × List Event
reserved id es refused = (1, es)
reserved id es (granted v) = (0, replace_event id v es)
reserved id es corrupted = (1, es)

unfoldable pub reserve_in : ℕ → List Seat → List Event → Option Event → ℕ × List Event
unfolding reserved
reserve_in id seats es none = (1, es)
reserve_in id seats es (some v) = reserved id es (reserve_event v seats)

-- The first event with the id takes the request; where there is none, where it refuses, or where a
-- lock fails, the code is 1 and nothing changes.
unfoldable pub reserve_spec : Calls → ℕ → List Seat → List Event → ℕ × List Event
unfolding reserve_in
reserve_spec calls id seats es =
    if locks calls then reserve_in id seats es (find_event id es) else (1, es)

reserved-le : (id : ℕ) (es : List Event) (r : Reservation) → (reserved id es r).0 ≤ 1
unfolding reserved
reserved-le id es refused = omega arith
reserved-le id es (granted v) = omega arith
reserved-le id es corrupted = omega arith

reserve_in-le :
    (id : ℕ) (seats : List Seat) (es : List Event) (found : Option Event)
    → (reserve_in id seats es found).0 ≤ 1
unfolding reserve_in
reserve_in-le id seats es none = omega arith
reserve_in-le id seats es (some v) = reserved-le id es (reserve_event v seats)

pub reserve_code-le :
    (calls : Calls) (id : ℕ) (seats : List Seat) (es : List Event)
    → (reserve_spec calls id seats es).0 ≤ 1
unfolding reserve_spec
reserve_code-le calls id seats es = elim (Bool-cases (locks calls)) [
  | inl locked ↦ rw locked (reserve_in-le id seats es (find_event id es))
  | inr bad ↦ rw bad (omega arith)
]

module _ (calls : Calls) {s : State} {cells : Cells} (id : ℕ) (seats : List Seat)
    (rep : Represents s cells) (valid : AllValid (events_of cells)) where
  -- The code and the list are those of the specification, and all events are still valid.
  abbrev Outcome : ℕ × List Event → ℕ → State → Type 0
  Outcome out r s' = (r ≡ out.0) × Lists s' out.1 × AllValid out.1

  unchanged : Returns (Outcome (1, events_of cells)) (done 1 s)
  unchanged = returns (refl, record { cells = cells; rep = rep; view = refl }, valid)

  store_lem :
      (a : Ptr) (v : Event)
      → address_of id cells ≡ a
      → a ≢ null
      → IsValid v
      → Returns
          (Outcome (reserved id (events_of cells) (reserve_event v seats)))
          (store_reservation a (reserve_event v seats) s)
  unfolding reserved store_reservation
  store_lem a v here ne ok = elim (reserve_event_lem v seats ok) [
    | inl (eq, busy) ↦ rw eq unchanged
    | inr (v', eq, ready, r) ↦ rw eq (
        returns (
          refl,
          record {
            cells = replace_cell id v' cells;
            rep = Represents-replace id v' a rep here ne;
            view = events_of-replace id v' cells;
          },
          replace_event-AllValid id v' (events_of cells) r.valid valid,
        ))
  ]

  reserve_found_lem :
      (a : Ptr) (found : Option Event)
      → Located s cells a found
      → address_of id cells ≡ a
      → find_event id (events_of cells) ≡ found
      → Returns
          (Outcome (
            if calls.mutex_lock == 0
            then reserve_in id seats (events_of cells) found
            else (1, events_of cells)))
          (reserve_found calls a (λ e. reserve_event e seats) s)
  unfolding reserve_in reserve_found
  reserve_found_lem a found (missing h f) here search =
      rw (h, f)
        (elim (Bool-cases (calls.mutex_lock == 0)) [
          | inl locked ↦ rw locked unchanged
          | inr bad ↦ rw bad unchanged
        ])
  reserve_found_lem a found (located v ne at f i) here search =
      rw (==_ne a null ne, deref-done (λ t. t.events) a s v ne at, f)
        (elim (Bool-cases (calls.mutex_lock == 0)) [
          | inl locked ↦
              rw locked (
                store_lem a v here ne
                  (find_event-IsValid id (events_of cells) v valid (search ∙ f)))
          | inr bad ↦ rw bad unchanged
        ])

-- `ems_reserve` on the list of events, on every branch: the first event with the id takes the
-- request if all its seats are there and free, and the code is 0; in every other case, failures of
-- locks included, the code is 1 and the list is as it was. All events stay valid. It neither faults
-- nor runs out of fuel.
pub ems_reserve_lem :
    (calls : Calls) {s : State} {es : List Event} (fuel id : ℕ) (seats : List Seat)
    → Lists s es
    → AllValid es
    → length es ≤ fuel
    → Returns
        (λ r s'.
          (r ≡ (reserve_spec calls id seats es).0)
          × Lists s' (reserve_spec calls id seats es).1
          × AllValid (reserve_spec calls id seats es).1)
        (ems_reserve calls fuel id seats s)
unfolding ems_reserve reserve_by reserve_spec
ems_reserve_lem calls {s} {es} fuel id seats l valid enough =
    let valid' : AllValid (events_of l.cells) = subst (λ xs. AllValid xs) (sym l.view) valid in
    rw (← l.view, list_not_null l.rep, on_list-done l.rep calls.rwlock_lock)
      (elim (Bool-cases (calls.rwlock_lock == 0)) [
        | inr bad ↦ rw bad (unchanged calls id seats l.rep valid')
        | inl locked ↦
            rw
              (
                locked,
                load_list-done l.rep,
                get_event-done l.rep fuel id
                    (omega (arith, length-events_of l.cells, ap length l.view)),
                on_list-done l.rep calls.rwlock_unlock,
              )
              (elim (Bool-cases (calls.rwlock_unlock == 0)) [
                | inr bad ↦ rw bad (unchanged calls id seats l.rep valid')
                | inl unlocked ↦ rw unlocked (
                    reserve_found_lem calls id seats l.rep valid' (address_of id l.cells)
                      (find_event id (events_of l.cells)) (Content-Located id l.rep.content) refl
                      refl)
              ])
      ])
