-- ===== src/Operations/Types.antt =====
-- `ems_create` and `ems_reserve` of src/server/operations.c, and the types of an event's fields.
use event_management_server.Base.{
  ℕ, ◌*◌, ◌%◌, ◌<◌, ◌≡◌, refl, length-replicate, Option, none, some, List, [], ◌∷◌, ◌++◌, ◌&&◌,
  arith, ◌==◌, Bool-cases, inl, inr, subst, size_mod, uint_mod,
}
use event_management_server.Seats.{
  Event, Seat, Reservation, refused, granted, corrupted, reserve_event, new_event,
}
use event_management_server.Seats.Types.{
  HasTypes, AllTypes, new_event-HasTypes, reserve_event-HasTypes,
}
use event_management_server.Seats.Reserve.{reserve_event_lem}
use event_management_server.Seats.Index.{IsValid}
use event_management_server.EventList.Lookup.{find_event}
use event_management_server.EventList.Replace.{replace_event}
use event_management_server.Operations.{Calls}
use event_management_server.Operations.CreateSpec.{allocates, create_found, create_spec}
use event_management_server.Operations.Reserve.{
  AllValid, find_event-IsValid, replace_event-AllValid, locks, reserved, reserve_in, reserve_spec,
}

pub find_event-HasTypes :
    (id : ℕ) (es : List Event) (v : Event) → AllTypes es → find_event id es ≡ some v → HasTypes v
unfolding find_event
find_event-HasTypes id (w ∷ es) v h f = elim (Bool-cases (w.id == id)) [
  | inl hit ↦ let same : w ≡ v = ground arith in subst (λ e. HasTypes e) same h.0
  | inr miss ↦ find_event-HasTypes id es v h.1 (ground arith)
]
find_event-HasTypes id [] v h f = cc

replace_event-AllTypes :
    (id : ℕ) (v : Event) (es : List Event)
    → HasTypes v
    → AllTypes es
    → AllTypes (replace_event id v es)
unfolding replace_event
replace_event-AllTypes id v [] t h = tt
replace_event-AllTypes id v (w ∷ es) t h = elim (Bool-cases (w.id == id)) [
  | inl hit ↦ rw hit (t, h.1)
  | inr miss ↦ rw miss (h.0, replace_event-AllTypes id v es t h.1)
]

reserved-AllTypes :
    (id : ℕ) (es : List Event) (v : Event) (seats : List Seat) (r : Reservation)
    → HasTypes v
    → reserve_event v seats ≡ r
    → AllTypes es
    → AllTypes (reserved id es r).1
unfolding reserved
reserved-AllTypes id es v seats refused t e h = h
reserved-AllTypes id es v seats (granted v') t e h =
    replace_event-AllTypes id v' es (reserve_event-HasTypes v v' seats t e) h
reserved-AllTypes id es v seats corrupted t e h = h

reserve_in-AllTypes :
    (id : ℕ) (seats : List Seat) (es : List Event) (found : Option Event)
    → find_event id es ≡ found
    → AllTypes es
    → AllTypes (reserve_in id seats es found).1
unfolding reserve_in
reserve_in-AllTypes id seats es none e h = h
reserve_in-AllTypes id seats es (some v) e h =
    reserved-AllTypes id es v seats (reserve_event v seats) (find_event-HasTypes id es v h e) refl h

-- A reservation leaves the fields of all events within their types.
pub reserve_spec-AllTypes :
    (calls : Calls) (id : ℕ) (seats : List Seat) (es : List Event)
    → AllTypes es
    → AllTypes (reserve_spec calls id seats es).1
unfolding reserve_spec
reserve_spec-AllTypes calls id seats es h = elim (Bool-cases (locks calls)) [
  | inl locked ↦ rw locked (reserve_in-AllTypes id seats es (find_event id es) refl h)
  | inr bad ↦ rw bad h
]

append-AllTypes : (es : List Event) (e : Event) → AllTypes es → HasTypes e → AllTypes (es ++ e ∷ [])
append-AllTypes [] e h t = (t, tt)
append-AllTypes (w ∷ es) e h t = (h.0, append-AllTypes es e h.1 t)

append-AllValid : (es : List Event) (e : Event) → AllValid es → IsValid e → AllValid (es ++ e ∷ [])
append-AllValid [] e h t = (t, tt)
append-AllValid (w ∷ es) e h t = (h.0, append-AllValid es e h.1 t)

create_found-AllTypes :
    (calls : Calls) (id rows cols : ℕ) (es : List Event) (found : Option Event)
    → id < uint_mod
    → rows < size_mod
    → cols < size_mod
    → AllTypes es
    → AllTypes (create_found calls id rows cols es found).1
unfolding create_found
create_found-AllTypes calls id rows cols es none a b c h =
    elim (Bool-cases (calls.rwlock_lock == 0 && allocates calls)) [
      | inl done ↦
          rw done
            (append-AllTypes es (new_event id rows cols) h (new_event-HasTypes id rows cols a b c))
      | inr bad ↦ rw bad h
    ]
create_found-AllTypes calls id rows cols es (some e) a b c h = h

-- A creation leaves the fields of all events within their types.
pub create_spec-AllTypes :
    (calls : Calls) (id rows cols : ℕ) (es : List Event)
    → id < uint_mod
    → rows < size_mod
    → cols < size_mod
    → AllTypes es
    → AllTypes (create_spec calls id rows cols es).1
unfolding create_spec
create_spec-AllTypes calls id rows cols es a b c h =
    create_found-AllTypes calls id rows cols es (find_event id es) a b c h

new_event-IsValid : (id rows cols : ℕ) → rows * cols < size_mod → IsValid (new_event id rows cols)
unfolding new_event
new_event-IsValid id rows cols fits = record {
  size = omega (arith, length-replicate {A = ℕ} ((rows * cols) % size_mod) 0);
  fits = fits;
}

create_found-AllValid :
    (calls : Calls) (id rows cols : ℕ) (es : List Event) (found : Option Event)
    → rows * cols < size_mod
    → AllValid es
    → AllValid (create_found calls id rows cols es found).1
unfolding create_found
create_found-AllValid calls id rows cols es none fits h =
    elim (Bool-cases (calls.rwlock_lock == 0 && allocates calls)) [
      | inl done ↦
          rw done
            (append-AllValid es (new_event id rows cols) h (new_event-IsValid id rows cols fits))
      | inr bad ↦ rw bad h
    ]
create_found-AllValid calls id rows cols es (some e) fits h = h

-- A creation whose number of seats does not overflow leaves all events valid.
pub create_spec-AllValid :
    (calls : Calls) (id rows cols : ℕ) (es : List Event)
    → rows * cols < size_mod
    → AllValid es
    → AllValid (create_spec calls id rows cols es).1
unfolding create_spec
create_spec-AllValid calls id rows cols es fits h =
    create_found-AllValid calls id rows cols es (find_event id es) fits h

reserved-AllValid :
    (id : ℕ) (es : List Event) (v : Event) (seats : List Seat)
    → IsValid v
    → AllValid es
    → AllValid (reserved id es (reserve_event v seats)).1
unfolding reserved
reserved-AllValid id es v seats ok h = elim (reserve_event_lem v seats ok) [
  | inl (eq, busy) ↦ rw eq h
  | inr (v', eq, ready, r) ↦ rw eq (replace_event-AllValid id v' es r.valid h)
]

reserve_in-AllValid :
    (id : ℕ) (seats : List Seat) (es : List Event) (found : Option Event)
    → find_event id es ≡ found
    → AllValid es
    → AllValid (reserve_in id seats es found).1
unfolding reserve_in
reserve_in-AllValid id seats es none e h = h
reserve_in-AllValid id seats es (some v) e h =
    reserved-AllValid id es v seats (find_event-IsValid id es v h e) h

-- A reservation leaves all events valid.
pub reserve_spec-AllValid :
    (calls : Calls) (id : ℕ) (seats : List Seat) (es : List Event)
    → AllValid es
    → AllValid (reserve_spec calls id seats es).1
unfolding reserve_spec
reserve_spec-AllValid calls id seats es h = elim (Bool-cases (locks calls)) [
  | inl locked ↦ rw locked (reserve_in-AllValid id seats es (find_event id es) refl h)
  | inr bad ↦ rw bad h
]
