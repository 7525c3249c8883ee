-- ===== src/Operations/Lengths.antt =====
-- How many events the operations leave.
use event_management_server.Base.{
  ℕ, suc, ◌+◌, ◌≤◌, ◌≡◌, refl, ap, ◌&&◌, Option, none, some, List, [], ◌∷◌, arith, length,
  length-append, ◌==◌, Bool-cases, inl, inr,
}
use event_management_server.Seats.{
  Event, Seat, Reservation, refused, granted, corrupted, reserve_event, new_event,
}
use event_management_server.EventList.Lookup.{find_event}
use event_management_server.EventList.Replace.{replace_event}
use event_management_server.Operations.{Calls}
use event_management_server.Operations.CreateSpec.{allocates, create_found, create_spec}
use event_management_server.Operations.Reserve.{locks, reserved, reserve_in, reserve_spec}

pub length-replace_event :
    (id : ℕ) (v : Event) (es : List Event) → length (replace_event id v es) ≡ length es
unfolding replace_event
length-replace_event id v [] = refl
length-replace_event id v (w ∷ es) = elim (Bool-cases (w.id == id)) [
  | inl hit ↦ rw hit refl
  | inr miss ↦ rw miss (ap suc (length-replace_event id v es))
]

length-reserved :
    (id : ℕ) (es : List Event) (r : Reservation) → length (reserved id es r).1 ≡ length es
unfolding reserved
length-reserved id es refused = refl
length-reserved id es (granted v) = length-replace_event id v es
length-reserved id es corrupted = refl

length-reserve_in :
    (id : ℕ) (seats : List Seat) (es : List Event) (found : Option Event)
    → length (reserve_in id seats es found).1 ≡ length es
unfolding reserve_in
length-reserve_in id seats es none = refl
length-reserve_in id seats es (some v) = length-reserved id es (reserve_event v seats)

pub length-reserve_spec :
    (calls : Calls) (id : ℕ) (seats : List Seat) (es : List Event)
    → length (reserve_spec calls id seats es).1 ≡ length es
unfolding reserve_spec
length-reserve_spec calls id seats es = elim (Bool-cases (locks calls)) [
  | inl locked ↦ rw locked (length-reserve_in id seats es (find_event id es))
  | inr bad ↦ rw bad refl
]

length-create_found :
    (calls : Calls) (id rows cols : ℕ) (es : List Event) (found : Option Event)
    → length (create_found calls id rows cols es found).1 ≤ length es + 1
unfolding create_found
length-create_found calls id rows cols es none =
    elim (Bool-cases (calls.rwlock_lock == 0 && allocates calls)) [
      | inl done ↦ rw done (omega (arith, length-append es (new_event id rows cols ∷ [])))
      | inr bad ↦ rw bad (omega arith)
    ]
length-create_found calls id rows cols es (some e) = omega arith

pub length-create_spec :
    (calls : Calls) (id rows cols : ℕ) (es : List Event)
    → length (create_spec calls id rows cols es).1 ≤ length es + 1
unfolding create_spec
length-create_spec calls id rows cols es =
    length-create_found calls id rows cols es (find_event id es)
