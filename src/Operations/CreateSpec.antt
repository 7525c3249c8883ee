-- ===== src/Operations/CreateSpec.antt =====
-- What `ems_create` promises on the list of events.
use event_management_server.Base.{
  ℕ, ◌≤◌, ◌≡◌, Bool, not, ◌&&◌, Option, none, some, List, [], ◌∷◌, ◌++◌, arith, ◌==◌, if◌then◌else◌,
  Bool-cases, inl, inr,
}
use event_management_server.Seats.{Event, new_event}
use event_management_server.Memory.{null, State}
use event_management_server.EventList.Lookup.{find_event}
use event_management_server.Operations.{Calls}

-- The allocations of `ems_create` succeed.
abbrev pub allocates : Calls → Bool
allocates calls =
    not (calls.malloc_event == null)
    && calls.mutex_init == 0
    && calls.calloc
    && not (calls.malloc_node == null)

-- `malloc` returns addresses that are not in use.
pub record Fresh (calls : Calls) (s : State) : Type 0 where
  pub event : s.events calls.malloc_event ≡ none
  pub node : s.nodes calls.malloc_node ≡ none

-- A new id is added at the end with all its seats free; where the id is there, or a call fails, the
-- code is 1 and nothing changes.
unfoldable pub create_found :
    Calls → (id rows cols : ℕ) → List Event → Option Event → ℕ × List Event
create_found calls id rows cols es none =
    if calls.rwlock_lock == 0 && allocates calls
    then (0, es ++ new_event id rows cols ∷ [])
    else (1, es)
create_found calls id rows cols es (some e) = (1, es)

unfoldable pub create_spec : Calls → (id rows cols : ℕ) → List Event → ℕ × List Event
unfolding create_found
create_spec calls id rows cols es = create_found calls id rows cols es (find_event id es)

create_found-le :
    (calls : Calls) (id rows cols : ℕ) (es : List Event) (found : Option Event)
    → (create_found calls id rows cols es found).0 ≤ 1
unfolding create_found
create_found-le calls id rows cols es none =
    elim (Bool-cases (calls.rwlock_lock == 0 && allocates calls)) [
      | inl all_good ↦ rw all_good (omega arith)
      | inr bad ↦ rw bad (omega arith)
    ]
create_found-le calls id rows cols es (some e) = omega arith

pub create_code-le :
    (calls : Calls) (id rows cols : ℕ) (es : List Event) → (create_spec calls id rows cols es).0 ≤ 1
unfolding create_spec
create_code-le calls id rows cols es = create_found-le calls id rows cols es (find_event id es)
