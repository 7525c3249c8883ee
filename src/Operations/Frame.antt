-- ===== src/Operations/Frame.antt =====
-- `ems_create` and `ems_reserve` of src/server/operations.c, and the addresses that are unused.
use event_management_server.Base.{
  ℕ, ◌≡◌, ◌≢◌, none, some, List, ◌==◌, ==_iff, Bool-cases, inl, inr, arith,
}
use event_management_server.Seats.{
  Event, Seat, Reservation, refused, granted, corrupted, reserve_event,
}
use event_management_server.Memory.{
  Ptr, null, ListNode, EventList, State, Cmd, pure, ◌>>=◌, ◌>>◌, update, deref, load_node,
  load_event, store_event, store_node, store_list,
}
use event_management_server.Memory.Keeps.{Keeps, Keeps-if, Keeps-bind, Keeps-deref, keeps_rules}
use event_management_server.EventList.{append_to_list}
use event_management_server.Operations.{
  Calls, append_new, create_event, ems_create, store_reservation, reserve_found, reserve_by,
  overrun_section, ems_reserve, ems_reserve_overrun,
}
use event_management_server.Operations.AnswerFrame.{get_event-Keeps}
use event_management_server.Operations.CreateSpec.{Fresh}

-- What two calls of `malloc` return: NULL, or different addresses.
abbrev pub Apart : Ptr → Ptr → Type 0
Apart p q = p ≡ q → p ≡ null

-- The two addresses of `later` are not those of `calls`.
pub record Distinct (calls later : Calls) : Type 0 where
  pub event : Apart calls.malloc_event later.malloc_event
  pub node : Apart calls.malloc_node later.malloc_node

module _ (later : Calls) where
  abbrev Unused : State → Type 0
  Unused s = Fresh later s

  store_event-Keeps :
      (p : Ptr) (v : Event) → p ≢ later.malloc_event → Keeps Unused (store_event p (some v))
  unfolding update
  store_event-Keeps p v ne = record {
    holds = λ s u. record { event = ground (arith, u.event); node = u.node };
  }

  clear_event-Keeps : (p : Ptr) → Keeps Unused (store_event p none)
  unfolding update
  clear_event-Keeps p = record {
    holds = λ s u. record { event = ground (arith, u.event); node = u.node };
  }

  store_node-Keeps :
      (p : Ptr) (v : ListNode) → p ≢ later.malloc_node → Keeps Unused (store_node p (some v))
  unfolding update
  store_node-Keeps p v ne = record {
    holds = λ s u. record { event = u.event; node = ground (arith, u.node) };
  }

  store_list-Keeps : (p : Ptr) (v : EventList) → Keeps Unused (store_list p (some v))
  store_list-Keeps p v = record { holds = λ s u. record { event = u.event; node = u.node } }

  -- A read of an unused address is a fault, so that a write to an address that was read is kept.
  node_read-Keeps :
      {A : Type 0} (p : Ptr) (k : ListNode → Cmd A)
      → (p ≢ later.malloc_node → (n : ListNode) → Keeps Unused (k n))
      → Keeps Unused (load_node p >>= k)
  unfolding deref
  node_read-Keeps p k next = elim (Bool-cases (p == later.malloc_node)) [
    | inr other ↦
        Keeps-bind (load_node p) k (Keeps-deref (λ s. s.nodes) p) (next (ground (arith, other)))
    | inl same ↦
        let here : p ≡ later.malloc_node = (==_iff p later.malloc_node).0 same in
        record {
          holds = λ s u. elim (Bool-cases (p == null)) [
            | inl gone ↦ rw gone tt
            | inr there ↦ rw (there, deref, here, u.node) tt
          ];
        }
  ]

  event_read-Keeps :
      {A : Type 0} (p : Ptr) (k : Event → Cmd A)
      → (p ≢ later.malloc_event → (e : Event) → Keeps Unused (k e))
      → Keeps Unused (load_event p >>= k)
  unfolding deref
  event_read-Keeps p k next = elim (Bool-cases (p == later.malloc_event)) [
    | inr other ↦
        Keeps-bind (load_event p) k (Keeps-deref (λ s. s.events) p) (next (ground (arith, other)))
    | inl same ↦
        let here : p ≡ later.malloc_event = (==_iff p later.malloc_event).0 same in
        record {
          holds = λ s u. elim (Bool-cases (p == null)) [
            | inl gone ↦ rw gone tt
            | inr there ↦ rw (there, deref, here, u.event) tt
          ];
        }
  ]

  linked-Keeps :
      (tail fresh : Ptr) (rest : Cmd ℕ)
      → Keeps Unused rest
      → Keeps Unused
          (load_node tail >>= λ t. store_node tail (some (record t { next = fresh })) >> rest)
  linked-Keeps tail fresh rest kept =
      node_read-Keeps tail (λ t. store_node tail (some (record t { next = fresh })) >> rest)
        λ other t.
          Keeps-bind (store_node tail (some (record t { next = fresh }))) (λ _. rest)
            (store_node-Keeps tail (record t { next = fresh }) other) λ _. kept

  append_there-Keeps :
      (fresh list event : Ptr)
      → fresh ≢ later.malloc_node
      → Keeps Unused (append_to_list fresh list event)
  unfolding append_to_list
  append_there-Keeps fresh list event other =
      search (keeps_rules, store_node-Keeps, store_list-Keeps, linked-Keeps, other) depth 14

  append_to_list-Keeps :
      (fresh list event : Ptr)
      → Apart fresh later.malloc_node
      → Keeps Unused (append_to_list fresh list event)
  unfolding append_to_list
  append_to_list-Keeps fresh list event apart = elim (Bool-cases (fresh == null)) [
    | inl gone ↦ rw gone (search keeps_rules)
    | inr there ↦ append_there-Keeps fresh list event λ e. ground (arith, apart e)
  ]

  store_reservation-Keeps :
      (event : Ptr) (r : Reservation)
      → event ≢ later.malloc_event
      → Keeps Unused (store_reservation event r)
  unfolding store_reservation
  store_reservation-Keeps event refused other = search keeps_rules
  store_reservation-Keeps event (granted e) other = search (keeps_rules, store_event-Keeps, other)
  store_reservation-Keeps event corrupted other = search keeps_rules

  append_new-Keeps :
      (calls : Calls) (list : Ptr)
      → Apart calls.malloc_node later.malloc_node
      → Keeps Unused (append_new calls list)
  unfolding append_new
  append_new-Keeps calls list apart =
      search (keeps_rules, append_to_list-Keeps, apart, clear_event-Keeps) depth 12

  create_there-Keeps :
      (calls : Calls) (list : Ptr) (id rows cols : ℕ)
      → calls.malloc_event ≢ later.malloc_event
      → Apart calls.malloc_node later.malloc_node
      → Keeps Unused (create_event calls list id rows cols)
  unfolding create_event
  create_there-Keeps calls list id rows cols other apart =
      search (keeps_rules, store_event-Keeps, other, append_new-Keeps, apart, clear_event-Keeps)
        depth 14

  create_event-Keeps :
      (calls : Calls) (list : Ptr) (id rows cols : ℕ)
      → Distinct calls later
      → Keeps Unused (create_event calls list id rows cols)
  unfolding create_event
  create_event-Keeps calls list id rows cols d = elim (Bool-cases (calls.malloc_event == null)) [
    | inl gone ↦ rw gone (search keeps_rules depth 8)
    | inr there ↦ create_there-Keeps calls list id rows cols (λ e. ground (arith, d.event e)) d.node
  ]

  -- `ems_create` takes no address but those that its own `malloc` returns.
  pub ems_create-Keeps :
      (calls : Calls) (fuel id rows cols : ℕ)
      → Distinct calls later
      → Keeps Unused (ems_create calls fuel id rows cols)
  unfolding ems_create
  ems_create-Keeps calls fuel id rows cols d =
      search (keeps_rules, get_event-Keeps, create_event-Keeps, d) depth 14

  reserve_found-Keeps :
      (calls : Calls) (event : Ptr) (section : Event → Reservation)
      → Keeps Unused (reserve_found calls event section)
  unfolding reserve_found
  reserve_found-Keeps calls event section =
      Keeps-if (event == null) (pure 1) _ (search keeps_rules)
        (event_read-Keeps event _ λ other e. search (keeps_rules, store_reservation-Keeps, other))

  reserve_by-Keeps :
      (calls : Calls) (fuel id : ℕ) (section : Event → Reservation)
      → Keeps Unused (reserve_by calls fuel id section)
  unfolding reserve_by
  reserve_by-Keeps calls fuel id section =
      search (keeps_rules, get_event-Keeps, reserve_found-Keeps) depth 14

  -- `ems_reserve` takes none at all.
  pub ems_reserve-Keeps :
      (calls : Calls) (fuel id : ℕ) (seats : List Seat)
      → Keeps Unused (ems_reserve calls fuel id seats)
  unfolding ems_reserve
  ems_reserve-Keeps calls fuel id seats =
      reserve_by-Keeps calls fuel id (λ e. reserve_event e seats)

  pub ems_reserve_overrun-Keeps :
      (calls : Calls) (fuel id : ℕ) (seats : List Seat)
      → Keeps Unused (ems_reserve_overrun calls fuel id seats)
  unfolding ems_reserve_overrun
  ems_reserve_overrun-Keeps calls fuel id seats =
      reserve_by-Keeps calls fuel id (overrun_section seats)
