-- ===== src/Memory.antt =====
-- The server's memory: the structs of src/server/eventlist.h at their addresses, the variables of
-- src/server/operations.c, and programs that read and write them. An `Event` holds its array by value:
-- only its own event points at it.
pub mod Returns
pub mod Keeps
pub mod Ensures
pub mod Ended
use event_management_server.Base.{ℕ, Option, none, some, ◌==◌, if◌then◌else◌}
use event_management_server.Seats.{Event}

abbrev pub Ptr : Type 0
Ptr = ℕ

abbrev pub null : Ptr
null = 0

pub record ListNode : Type 0 where
  pub event : Ptr
  pub next : Ptr

-- The lock `rwl` has no state here: each operation runs its critical sections whole.
pub record EventList : Type 0 where
  pub head : Ptr
  pub tail : Ptr

-- `event_list` and `state_access_delay_us` are the variables; each of the others is the part of
-- the heap that holds one type of struct, `none` at an address that is not allocated.
pub record State : Type 0 where
  pub event_list : Ptr
  pub state_access_delay_us : ℕ
  pub lists : Ptr → Option EventList
  pub nodes : Ptr → Option ListNode
  pub events : Ptr → Option Event

pub data Run (A : Type 0) : Type 0 where
  done : A → State → Run A
  fault : Run A
  out_of_fuel : Run A

abbrev pub Cmd : Type 0 → Type 0
Cmd A = State → Run A

abbrev pub pure : {A : Type 0} → A → Cmd A
pure = done

module _ {A B : Type 0} where
  abbrev pub and_then : Run A → (A → Cmd B) → Run B
  and_then (done a s) k = k a s
  and_then fault k = fault
  and_then out_of_fuel k = out_of_fuel

  infixl 5 ◌>>=◌ ◌>>◌
  abbrev pub ◌>>=◌ : Cmd A → (A → Cmd B) → Cmd B
  m >>= k = λ s. and_then (m s) k

  abbrev pub ◌>>◌ : Cmd A → Cmd B → Cmd B
  m >> n = m >>= λ _. n

-- a write to one address
unfoldable pub update : {V : Type 0} → (Ptr → Option V) → Ptr → Option V → Ptr → Option V
update f p v q = if q == p then v else f q

-- a dereference: a fault at NULL and at an address that holds no such struct
unfoldable pub deref : {V : Type 0} → (State → Ptr → Option V) → Ptr → Cmd V
deref part p s = if p == null then fault else elim (part s p) [ none ↦ fault | some v ↦ done v s ]

abbrev pub load_list : Ptr → Cmd EventList
load_list = deref (λ s. s.lists)

abbrev pub load_node : Ptr → Cmd ListNode
load_node = deref (λ s. s.nodes)

abbrev pub load_event : Ptr → Cmd Event
load_event = deref (λ s. s.events)

-- raw writes: `some v` fills the address, `none` gives it back
abbrev pub store_list : Ptr → Option EventList → Cmd Unit
store_list p v s = done tt (record s { lists = update s.lists p v })

abbrev pub store_node : Ptr → Option ListNode → Cmd Unit
store_node p v s = done tt (record s { nodes = update s.nodes p v })

abbrev pub store_event : Ptr → Option Event → Cmd Unit
store_event p v s = done tt (record s { events = update s.events p v })

abbrev pub gets : {A : Type 0} → (State → A) → Cmd A
gets f s = done (f s) s
