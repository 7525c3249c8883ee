-- ===== src/EventList/Chain.antt =====
-- What the memory of a list stands for: its cells, in order, at distinct addresses.
use event_management_server.Base.{
  ◌≡◌, ◌≢◌, Bool, true, false, ◌||◌, Option, none, some, List, [], ◌∷◌, arith, ◌==◌,
}
use event_management_server.Seats.{Event}
use event_management_server.Memory.{Ptr, null, EventList, State, done, deref, load_node, load_event}

-- the address of the node, the address of the event and the event
abbrev pub Cell : Type 0
Cell = Ptr × Ptr × Event

abbrev pub Cells : Type 0
Cells = List Cell

abbrev pub has_node : Ptr → Cells → Bool
has_node a [] = false
has_node a ((p, e, v) ∷ cells) = (a == p) || has_node a cells

abbrev pub has_event : Ptr → Cells → Bool
has_event a [] = false
has_event a ((p, e, v) ∷ cells) = (a == e) || has_event a cells

abbrev pub events_of : Cells → List Event
events_of [] = []
events_of ((p, e, v) ∷ cells) = v ∷ events_of cells

-- The node at `p` points at the event `v`, at address `e`, and at the next node `q`.
pub record Holds (s : State) (p e q : Ptr) (v : Event) : Type 0 where
  pub node_ne_null : p ≢ null
  pub node : s.nodes p ≡ some (record { event = e; next = q })
  pub event_ne_null : e ≢ null
  pub event : s.events e ≡ some v

-- From `p` the `next` pointers lead through the cells to `tail`, whose `next` is NULL.
pub data Chain (s : State) (tail : Ptr) : Ptr → Cells → Type 0 where
  last : {e : Ptr} {v : Event} → Holds s tail e null v → Chain s tail tail ((tail, e, v) ∷ [])
  cons :
      {p e q : Ptr} {v : Event} {cells : Cells}
      → Holds s p e q v
      → has_node p cells ≡ false
      → has_event e cells ≡ false
      → Chain s tail q cells
      → Chain s tail p ((p, e, v) ∷ cells)

pub data Content (s : State) : (head tail : Ptr) → Cells → Type 0 where
  nil : Content s null null []
  chain : {h t : Ptr} {cells : Cells} → Chain s t h cells → Content s h t cells

-- The list of the server is there, and its cells are `cells`.
pub record Represents (s : State) (cells : Cells) : Type 0 where
  pub list_ne_null : s.event_list ≢ null
  pub list : EventList
  pub held : s.lists s.event_list ≡ some list
  pub content : Content s list.head list.tail cells

pub deref-done :
    {V : Type 0} (part : State → Ptr → Option V) (p : Ptr) (s : State) (v : V)
    → p ≢ null
    → part s p ≡ some v
    → deref part p s ≡ done v s
unfolding deref
deref-done part p s v ne h = ground arith

module _ {s : State} {p e q : Ptr} {v : Event} (h : Holds s p e q v) where
  pub load_node-done : load_node p s ≡ done (record { event = e; next = q }) s
  load_node-done = deref-done (λ t. t.nodes) p s _ h.node_ne_null h.node

  pub load_event-done : load_event e s ≡ done v s
  load_event-done = deref-done (λ t. t.events) e s _ h.event_ne_null h.event

module _ {s : State} {tail : Ptr} where
  pub Chain-ne_null : {p : Ptr} {cells : Cells} → Chain s tail p cells → (p ≢ null) × (tail ≢ null)
  Chain-ne_null (last h) = (h.node_ne_null, h.node_ne_null)
  Chain-ne_null (cons h out out' c) = (h.node_ne_null, (Chain-ne_null c).1)

  pub has_node-tail : {p : Ptr} {cells : Cells} → Chain s tail p cells → has_node tail cells ≡ true
  has_node-tail (last h) = ground arith
  has_node-tail (cons h out out' c) = ground (arith, has_node-tail c)

  pub tail_Holds :
      {p : Ptr} {cells : Cells}
      → Chain s tail p cells
      → (e : Ptr) × (v : Event) × Holds s tail e null v
  tail_Holds (last {e} {v} h) = (e, v, h)
  tail_Holds (cons h out out' c) = tail_Holds c

  -- A chain survives any change that spares its own addresses.
  pub frame :
      {s' : State} {p : Ptr} {cells : Cells}
      → Chain s tail p cells
      → ((a : Ptr) → has_node a cells ≡ true → s'.nodes a ≡ s.nodes a)
      → ((a : Ptr) → has_event a cells ≡ true → s'.events a ≡ s.events a)
      → Chain s' tail p cells
  frame (last {e} h) n v = last (record {
    node_ne_null = h.node_ne_null;
    node = ground (arith, n tail);
    event_ne_null = h.event_ne_null;
    event = ground (arith, v e);
  })
  frame (cons {p} {e} h out out' c) n v =
      cons
        (record {
          node_ne_null = h.node_ne_null;
          node = ground (arith, n p);
          event_ne_null = h.event_ne_null;
          event = ground (arith, v e);
        })
        out out' (frame c (λ a i. n a (ground arith)) (λ a i. v a (ground arith)))

  -- An address that is not allocated is none of the chain's.
  pub fresh_node :
      {p : Ptr} {cells : Cells} (a : Ptr)
      → Chain s tail p cells
      → s.nodes a ≡ none
      → has_node a cells ≡ false
  fresh_node a (last h) unused = ground arith
  fresh_node a (cons h out out' c) unused = ground (arith, fresh_node a c unused)

  pub fresh_event :
      {p : Ptr} {cells : Cells} (a : Ptr)
      → Chain s tail p cells
      → s.events a ≡ none
      → has_event a cells ≡ false
  fresh_event a (last h) unused = ground arith
  fresh_event a (cons h out out' c) unused = ground (arith, fresh_event a c unused)
