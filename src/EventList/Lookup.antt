-- ===== src/EventList/Lookup.antt =====
-- `get_event`: its loop over the cells of a list.
use event_management_server.Base.{
  ℕ, zero, suc, ◌≤◌, ◌≡◌, refl, ◌≢◌, true, Option, none, some, List, [], ◌∷◌, arith, ◌==◌,
  if◌then◌else◌, length, Bool-cases, inl, inr, ==_ne, ==_refl,
}
use event_management_server.Seats.{Event}
use event_management_server.Memory.{Ptr, null, EventList, State, done}
use event_management_server.EventList.{search_nodes, get_event}
use event_management_server.EventList.Chain.{
  Cells, has_event, events_of, Chain, last, cons, Content, nil, chain, load_node-done,
  load_event-done, Chain-ne_null, has_node-tail,
}

-- The address of the first event with the id, NULL if there is none.
unfoldable pub address_of : ℕ → Cells → Ptr
address_of id [] = null
address_of id ((p, e, v) ∷ cells) = if v.id == id then e else address_of id cells

-- The first event with the id.
unfoldable pub find_event : ℕ → List Event → Option Event
find_event id [] = none
find_event id (v ∷ es) = if v.id == id then some v else find_event id es

module _ {s : State} {tail : Ptr} (id : ℕ) where
  search_nodes_lem :
      {p : Ptr} {cells : Cells} (fuel : ℕ)
      → Chain s tail p cells
      → length cells ≤ fuel
      → search_nodes fuel id p tail s ≡ done (address_of id cells) s
  unfolding search_nodes address_of
  search_nodes_lem zero (last h) enough = absurd (omega arith)
  search_nodes_lem zero (cons h out out' c) enough = absurd (omega arith)
  search_nodes_lem (suc fuel) (last {v} h) enough =
      rw (load_node-done h, load_event-done h, ==_refl tail)
        (elim (Bool-cases (v.id == id)) [ inl hit ↦ rw hit | inr miss ↦ rw miss ])
  search_nodes_lem (suc fuel) (cons {p} {v} h out out' c) enough =
      let apart : p ≢ tail = ground (arith, has_node-tail c) in
      rw (load_node-done h, load_event-done h, ==_ne p tail apart)
        (elim (Bool-cases (v.id == id)) [
          | inl hit ↦ rw hit
          | inr miss ↦ rw miss (search_nodes_lem fuel c (omega arith))
        ])

-- The address `a` is NULL where the search found nothing, and else that of the event it found.
pub data Located (s : State) (cells : Cells) (a : Ptr) (found : Option Event) : Type 0 where
  missing : a ≡ null → found ≡ none → Located s cells a found
  located :
      (v : Event)
      → a ≢ null
      → s.events a ≡ some v
      → found ≡ some v
      → has_event a cells ≡ true
      → Located s cells a found

Located-cons :
    {s : State} {cells : Cells} {a : Ptr} {found : Option Event} (p e : Ptr) (v : Event)
    → Located s cells a found
    → Located s ((p, e, v) ∷ cells) a found
Located-cons p e v (missing h f) = missing h f
Located-cons p e v (located w ne at f i) = located w ne at f (ground arith)

module _ {s : State} {tail : Ptr} (id : ℕ) where
  pub address_of-Located :
      {p : Ptr} {cells : Cells}
      → Chain s tail p cells
      → Located s cells (address_of id cells) (find_event id (events_of cells))
  unfolding address_of find_event
  address_of-Located (last {v} h) = elim (Bool-cases (v.id == id)) [
    | inl hit ↦ rw hit (located v h.event_ne_null h.event refl (ground arith))
    | inr miss ↦ rw miss (missing refl refl)
  ]
  address_of-Located (cons {p} {e} {v} {cells} h out out' c) = elim (Bool-cases (v.id == id)) [
    | inl hit ↦ rw hit (located v h.event_ne_null h.event refl (ground arith))
    | inr miss ↦ rw miss (Located-cons p e v (address_of-Located c))
  ]

pub Content-Located :
    {s : State} (id : ℕ) {h t : Ptr} {cells : Cells}
    → Content s h t cells
    → Located s cells (address_of id cells) (find_event id (events_of cells))
unfolding address_of find_event
Content-Located id nil = missing refl refl
Content-Located id (chain c) = address_of-Located id c

-- `get_event` over the server's list: the state is left as it is, and one round for each event is
-- enough fuel.
pub get_event_lem :
    {s : State} {cells : Cells} (fuel id : ℕ) (l : EventList)
    → s.event_list ≢ null
    → Content s l.head l.tail cells
    → length cells ≤ fuel
    → get_event fuel s.event_list id l.head l.tail s ≡ done (address_of id cells) s
unfolding get_event address_of
get_event_lem {s} fuel id l ne c enough = at_content c enough
  where
    at_content :
        {h t : Ptr} {cells : Cells}
        → Content s h t cells
        → length cells ≤ fuel
        → get_event fuel s.event_list id h t s ≡ done (address_of id cells) s
    at_content nil enough = rw (==_ne s.event_list null ne)
    at_content (chain {h} {t} c) enough =
        let (ne_head, ne_tail) = Chain-ne_null c in
        rw (==_ne s.event_list null ne, ==_ne h null ne_head, ==_ne t null ne_tail)
          (search_nodes_lem id fuel c enough)
