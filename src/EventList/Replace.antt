-- ===== src/EventList/Replace.antt =====
-- Writes to one event of the list, and replacement in the list that the memory stands for.
use event_management_server.Base.{
  ℕ, ◌≡◌, refl, sym, ◌∙◌, ◌≢◌, true, Option, some, List, [], ◌∷◌, arith, ◌==◌, if◌then◌else◌,
  Bool-cases, inl, inr,
}
use event_management_server.Seats.{Event}
use event_management_server.Memory.{Ptr, null, State, update}
use event_management_server.EventList.Chain.{
  Cells, has_node, has_event, events_of, Chain, last, cons, Content, nil, chain, Represents, frame,
}
use event_management_server.EventList.Lookup.{
  address_of, Located, missing, located, address_of-Located,
}

-- The first event with the id becomes `v`.
unfoldable pub replace_event : ℕ → Event → List Event → List Event
replace_event id v [] = []
replace_event id v (w ∷ es) = if w.id == id then v ∷ es else w ∷ replace_event id v es

unfoldable pub replace_cell : ℕ → Event → Cells → Cells
replace_cell id v [] = []
replace_cell id v ((p, e, w) ∷ cells) =
    if w.id == id then (p, e, v) ∷ cells else (p, e, w) ∷ replace_cell id v cells

module _ (id : ℕ) (v : Event) where
  pub events_of-replace :
      (cells : Cells) → events_of (replace_cell id v cells) ≡ replace_event id v (events_of cells)
  unfolding replace_cell replace_event
  events_of-replace [] = refl
  events_of-replace ((p, e, w) ∷ cells) = ground (arith, events_of-replace cells)

  has_node-replace :
      (a : Ptr) (cells : Cells) → has_node a (replace_cell id v cells) ≡ has_node a cells
  unfolding replace_cell
  has_node-replace a [] = refl
  has_node-replace a ((p, e, w) ∷ cells) = ground (arith, has_node-replace a cells)

  has_event-replace :
      (a : Ptr) (cells : Cells) → has_event a (replace_cell id v cells) ≡ has_event a cells
  unfolding replace_cell
  has_event-replace a [] = refl
  has_event-replace a ((p, e, w) ∷ cells) = ground (arith, has_event-replace a cells)

has_event_of_Located :
    {s : State} {cells : Cells} {a : Ptr} {found : Option Event}
    → Located s cells a found
    → a ≢ null
    → has_event a cells ≡ true
has_event_of_Located (missing h f) ne = absurd (ne h)
has_event_of_Located (located w ne' at f i) ne = i

abbrev written : State → Ptr → Event → State
written s a v = record s { events = update s.events a (some v) }

module _ {s : State} {tail : Ptr} (id : ℕ) (v : Event) where
  Chain-replace :
      {p : Ptr} {cells : Cells} (a : Ptr)
      → Chain s tail p cells
      → address_of id cells ≡ a
      → a ≢ null
      → Chain (written s a v) tail p (replace_cell id v cells)
  unfolding address_of replace_cell update
  Chain-replace a (last {e} {v = w} h) here ne = elim (Bool-cases (w.id == id)) [
    | inl hit ↦ rw hit (
        last (record {
          node_ne_null = h.node_ne_null;
          node = h.node;
          event_ne_null = h.event_ne_null;
          event = ground arith;
        }))
    | inr miss ↦ absurd (ne (ground arith))
  ]
  Chain-replace a (cons {p} {e} {q} {v = w} {cells} h out out' c) here ne =
      elim (Bool-cases (w.id == id)) [
        | inl hit ↦
            let same : e ≡ a = ground arith in
            rw hit (
              cons
                (record {
                  node_ne_null = h.node_ne_null;
                  node = h.node;
                  event_ne_null = h.event_ne_null;
                  event = ground arith;
                })
                out out' (frame c (λ b i. refl) (λ b i. ground arith)))
        | inr miss ↦
            let later : address_of id cells ≡ a = sym (rw miss refl) ∙ here in
            let mine : has_event (address_of id cells) cells ≡ true =
              has_event_of_Located (address_of-Located id c) (λ z. ne (sym later ∙ z)) in
            rw miss (
              cons
                (record {
                  node_ne_null = h.node_ne_null;
                  node = h.node;
                  event_ne_null = h.event_ne_null;
                  event = ground arith;
                })
                (has_node-replace id v p cells ∙ out) (has_event-replace id v e cells ∙ out')
                (Chain-replace a c later ne))
      ]

Content-replace :
    {s : State} (id : ℕ) (v : Event) {h t : Ptr} {cells : Cells} (a : Ptr)
    → Content s h t cells
    → address_of id cells ≡ a
    → a ≢ null
    → Content (written s a v) h t (replace_cell id v cells)
unfolding address_of
Content-replace id v a nil here ne = absurd (ne (sym here))
Content-replace id v a (chain c) here ne = chain (Chain-replace id v a c here ne)

-- Writing `v` at the address of the first event with the id makes `v` that event of the list.
pub Represents-replace :
    {s : State} {cells : Cells} (id : ℕ) (v : Event) (a : Ptr)
    → Represents s cells
    → address_of id cells ≡ a
    → a ≢ null
    → Represents (record s { events = update s.events a (some v) }) (replace_cell id v cells)
Represents-replace id v a rep here ne = record {
  list_ne_null = rep.list_ne_null;
  list = rep.list;
  held = rep.held;
  content = Content-replace id v a rep.content here ne;
}
