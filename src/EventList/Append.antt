-- ===== src/EventList/Append.antt =====
-- `append_to_list` over the memory of a list.
use event_management_server.Base.{
  ◌≡◌, refl, ◌≢◌, true, false, none, some, [], ◌∷◌, ◌++◌, arith, ◌==◌, ==_ne, Bool-cases, inl, inr,
}
use event_management_server.Seats.{Event}
use event_management_server.Memory.{Ptr, null, State, done, update}
use event_management_server.Memory.Returns.{Returns, returns}
use event_management_server.EventList.{append_to_list}
use event_management_server.EventList.Chain.{
  Cells, has_node, has_event, Holds, Chain, last, cons, Content, nil, chain, Represents,
  Chain-ne_null, has_node-tail, tail_Holds, fresh_node, deref-done,
}

has_node-append :
    (a p e : Ptr) (v : Event) (cells : Cells)
    → has_node a cells ≡ false
    → a ≢ p
    → has_node a (cells ++ (p, e, v) ∷ []) ≡ false
has_node-append a p e v [] h ne = ground arith
has_node-append a p e v ((q, e', w) ∷ cells) h ne = ground (arith, has_node-append a p e v cells)

has_event-append :
    (a p e : Ptr) (v : Event) (cells : Cells)
    → has_event a cells ≡ false
    → a ≢ e
    → has_event a (cells ++ (p, e, v) ∷ []) ≡ false
has_event-append a p e v [] h ne = ground arith
has_event-append a p e v ((q, e', w) ∷ cells) h ne = ground (arith, has_event-append a p e v cells)

-- The state after the two writes to nodes: the new node, and the old tail's `next`.
module _ {s s' : State} {tail fresh e : Ptr} {v : Event} (fresh_holds : Holds s' fresh e null v)
    (tail_next : (e' : Ptr)
      → s.nodes tail ≡ some (record { event = e'; next = null })
      → s'.nodes tail ≡ some (record { event = e'; next = fresh }))
    (other_nodes : (a : Ptr) → a ≢ tail → a ≢ fresh → s'.nodes a ≡ s.nodes a)
    (same_events : (a : Ptr) → s'.events a ≡ s.events a) where
  Chain-append :
      {p : Ptr} {cells : Cells}
      → Chain s tail p cells
      → has_node fresh cells ≡ false
      → has_event e cells ≡ false
      → Chain s' fresh p (cells ++ (fresh, e, v) ∷ [])
  Chain-append (last {e = e'} h) new new' =
      cons
        (record {
          node_ne_null = h.node_ne_null;
          node = tail_next e' h.node;
          event_ne_null = h.event_ne_null;
          event = ground (arith, same_events e');
        })
        (ground arith) (ground arith) (last fresh_holds)
  Chain-append (cons {p} {e = e'} {cells} h out out' c) new new' =
      cons
        (record {
          node_ne_null = h.node_ne_null;
          node = ground (arith, has_node-tail c, other_nodes p);
          event_ne_null = h.event_ne_null;
          event = ground (arith, same_events e');
        })
        (has_node-append p fresh e v cells out (ground arith))
        (has_event-append e' fresh e v cells out' (ground arith))
        (Chain-append c (ground arith) (ground arith))

-- Given an unused node and an event that no cell has, the list grows by one cell; the events and
-- the variables are as before.
module _ {s : State} (fresh e : Ptr) (v : Event) (ne : fresh ≢ null) (unused : s.nodes fresh ≡ none)
    (ne_list : s.event_list ≢ null) (ne_event : e ≢ null) (at : s.events e ≡ some v) where
  append-Content :
      {h t : Ptr} {cells : Cells}
      → Content s h t cells
      → s.lists s.event_list ≡ some (record { head = h; tail = t })
      → has_event e cells ≡ false
      → Returns
          (λ r s'.
            (r ≡ 0) × Represents s' (cells ++ (fresh, e, v) ∷ []) × (s'.event_list ≡ s.event_list))
          (append_to_list fresh s.event_list e s)
  unfolding append_to_list update
  append-Content nil held new =
      rw
        (
          ==_ne s.event_list null ne_list,
          ==_ne fresh null ne,
          deref-done (λ t. t.lists) s.event_list
              (record s { nodes = update s.nodes fresh (some (record { event = e; next = null })) })
              _ ne_list held,
        )
        (returns (
          refl,
          record {
            list_ne_null = ne_list;
            list = record { head = fresh; tail = fresh };
            held = ground arith;
            content = chain (
                last (record {
                  node_ne_null = ne;
                  node = ground arith;
                  event_ne_null = ne_event;
                  event = at;
                }));
          },
          refl,
        ))
  append-Content (chain {h} {t} {cells} c) held new =
      let s1 : State = record s {
        nodes = update s.nodes fresh (some (record { event = e; next = null }));
      } in
      let (ne_head, ne_tail) = Chain-ne_null c in
      let (e', w, th) = tail_Holds c in
      let apart : t ≢ fresh = λ same. ground (arith, th.node) in
      let at_tail : s1.nodes t ≡ some (record { event = e'; next = null }) =
        ground (arith, th.node) in
      rw
        (
          ==_ne s.event_list null ne_list,
          ==_ne fresh null ne,
          deref-done (λ t. t.lists) s.event_list s1 _ ne_list held,
          ==_ne h null ne_head,
          deref-done (λ t. t.nodes) t s1 _ ne_tail at_tail,
        )
        (returns (
          refl,
          record {
            list_ne_null = ne_list;
            list = record { head = h; tail = fresh };
            held = ground arith;
            content = chain (
                Chain-append
                  (record {
                    node_ne_null = ne;
                    node = ground arith;
                    event_ne_null = ne_event;
                    event = at;
                  })
                  (λ e'' p. ground arith) (λ a p q. ground arith) (λ a. refl) c
                  (fresh_node fresh c unused) new);
          },
          refl,
        ))

pub append_to_list-null :
    (fresh list e : Ptr) (s : State)
    → (fresh == null) ≡ true
    → append_to_list fresh list e s ≡ done 1 s
unfolding append_to_list
append_to_list-null fresh list e s gone = elim (Bool-cases (list == null)) [
  | inl a ↦ rw a
  | inr b ↦ rw (b, gone)
]

pub append_to_list_lem :
    {s : State} {cells : Cells} (fresh e : Ptr) (v : Event)
    → Represents s cells
    → fresh ≢ null
    → s.nodes fresh ≡ none
    → e ≢ null
    → s.events e ≡ some v
    → has_event e cells ≡ false
    → Returns
        (λ r s'.
          (r ≡ 0) × Represents s' (cells ++ (fresh, e, v) ∷ []) × (s'.event_list ≡ s.event_list))
        (append_to_list fresh s.event_list e s)
append_to_list_lem fresh e v rep ne unused ne_event at new =
    append-Content fresh e v ne unused rep.list_ne_null ne_event at rep.content rep.held new
