-- ===== src/EventList/Free.antt =====
-- `free_list`, node by node.
use event_management_server.Base.{
  ℕ, zero, suc, ◌<◌, ◌≡◌, refl, none, arith, if◌then◌else◌, length, ==_ne,
}
use event_management_server.Seats.{Event}
use event_management_server.Memory.{Ptr, null, State, update, done}
use event_management_server.Memory.Returns
use event_management_server.Memory.Returns.{Returns, returns}
use event_management_server.EventList.{free_event, free_nodes, free_list}
use event_management_server.EventList.Chain.{
  Cells, has_node, has_event, Holds, Chain, last, cons, Content, nil, chain, Represents, frame,
  load_node-done, load_event-done, deref-done,
}

-- The nodes and the events of the cells are given back.
pub record Freed (s : State) (cells : Cells) (s' : State) : Type 0 where
  pub nodes : (a : Ptr) → s'.nodes a ≡ (if has_node a cells then none else s.nodes a)
  pub events : (a : Ptr) → s'.events a ≡ (if has_event a cells then none else s.events a)
  pub lists : (a : Ptr) → s'.lists a ≡ s.lists a
  pub event_list : s'.event_list ≡ s.event_list

module _ {s : State} {p e q : Ptr} {v : Event} (h : Holds s p e q v) where
  free_event_lem : free_event e s ≡ done tt (record s { events = update s.events e none })
  unfolding free_event
  free_event_lem = rw (==_ne e null h.event_ne_null, load_event-done h)

free_nodes_lem :
    (fuel : ℕ) {s : State} {tail p : Ptr} {cells : Cells}
    → Chain s tail p cells
    → length cells < fuel
    → Returns (λ _ s'. Freed s cells s') (free_nodes fuel p s)
unfolding free_nodes update
free_nodes_lem zero c enough = absurd (omega arith)
free_nodes_lem (suc zero) (last h) enough = absurd (omega arith)
free_nodes_lem (suc zero) (cons h out out' c) enough = absurd (omega arith)
free_nodes_lem (suc (suc fuel)) {tail} (last h) enough =
    rw (==_ne tail null h.node_ne_null, load_node-done h, free_event_lem h)
      (returns (record {
        nodes = λ a. ground arith;
        events = λ a. ground arith;
        lists = λ a. refl;
        event_list = refl;
      }))
free_nodes_lem (suc (suc fuel)) (cons {p} {e} h out out' c) enough =
    rw (==_ne p null h.node_ne_null, load_node-done h, free_event_lem h)
      (Returns.mono
        (free_nodes_lem (suc fuel) (frame c (λ a i. ground arith) (λ a i. ground arith))
          (omega arith))
        λ _ s' f. record {
          nodes = λ a. ground (arith, f.nodes a);
          events = λ a. ground (arith, f.events a);
          lists = f.lists;
          event_list = f.event_list;
        })

free-Content :
    {s : State} {h t : Ptr} {cells : Cells} (fuel : ℕ)
    → Content s h t cells
    → length cells < fuel
    → Returns (λ _ s'. Freed s cells s') (free_nodes fuel h s)
unfolding free_nodes
free-Content zero c enough = absurd (omega arith)
free-Content (suc fuel) nil enough =
    returns (record { nodes = λ a. refl; events = λ a. refl; lists = λ a. refl; event_list = refl })
free-Content (suc fuel) (chain c) enough = free_nodes_lem (suc fuel) c enough

-- With one round more than there are events, freeing ends without a fault: the nodes and the
-- events of the list are given back and no others, and the variable keeps the address of the list,
-- where nothing is any more.
pub free_list_lem :
    {s : State} {cells : Cells} (fuel : ℕ)
    → Represents s cells
    → length cells < fuel
    → Returns
        (λ _ s'.
          ((a : Ptr) → s'.nodes a ≡ (if has_node a cells then none else s.nodes a))
          × ((a : Ptr) → s'.events a ≡ (if has_event a cells then none else s.events a))
          × (s'.event_list ≡ s.event_list)
          × (s'.lists s'.event_list ≡ none))
        (free_list fuel s.event_list s)
unfolding free_list update
free_list_lem {s} fuel rep enough =
    rw
      (
        ==_ne s.event_list null rep.list_ne_null,
        deref-done (λ t. t.lists) s.event_list s _ rep.list_ne_null rep.held,
      )
      (Returns.bind (free-Content fuel rep.content enough)
        λ _ s' f. returns (f.nodes, f.events, f.event_list, ground (arith, f.event_list)))
