-- ===== src/EventList.antt =====
-- src/server/eventlist.c over the explicit memory. `malloc` is an argument, the address that it
-- returns; the search loop runs on fuel.
pub mod Chain
pub mod Lookup
pub mod Append
pub mod Replace
pub mod Free
use event_management_server.Base.{
  ℕ, zero, suc, Option, none, some, ◌==◌, if◌then◌else◌, Bool, true, false, ◌||◌,
}
use event_management_server.Seats.{Event}
use event_management_server.Memory.{
  Ptr, null, ListNode, EventList, State, Run, out_of_fuel, Cmd, pure, ◌>>=◌, ◌>>◌, load_list,
  load_node, load_event, store_list, store_node, store_event, gets,
}

-- What `pthread_rwlock_init` returns is the second argument.
unfoldable pub create_list : (fresh : Ptr) (rwlock_init : ℕ) → Cmd Ptr
create_list fresh rwlock_init =
    if fresh == null
    then pure null
    else if rwlock_init == 0
    then (do store_list fresh (some (record { head = null; tail = null })); pure fresh)
    else (do store_list fresh none; pure null)

unfoldable pub append_to_list : (fresh : Ptr) → Ptr → Ptr → Cmd ℕ
append_to_list fresh list event =
    if list == null then pure 1 else if fresh == null then pure 1 else do
      store_node fresh (some (record { event = event; next = null }))
      l ← load_list list
      if l.head == null
          then (do store_list list (some (record { head = fresh; tail = fresh })); pure 0)
          else (do
            t ← load_node l.tail
            store_node l.tail (some (record t { next = fresh }))
            store_list list (some (record l { tail = fresh }))
            pure 0)

-- The struct and its array, which it holds.
free_event : Ptr → Cmd Unit
free_event event = if event == null then pure tt else do load_event event; store_event event none

free_nodes : ℕ → Ptr → Cmd Unit
unfolding free_event
free_nodes zero current = λ _. out_of_fuel
free_nodes (suc fuel) current = if current == null then pure tt else do
  n ← load_node current
  free_event n.event
  store_node current none
  free_nodes fuel n.next

unfoldable pub free_list : ℕ → Ptr → Cmd Unit
unfolding free_nodes
free_list fuel list =
    if list == null
    then pure tt
    else do l ← load_list list; free_nodes fuel l.head; store_list list none

unfoldable pub search_nodes : ℕ → ℕ → (current to : Ptr) → Cmd Ptr
search_nodes zero event_id current to = λ _. out_of_fuel
search_nodes (suc fuel) event_id current to = do
  n ← load_node current
  e ← load_event n.event
  if e.id == event_id
      then pure n.event
      else if current == to
      then pure null
      else search_nodes fuel event_id n.next to

unfoldable pub get_event : ℕ → (list : Ptr) (event_id : ℕ) (from to : Ptr) → Cmd Ptr
unfolding search_nodes
get_event fuel list event_id from to =
    if list == null || from == null || to == null
    then pure null
    else search_nodes fuel event_id from to
