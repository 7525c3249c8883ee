-- ===== src/Operations/Answer.antt =====
-- `ems_show` and `ems_list_events` of src/server/operations.c, which answer on the client's pipe. The
-- descriptor is passed along with the code.
use event_management_server.Base.{
  ℕ, zero, suc, ◌+◌, ◌%◌, none, some, get_elem?, ◌==◌, if◌then◌else◌, size_mod,
}
use event_management_server.Seats.{Event, seat_count}
use event_management_server.Memory.{
  Ptr, null, fault, out_of_fuel, Cmd, pure, ◌>>=◌, ◌>>◌, load_list, load_node, load_event, gets,
}
use event_management_server.Io.{my_write}
use event_management_server.Io.Descriptor.{Bytes, Sink}
use event_management_server.Wire.{int_size, size_size, encode, failed}
use event_management_server.Operations.{Calls, on_list, get_event_with_delay}

-- An answer of one int; the code is 1 also where writing it fails.
unfoldable pub answer_int : ℕ → Sink → Cmd (ℕ × Sink)
answer_int result sink = pure (1, (my_write (encode int_size result) sink).1)

-- A part of an answer: code 1 at once where writing it fails.
unfoldable pub put : Bytes → (Sink → Cmd (ℕ × Sink)) → Sink → Cmd (ℕ × Sink)
put bs next sink =
    let (code, sink') = my_write bs sink in if failed code then pure (1, sink') else next sink'

-- The loop over the seats, from index `i` on, with `n` rounds left.
unfoldable pub show_seats : Event → ℕ → ℕ → Sink → Cmd (ℕ × Sink)
unfolding put
show_seats event zero i sink = pure (0, sink)
show_seats event (suc n) i sink = elim (get_elem? event.seats i) [
  | none ↦ λ _. fault
  | some seat ↦ put (encode int_size seat) (show_seats event n (i + 1)) sink
]

unfoldable pub show_event : Event → Sink → Cmd (ℕ × Sink)
unfolding put show_seats
show_event event = put (encode int_size 0) (
    put (encode size_size event.rows)
      (put (encode size_size event.cols) (show_seats event (seat_count event) 0)))

unfoldable pub show_found : Calls → Ptr → Sink → Cmd (ℕ × Sink)
unfolding answer_int show_event
show_found calls event sink = if event == null then answer_int 1 sink else do
  e ← load_event event
  if calls.mutex_lock == 0 then show_event e sink else answer_int 1 sink

unfoldable pub ems_show : Calls → ℕ → ℕ → Sink → Cmd (ℕ × Sink)
unfolding answer_int show_found
ems_show calls fuel event_id sink = do
  list ← gets (λ s. s.event_list)
  if list == null then answer_int 1 sink else do
    locked ← on_list list calls.rwlock_lock
    if locked == 0
        then (do
          l ← load_list list
          event ← get_event_with_delay fuel event_id l.head l.tail
          on_list list calls.rwlock_unlock
          show_found calls event sink)
        else answer_int 1 sink

-- The first loop: `num_events` counts the nodes up to `to`.
unfoldable pub count_events : ℕ → ℕ → (current to : Ptr) → Cmd ℕ
count_events zero num_events current to = λ _. out_of_fuel
count_events (suc fuel) num_events current to =
    let counted = (num_events + 1) % size_mod in
    if current == to
    then pure counted
    else do n ← load_node current; count_events fuel counted n.next to

-- The second loop, over the ids.
unfoldable pub send_ids : ℕ → (current to : Ptr) → Sink → Cmd (ℕ × Sink)
unfolding put
send_ids zero current to sink = λ _. out_of_fuel
send_ids (suc fuel) current to sink = do
  n ← load_node current
  e ← load_event n.event
  put (encode int_size e.id)
      (λ sink'. if current == to then pure (0, sink') else send_ids fuel n.next to sink') sink

-- The list is unlocked at the end of each branch; the result of that is not used.
unfoldable pub ems_list_events : Calls → ℕ → Sink → Cmd (ℕ × Sink)
unfolding answer_int count_events send_ids
ems_list_events calls fuel sink = do
  list ← gets (λ s. s.event_list)
  if list == null then answer_int 1 sink else do
    locked ← on_list list calls.rwlock_lock
    if locked == 0
        then (do
          l ← load_list list
          if l.head == null
              then answer_int 2 sink
              else put (encode int_size 0)
                  (λ sink'. do
                    num_events ← count_events fuel 0 l.head l.tail
                    put (encode size_size num_events) (send_ids fuel l.head l.tail) sink')
                  sink)
        else answer_int 1 sink
