-- ===== src/Operations/AnswerFrame.antt =====
-- `ems_show` and `ems_list_events` of src/server/operations.c, and the memory.
use event_management_server.Base.{ℕ, zero, suc, Option-cases, inl, inr, get_elem?, ◌+◌}
use event_management_server.Seats.{Event, seat_count}
use event_management_server.Memory.{Ptr, State, Cmd, pure}
use event_management_server.Memory.Keeps.{Keeps, Keeps-if, keeps_rules}
use event_management_server.EventList.{search_nodes, get_event}
use event_management_server.Io.{my_write}
use event_management_server.Io.Descriptor.{Bytes, Sink}
use event_management_server.Wire.{int_size, size_size, encode, failed}
use event_management_server.Operations.{Calls, get_event_with_delay}
use event_management_server.Operations.Answer.{
  put, show_seats, show_event, show_found, ems_show, count_events, send_ids, ems_list_events,
}

module _ (I : State → Type 0) where
  put-Keeps :
      (bs : Bytes) (next : Sink → Cmd (ℕ × Sink)) (sink : Sink)
      → ((sink' : Sink) → Keeps I (next sink'))
      → Keeps I (put bs next sink)
  unfolding put
  put-Keeps bs next sink kept =
      Keeps-if (failed (my_write bs sink).0) (pure (1, (my_write bs sink).1))
        (next (my_write bs sink).1) (search keeps_rules) (kept (my_write bs sink).1)

  show_seats-Keeps : (e : Event) (n i : ℕ) (sink : Sink) → Keeps I (show_seats e n i sink)
  unfolding show_seats
  show_seats-Keeps e zero i sink = search keeps_rules
  show_seats-Keeps e (suc n) i sink = elim (Option-cases (get_elem? e.seats i)) [
    | inl outside ↦ rw (outside, show_seats) (search keeps_rules)
    | inr (v, here) ↦
        rw (here, show_seats)
          (put-Keeps (encode int_size v) (show_seats e n (i + 1)) sink
            λ sink'. show_seats-Keeps e n (i + 1) sink')
  ]

  show_event-Keeps : (e : Event) (sink : Sink) → Keeps I (show_event e sink)
  unfolding show_event
  show_event-Keeps e sink =
      let seats = show_seats e (seat_count e) 0 in
      let cols = put (encode size_size e.cols) seats in
      put-Keeps (encode int_size 0) (put (encode size_size e.rows) cols) sink λ sink1.
        put-Keeps (encode size_size e.rows) cols sink1 λ sink2.
          put-Keeps (encode size_size e.cols) seats sink2
            λ sink3. show_seats-Keeps e (seat_count e) 0 sink3

  search_nodes-Keeps : (fuel id : ℕ) (current to : Ptr) → Keeps I (search_nodes fuel id current to)
  unfolding search_nodes
  search_nodes-Keeps zero id current to = search keeps_rules
  search_nodes-Keeps (suc fuel) id current to = search (keeps_rules, search_nodes-Keeps fuel)

  pub get_event-Keeps :
      (fuel id : ℕ) (from to : Ptr) → Keeps I (get_event_with_delay fuel id from to)
  unfolding get_event_with_delay get_event
  get_event-Keeps fuel id from to = search (keeps_rules, search_nodes-Keeps)

  show_found-Keeps :
      (calls : Calls) (event : Ptr) (sink : Sink) → Keeps I (show_found calls event sink)
  unfolding show_found
  show_found-Keeps calls event sink = search (keeps_rules, show_event-Keeps)

  pub ems_show-Keeps :
      (calls : Calls) (fuel id : ℕ) (sink : Sink) → Keeps I (ems_show calls fuel id sink)
  unfolding ems_show
  ems_show-Keeps calls fuel id sink =
      search (keeps_rules, get_event-Keeps, show_found-Keeps) depth 14

  count_events-Keeps :
      (fuel num_events : ℕ) (current to : Ptr) → Keeps I (count_events fuel num_events current to)
  unfolding count_events
  count_events-Keeps zero num_events current to = search keeps_rules
  count_events-Keeps (suc fuel) num_events current to =
      search (keeps_rules, count_events-Keeps fuel)

  send_ids-Keeps :
      (fuel : ℕ) (current to : Ptr) (sink : Sink) → Keeps I (send_ids fuel current to sink)
  unfolding send_ids
  send_ids-Keeps zero current to sink = search keeps_rules
  send_ids-Keeps (suc fuel) current to sink =
      search (keeps_rules, put-Keeps, send_ids-Keeps fuel) depth 10

  pub ems_list_events-Keeps :
      (calls : Calls) (fuel : ℕ) (sink : Sink) → Keeps I (ems_list_events calls fuel sink)
  unfolding ems_list_events
  ems_list_events-Keeps calls fuel sink =
      search (keeps_rules, put-Keeps, count_events-Keeps, send_ids-Keeps) depth 16
