-- ===== src/Operations/ListEvents.antt =====
-- `ems_list_events` against the list of events.
use event_management_server.Base.{
  ℕ, zero, suc, ◌+◌, ◌%◌, ◌<◌, ◌≤◌, ◌≡◌, ◌≢◌, refl, ap, ◌∙◌, List, [], ◌∷◌, ◌++◌, arith, length,
  ◌==◌, if◌then◌else◌, ==_ne, ==_refl, Bool-cases, inl, inr, size_mod,
}
use event_management_server.Seats.{Event}
use event_management_server.Memory.{Ptr, null, State, done, pure, Cmd, ◌>>=◌}
use event_management_server.Io.Descriptor.{Bytes, Sink}
use event_management_server.Wire.{int_size, size_size, encode}
use event_management_server.EventList.Chain.{
  Cells, events_of, Chain, last, cons, Content, nil, chain, load_node-done, load_event-done,
  has_node-tail, Chain-ne_null,
}
use event_management_server.Operations.{Calls}
use event_management_server.Operations.View.{
  Lists, length-events_of, list_not_null, load_list-done, on_list-done,
}
use event_management_server.Operations.Answer.{
  answer_int, put, count_events, send_ids, ems_list_events,
}
use event_management_server.Operations.Sending.{
  Answers, put-Answers, answer_int-Answers, end-Answers,
}

-- The bytes of the ids, in the order of the list.
unfoldable pub ids_bytes : List Event → Bytes
ids_bytes [] = []
ids_bytes (e ∷ es) = encode int_size e.id ++ ids_bytes es

unfoldable pub list_of : List Event → ℕ × Bytes
list_of [] = (1, encode int_size 2)
list_of (e ∷ es) =
    (0, encode int_size 0 ++ (encode size_size (length (e ∷ es)) ++ ids_bytes (e ∷ es)))

-- Success, the number of events and their ids; the int 2 where there is none, 1 where a lock fails.
unfoldable pub list_spec : Calls → List Event → ℕ × Bytes
unfolding list_of ids_bytes
list_spec calls es = if calls.rwlock_lock == 0 then list_of es else (1, encode int_size 1)

module _ {s : State} {tail : Ptr} where
  count_events_lem :
      {p : Ptr} {cells : Cells} (fuel num_events : ℕ)
      → Chain s tail p cells
      → length cells ≤ fuel
      → num_events + length cells < size_mod
      → count_events fuel num_events p tail s ≡ done (num_events + length cells) s
  unfolding count_events
  count_events_lem zero num_events (last h) enough small = absurd (omega arith)
  count_events_lem zero num_events (cons h out out' c) enough small = absurd (omega arith)
  count_events_lem (suc fuel) num_events (last h) enough small =
      let counted : (num_events + 1) % size_mod ≡ num_events + 1 = omega arith in
      rw (==_refl tail, counted)
  count_events_lem (suc fuel) num_events (cons {p} {cells} h out out' c) enough small =
      let apart : p ≢ tail = ground (arith, has_node-tail c) in
      let counted : (num_events + 1) % size_mod ≡ num_events + 1 = omega arith in
      rw (==_ne p tail apart, counted, load_node-done h)
        (count_events_lem fuel (num_events + 1) c (omega arith) (omega arith)
          ∙ ap (λ n. done n s) (omega arith))

  send_ids_lem :
      {p : Ptr} {cells : Cells} (fuel : ℕ) (sink : Sink)
      → Chain s tail p cells
      → length cells ≤ fuel
      → Answers s sink 0 (ids_bytes (events_of cells)) (send_ids fuel p tail sink s)
  unfolding send_ids ids_bytes
  send_ids_lem zero sink (last h) enough = absurd (omega arith)
  send_ids_lem zero sink (cons h out out' c) enough = absurd (omega arith)
  send_ids_lem (suc fuel) sink (last {v} h) enough =
      let next : Sink → Cmd (ℕ × Sink) =
        λ sink'. if tail == tail then pure (0, sink') else send_ids fuel null tail sink' in
      rw (load_node-done h, load_event-done h)
        (put-Answers (encode int_size v.id) [] next sink
          λ sink'. rw (==_refl tail) (end-Answers s sink'))
  send_ids_lem (suc fuel) sink (cons {p} {q} {v} {cells} h out out' c) enough =
      let apart : p ≢ tail = ground (arith, has_node-tail c) in
      let next : Sink → Cmd (ℕ × Sink) =
        λ sink'. if p == tail then pure (0, sink') else send_ids fuel q tail sink' in
      rw (load_node-done h, load_event-done h)
        (put-Answers (encode int_size v.id) (ids_bytes (events_of cells)) next sink
          λ sink'. rw (==_ne p tail apart) (send_ids_lem fuel sink' c (omega arith)))

  list_of-Chain :
      {p : Ptr} {cells : Cells}
      → Chain s tail p cells
      → list_of (events_of cells)
        ≡ (0, encode int_size 0 ++ (encode size_size (length cells) ++ ids_bytes (events_of cells)))
  unfolding list_of
  list_of-Chain (last h) = refl
  list_of-Chain (cons {cells} h out out' c) = rw (length-events_of cells) refl

list_found_lem :
    {s : State} {cells : Cells} (h t : Ptr) (fuel : ℕ) (sink : Sink)
    → Content s h t cells
    → length cells ≤ fuel
    → length cells < size_mod
    → Answers s sink (list_of (events_of cells)).0 (list_of (events_of cells)).1 (
        (if h == null
            then answer_int 2 sink
            else put
                (encode int_size 0)
                (λ sink'. do
                  num_events ← count_events fuel 0 h t
                  put (encode size_size num_events) (send_ids fuel h t) sink')
                sink)
          s)
unfolding list_of
list_found_lem {s} h t fuel sink nil enough small = answer_int-Answers s 2 sink
list_found_lem {s} {cells} h t fuel sink (chain c) enough small =
    let ids = ids_bytes (events_of cells) in
    let next : Sink → Cmd (ℕ × Sink) = λ sink'.
      count_events fuel 0 h t >>= λ n. put (encode size_size n) (send_ids fuel h t) sink' in
    let counted : count_events fuel 0 h t s ≡ done (length cells) s =
      count_events_lem fuel 0 c enough (omega arith) ∙ ap (λ n. done n s) (omega arith) in
    rw (==_ne h null (Chain-ne_null c).0, list_of-Chain c)
      (put-Answers (encode int_size 0) (encode size_size (length cells) ++ ids) next sink λ sink'.
        rw counted (
          put-Answers (encode size_size (length cells)) ids (send_ids fuel h t) sink'
            λ sink''. send_ids_lem fuel sink'' c enough))

-- `ems_list_events` leaves the state as it is. Its answer is the number of events and their ids in
-- order, with code 0, or the int 2 where there is no event and 1 where the lock fails, with code 1;
-- where writing breaks off the code is 1 and a front of the answer is there.
pub ems_list_events_lem :
    (calls : Calls) {s : State} {es : List Event} (fuel : ℕ) (sink : Sink)
    → Lists s es
    → length es ≤ fuel
    → length es < size_mod
    → Answers s sink
        (list_spec calls es).0
        (list_spec calls es).1
        (ems_list_events calls fuel sink s)
unfolding ems_list_events list_spec
ems_list_events_lem calls {s} fuel sink l enough small =
    rw (← l.view, list_not_null l.rep, on_list-done l.rep calls.rwlock_lock)
      (elim (Bool-cases (calls.rwlock_lock == 0)) [
        | inl locked ↦
            let size : length l.cells ≤ fuel =
              omega (arith, length-events_of l.cells, ap length l.view) in
            let bound : length l.cells < size_mod =
              omega (arith, length-events_of l.cells, ap length l.view) in
            rw (locked, load_list-done l.rep)
              (list_found_lem l.rep.list.head l.rep.list.tail fuel sink l.rep.content size bound)
        | inr bad ↦ rw bad (answer_int-Answers s 1 sink)
      ])
