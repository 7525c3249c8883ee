-- ===== src/Operations/Show.antt =====
-- `ems_show` against the list of events.
use event_management_server.Base.{
  get_elem?_middle, ℕ, ◌+◌, ◌*◌, ◌%◌, ◌≤◌, ◌≡◌, refl, ap, sym, ◌∙◌, subst, Option, none, some, List,
  [], ◌∷◌, ◌++◌, arith, length, get_elem?, ◌==◌, if◌then◌else◌, ==_ne, Bool-cases, inl, inr,
  append_assoc, size_mod, length-append,
}
use event_management_server.Seats.{Event, seat_count}
use event_management_server.Seats.Index.{IsValid}
use event_management_server.Memory.{Ptr, null, State}
use event_management_server.Io.Descriptor.{Bytes, Sink}
use event_management_server.Wire.{int_size, size_size, encode}
use event_management_server.EventList.Chain.{Cells, events_of, deref-done}
use event_management_server.EventList.Lookup.{
  find_event, address_of, Located, missing, located, Content-Located,
}
use event_management_server.Operations.{Calls}
use event_management_server.Operations.View.{
  Lists, length-events_of, list_not_null, load_list-done, on_list-done, get_event-done,
}
use event_management_server.Operations.Reserve.{AllValid, find_event-IsValid}
use event_management_server.Operations.Answer.{put, show_seats, show_event, show_found, ems_show}
use event_management_server.Operations.Sending.{
  Answers, put-Answers, answer_int-Answers, end-Answers,
}

-- The bytes of the seats, in the order of the array.
unfoldable pub seats_bytes : List ℕ → Bytes
seats_bytes [] = []
seats_bytes (v ∷ seats) = encode int_size v ++ seats_bytes seats

-- Success, the dimensions and the seats.
unfoldable pub event_bytes : Event → Bytes
unfolding seats_bytes
event_bytes e =
    encode int_size 0
    ++ (encode size_size e.rows ++ (encode size_size e.cols ++ seats_bytes e.seats))

show_seats_lem :
    {s : State} (e : Event) (pre suf : List ℕ) (sink : Sink)
    → e.seats ≡ pre ++ suf
    → Answers s sink 0 (seats_bytes suf) (show_seats e (length suf) (length pre) sink s)
unfolding show_seats seats_bytes
show_seats_lem {s} e pre [] sink h = end-Answers s sink
show_seats_lem {s} e pre (v ∷ suf) sink h =
    let here : get_elem? e.seats (length pre) ≡ some v =
      ap (λ t. get_elem? t (length pre)) h ∙ get_elem?_middle pre v suf in
    rw (here, show_seats)
      (put-Answers (encode int_size v) (seats_bytes suf)
        (show_seats e (length suf) (length pre + 1)) sink
        (λ sink'.
          subst (λ i. Answers s sink' 0 (seats_bytes suf) (show_seats e (length suf) i sink' s))
            (length-append pre (v ∷ []))
            (show_seats_lem e (pre ++ v ∷ []) suf sink' (h ∙ sym (append_assoc pre (v ∷ []) suf)))))

show_event_lem :
    {s : State} (e : Event) (sink : Sink)
    → IsValid e
    → Answers s sink 0 (event_bytes e) (show_event e sink s)
unfolding show_event event_bytes seat_count
show_event_lem {s} e sink v =
    let rounds : length e.seats ≡ (e.rows * e.cols) % size_mod = grind (arith, v.size, v.fits) in
    let seats = show_seats e (seat_count e) 0 in
    let cols = put (encode size_size e.cols) seats in
    put-Answers (encode int_size 0) _ (put (encode size_size e.rows) cols) sink λ sink1.
      put-Answers (encode size_size e.rows) _ cols sink1 λ sink2.
        put-Answers (encode size_size e.cols) (seats_bytes e.seats) seats sink2 λ sink3.
          subst (λ n. Answers s sink3 0 (seats_bytes e.seats) (show_seats e n 0 sink3 s)) rounds
            (show_seats_lem e [] e.seats sink3 refl)

unfoldable pub show_of : Calls → Option Event → ℕ × Bytes
show_of calls none = (1, encode int_size 1)
show_of calls (some e) =
    if calls.mutex_lock == 0 then (0, event_bytes e) else (1, encode int_size 1)

-- The first event with the id is shown; where there is none, or a lock fails, the answer is 1.
unfoldable pub show_spec : Calls → ℕ → List Event → ℕ × Bytes
unfolding show_of event_bytes
show_spec calls id es =
    if calls.rwlock_lock == 0 then show_of calls (find_event id es) else (1, encode int_size 1)

module _ (calls : Calls) {s : State} {cells : Cells} (sink : Sink) where
  show_found_lem :
      (a : Ptr) (found : Option Event)
      → Located s cells a found
      → ((v : Event) → found ≡ some v → IsValid v)
      → Answers s sink (show_of calls found).0 (show_of calls found).1 (show_found calls a sink s)
  unfolding show_of show_found
  show_found_lem a found (missing h f) valid = rw (h, f) (answer_int-Answers s 1 sink)
  show_found_lem a found (located v ne at f i) valid =
      rw (==_ne a null ne, deref-done (λ t. t.events) a s v ne at, f)
        (elim (Bool-cases (calls.mutex_lock == 0)) [
          | inl locked ↦ rw locked (show_event_lem v sink (valid v f))
          | inr bad ↦ rw bad (answer_int-Answers s 1 sink)
        ])

-- `ems_show` leaves the state as it is. Its answer is the first event with the id, or the int 1
-- where there is none or a lock fails, and the code is 0 or 1 accordingly; where writing breaks off
-- the code is 1 and a front of the answer is there.
pub ems_show_lem :
    (calls : Calls) {s : State} {es : List Event} (fuel id : ℕ) (sink : Sink)
    → Lists s es
    → AllValid es
    → length es ≤ fuel
    → Answers s sink
        (show_spec calls id es).0
        (show_spec calls id es).1
        (ems_show calls fuel id sink s)
unfolding ems_show show_spec
ems_show_lem calls {s} fuel id sink l valid enough =
    let valid' : AllValid (events_of l.cells) = subst (λ xs. AllValid xs) (sym l.view) valid in
    rw (← l.view, list_not_null l.rep, on_list-done l.rep calls.rwlock_lock)
      (elim (Bool-cases (calls.rwlock_lock == 0)) [
        | inl locked ↦
            rw
              (
                locked,
                load_list-done l.rep,
                get_event-done l.rep fuel id
                    (omega (arith, length-events_of l.cells, ap length l.view)),
                on_list-done l.rep calls.rwlock_unlock,
              )
              (show_found_lem calls sink (address_of id l.cells) (find_event id (events_of l.cells))
                (Content-Located id l.rep.content)
                (λ v. find_event-IsValid id (events_of l.cells) v valid'))
        | inr bad ↦ rw bad (answer_int-Answers s 1 sink)
      ])
