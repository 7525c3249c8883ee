-- ===== src/Api/Requests.antt =====
-- What the client writes to its request pipe, and what it makes of the answer.
use event_management_server.Base.{
  ℕ, ◌<◌, ◌≡◌, refl, ap, sym, ◌∙◌, true, false, ltb, some, List, [], ◌∷◌, ◌++◌, length, take,
  take-length, arith, append_assoc, append-nil, uint_mod, ◌==◌, Bool-cases, inl, inr,
}
use event_management_server.Seats.{Seat}
use event_management_server.Io.Descriptor.{Bytes, Source, Sink}
use event_management_server.Io.Deliver.{sink, my_write_open}
use event_management_server.Io.Transfer.{contents, IsFlowing}
use event_management_server.Wire.{int_size, encode}
use event_management_server.Wire.Values.{read_value-encode}
use event_management_server.Sessions.Messages.{
  Request, create, reserve, show, list_events, op_code, arguments, rows_of, cols_of, length-rows_of,
  length-cols_of,
}
use event_management_server.Api.Show.{ems_show, show_answer}
use event_management_server.Api.ListEvents.{ems_list_events, list_answer}
use event_management_server.Api.Keeps.{
  closed-Keeps, await_result-requests, show_answer-Keeps, list_answer-Keeps,
}
use event_management_server.Api.{
  Pipes, start, await_result, closed, result_read, send_array, ems_create, ems_reserve,
}

-- All pipes open and close.
abbrev pub working : Pipes
working = record {
  open_request = true;
  open_response = true;
  close_request = true;
  close_response = true;
}

-- The bytes of a whole request.
unfoldable pub request_bytes : ℕ → Request → Bytes
request_bytes session_id request =
    op_code request ∷ (encode int_size session_id ++ arguments request [])

module _ (stale : ℕ → Source → Bytes) (answers : Sink → Source) where
  -- The client writes the request as a whole, and goes on to wait for the answer.
  pub ems_create-request :
      (session_id id rows cols : ℕ) (output : Sink)
      → ems_create working stale answers session_id id rows cols output (sink [] [])
        ≡ await_result working stale answers
            (closed working stale answers)
            output
            (sink [] (request_bytes session_id (create id rows cols)))
  unfolding ems_create start request_bytes op_code arguments
  ems_create-request session_id id rows cols output = simp (my_write_open, append_assoc, append-nil)

  take_all : (xs : List ℕ) (n : ℕ) → length xs ≡ n → take n xs ≡ xs
  take_all xs n same =
      ap (λ k. take k xs) (sym same)
      ∙ ap (λ ys. take (length xs) ys) (sym (append-nil xs))
      ∙ take-length xs []

  not_longer : (xs : List ℕ) (n : ℕ) → length xs ≡ n → ltb (length xs) n ≡ false
  not_longer xs n same = ground (arith, same)

  pub ems_reserve-request :
      (session_id id : ℕ) (seats : List Seat) (output : Sink)
      → ems_reserve working stale answers session_id id
          (length seats)
          (rows_of seats)
          (cols_of seats)
          output
          (sink [] [])
        ≡ await_result working stale answers
            (closed working stale answers)
            output
            (sink [] (request_bytes session_id (reserve id seats)))
  unfolding ems_reserve send_array start request_bytes op_code arguments
  ems_reserve-request session_id id seats output = simp (
    my_write_open,
    append_assoc,
    append-nil,
    not_longer (rows_of seats) (length seats) (length-rows_of seats),
    not_longer (cols_of seats) (length seats) (length-cols_of seats),
    take_all (rows_of seats) (length seats) (length-rows_of seats),
    take_all (cols_of seats) (length seats) (length-cols_of seats),
  )

  -- An answer of one int is the return value.
  pub await_result-closed :
      (r : ℕ) (rest : Bytes) (output requests : Sink)
      → ((n : ℕ) (src : Source) → length (stale n src) ≡ n)
      → r < uint_mod
      → IsFlowing (answers requests)
      → contents (answers requests) ≡ encode int_size r ++ rest
      → (await_result working stale answers (closed working stale answers) output requests).code
        ≡ some r
  unfolding await_result closed result_read
  await_result-closed r rest output requests sized small flow e =
      let got =
        read_value-encode int_size r (stale int_size (answers requests)) rest (answers requests)
          small (sized int_size (answers requests)) flow e in
      rw (got.succeeded, got.value_read)
        (elim (Bool-cases (r == 1)) [
          | inl one ↦ rw one (ap (λ t. some t) (ground arith))
          | inr other ↦ rw other refl
        ])

  -- What is in the request pipe afterwards, whatever is answered.
  pub ems_create-written :
      (session_id id rows cols : ℕ) (output : Sink)
      → (ems_create working stale answers session_id id rows cols output
          (sink [] [])).requests.written
        ≡ request_bytes session_id (create id rows cols)
  ems_create-written session_id id rows cols output =
      ap (λ o. o.requests.written) (ems_create-request session_id id rows cols output)
      ∙ ap (λ r. r.written)
          (await_result-requests working stale answers (closed working stale answers) output
            (sink [] (request_bytes session_id (create id rows cols)))
            (closed-Keeps working stale answers))

  pub ems_reserve-written :
      (session_id id : ℕ) (seats : List Seat) (output : Sink)
      → (ems_reserve working stale answers session_id id
          (length seats)
          (rows_of seats)
          (cols_of seats)
          output
          (sink [] [])).requests.written
        ≡ request_bytes session_id (reserve id seats)
  ems_reserve-written session_id id seats output =
      ap (λ o. o.requests.written) (ems_reserve-request session_id id seats output)
      ∙ ap (λ r. r.written)
          (await_result-requests working stale answers (closed working stale answers) output
            (sink [] (request_bytes session_id (reserve id seats)))
            (closed-Keeps working stale answers))

  pub ems_show-request :
      (session_id id : ℕ) (output : Sink)
      → ems_show working stale answers session_id id output (sink [] [])
        ≡ await_result working stale answers
            (show_answer stale (closed working stale answers))
            output
            (sink [] (request_bytes session_id (show id)))
  unfolding ems_show start request_bytes op_code arguments
  ems_show-request session_id id output = simp (my_write_open, append_assoc, append-nil)

  pub ems_list_events-request :
      (session_id : ℕ) (output : Sink)
      → ems_list_events working stale answers session_id output (sink [] [])
        ≡ await_result working stale answers
            (list_answer stale (closed working stale answers))
            output
            (sink [] (request_bytes session_id list_events))
  unfolding ems_list_events start request_bytes op_code arguments
  ems_list_events-request session_id output = simp (my_write_open, append_assoc, append-nil)

  pub ems_show-written :
      (session_id id : ℕ) (output : Sink)
      → (ems_show working stale answers session_id id output (sink [] [])).requests.written
        ≡ request_bytes session_id (show id)
  ems_show-written session_id id output =
      let finish = closed working stale answers in
      ap (λ o. o.requests.written) (ems_show-request session_id id output)
      ∙ ap (λ r. r.written)
          (await_result-requests working stale answers (show_answer stale finish) output
            (sink [] (request_bytes session_id (show id)))
            (λ r. show_answer-Keeps stale finish r (closed-Keeps working stale answers r)))

  pub ems_list_events-written :
      (session_id : ℕ) (output : Sink)
      → (ems_list_events working stale answers session_id output (sink [] [])).requests.written
        ≡ request_bytes session_id list_events
  ems_list_events-written session_id output =
      let finish = closed working stale answers in
      ap (λ o. o.requests.written) (ems_list_events-request session_id output)
      ∙ ap (λ r. r.written)
          (await_result-requests working stale answers (list_answer stale finish) output
            (sink [] (request_bytes session_id list_events))
            (λ r. list_answer-Keeps stale finish r (closed-Keeps working stale answers r)))
