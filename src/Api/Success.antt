-- ===== src/Api/Success.antt =====
-- The client's calls that return 0.
use event_management_server.Base.{
  ℕ, ◌≡◌, refl, ap, sym, ◌∙◌, inl, inr, true, false, none, ltb, length, some-injective, some, List,
  [], ◌∷◌, ◌++◌, take, append_assoc, append-nil, ◌==◌, Bool-cases, arith,
}
use event_management_server.Io.{my_write}
use event_management_server.Io.Descriptor.{Bytes, Source, Sink}
use event_management_server.Wire.{int_size, size_size, array_bytes, encode, decode, read_value}
use event_management_server.Io.Deliver.{sink}
use event_management_server.Api.Requests.{working, ems_create-request}
use event_management_server.Api.Exchange.{unanswered}
use event_management_server.Wire.Values.{read_value-nothing}
use event_management_server.Wire.Answers.{write_cases}
use event_management_server.Api.{
  Pipes, Outcome, send, send_array, start, closed, result_read, await_result, ems_create,
  ems_reserve,
}

-- The messages, part by part.
unfoldable pub create_message : (session_id event_id num_rows num_cols : ℕ) → Bytes
create_message session_id event_id num_rows num_cols =
    (3 ∷ encode int_size session_id)
    ++ (encode int_size event_id ++ (encode size_size num_rows ++ encode size_size num_cols))

unfoldable pub reserve_message : (session_id event_id num_seats : ℕ) → (xs ys : List ℕ) → Bytes
reserve_message session_id event_id num_seats xs ys =
    (4 ∷ encode int_size session_id)
    ++ (encode int_size event_id
        ++ (encode size_size num_seats
            ++ (array_bytes (take num_seats xs) ++ array_bytes (take num_seats ys))))

module _ (pipes : Pipes) (stale : ℕ → Source → Bytes) (answers : Sink → Source) where
  module _ (P : Outcome → Type 0) (fails : (o : Outcome) → o.code ≡ some 1 → P o) where
    -- A part of the request is written whole, or the call returns 1.
    send_cases :
        (before ps bs : Bytes) (next : Sink → Outcome) (output requests : Sink)
        → requests.written ≡ before ++ ps
        → ((requests' : Sink) → requests'.written ≡ before ++ (ps ++ bs) → P (next requests'))
        → P (send pipes stale answers bs next output requests)
    unfolding send
    send_cases before ps bs next output requests sent more = elim (write_cases bs requests) [
      | inl taken ↦ rw taken.succeeded (
          more (my_write bs requests).1
            (taken.text ∙ ap (λ t. t ++ bs) sent ∙ append_assoc before ps bs))
      | inr broken ↦ rw broken.broke (fails _ refl)
    ]

    array_cases :
        (outside : (o : Outcome) → o.code ≡ none → P o) (before ps : Bytes) (n : ℕ)
        (values : List ℕ) (next : Sink → Outcome) (output requests : Sink)
        → requests.written ≡ before ++ ps
        → ((requests' : Sink)
            → requests'.written ≡ before ++ (ps ++ array_bytes (take n values))
            → P (next requests'))
        → P (send_array pipes stale answers n values next output requests)
    unfolding send_array
    array_cases outside before ps n values next output requests sent more =
        elim (Bool-cases (ltb (length values) n)) [
          | inl longer ↦ rw longer (outside _ refl)
          | inr fits ↦
              rw fits
                (send_cases before ps (array_bytes (take n values)) next output requests sent more)
        ]

    -- The answer is read and is not 1, or the call returns 1.
    await_cases :
        (next : ℕ → Outcome → Outcome) (output requests : Sink)
        → ((o : Outcome)
            → o.requests ≡ requests
            → (read_value int_size (stale int_size (answers requests)) (answers requests)).0 ≡ false
            → P (
                next
                  (read_value int_size (stale int_size (answers requests)) (answers requests)).1
                  o))
        → P (await_result pipes stale answers next output requests)
    unfolding await_result result_read
    await_cases next output requests more =
        let got = read_value int_size (stale int_size (answers requests)) (answers requests) in
        elim (Bool-cases pipes.open_response) [
          | inr missing ↦ rw missing (fails _ refl)
          | inl opens ↦ rw opens (elim (Bool-cases got.0) [
            | inl wrong ↦ rw wrong (fails _ refl)
            | inr fine ↦ rw fine (elim (Bool-cases (got.1 == 1)) [
              | inl one ↦ rw one (fails _ refl)
              | inr other ↦ rw other (more _ refl fine)
            ])
          ])
        ]

    start_cases :
        (op_code session_id : ℕ) (before : Bytes) (next : Sink → Outcome) (output requests : Sink)
        → requests.written ≡ before
        → ((requests' : Sink)
            → requests'.written ≡ before ++ (op_code ∷ encode int_size session_id)
            → P (next requests'))
        → P (start pipes stale answers op_code session_id next output requests)
    unfolding start
    start_cases op_code session_id before next output requests sent more =
        let id = encode int_size session_id in
        elim (Bool-cases pipes.open_request) [
          | inr missing ↦ rw missing (fails _ refl)
          | inl opens ↦ rw opens (
              send_cases before [] (op_code ∷ []) (send pipes stale answers id next output) output
                requests (sent ∙ sym (append-nil before))
                λ r1 s1. send_cases before (op_code ∷ []) id next output r1 s1 more)
        ]

  -- Success: both pipes were closed, the request pipe has the whole message behind what was in it,
  -- the read of the answer did not return -1, and the variable for it is 0 then; where less than an
  -- int came, a part of it is what it held before.
  pub record Succeeded (before message : Bytes) (o : Outcome) : Type 0 where
    pub sent : o.requests.written ≡ before ++ message
    pub not_failed :
        (read_value int_size (stale int_size (answers o.requests)) (answers o.requests)).0 ≡ false
    pub result :
        (read_value int_size (stale int_size (answers o.requests)) (answers o.requests)).1 ≡ 0
    pub closes : (pipes.close_request ≡ true) × (pipes.close_response ≡ true)

  abbrev MeansSuccess : Bytes → Bytes → Outcome → Type 0
  MeansSuccess before message o = o.code ≡ some 0 → Succeeded before message o

  refused : (before message : Bytes) (o : Outcome) → o.code ≡ some 1 → MeansSuccess before message o
  refused before message o one zero = absurd (ground (arith, one, zero))

  outside_array :
      (before message : Bytes) (o : Outcome) → o.code ≡ none → MeansSuccess before message o
  outside_array before message o gone zero = absurd (ground (arith, gone, zero))

  closed_cases :
      (before message : Bytes) (requests : Sink) (o : Outcome)
      → requests.written ≡ before ++ message
      → o.requests ≡ requests
      → (read_value int_size (stale int_size (answers requests)) (answers requests)).0 ≡ false
      → MeansSuccess before message (
          closed pipes stale answers
            (read_value int_size (stale int_size (answers requests)) (answers requests)).1
            o)
  unfolding closed
  closed_cases before message requests o sent same read =
      let bad = λ (r : Sink). (read_value int_size (stale int_size (answers r)) (answers r)).0 in
      let answer = λ (r : Sink). (read_value int_size (stale int_size (answers r)) (answers r)).1 in
      elim (Bool-cases pipes.close_request) [
        | inr bad ↦ rw bad λ zero. absurd (ground (arith, zero))
        | inl fine ↦ rw fine (elim (Bool-cases pipes.close_response) [
          | inr bad ↦ rw bad λ zero. absurd (ground (arith, zero))
          | inl fine' ↦ rw fine' λ zero. record {
            sent = ap (λ r. r.written) same ∙ sent;
            not_failed = ap bad same ∙ read;
            result = ap answer same ∙ some-injective zero;
            closes = (refl, refl);
          }
        ])
      ]

  -- A client's `ems_create` returns 0 only where its whole request is in the request pipe, the read of
  -- the answer did not return -1, the variable `result` is 0 after it, and both pipes were closed;
  -- whatever the kernel answers and however the calls fail. Where the read got less than an int,
  -- the rest of the variable is what it held before.
  pub ems_create-Succeeded :
      (session_id event_id num_rows num_cols : ℕ) (output requests : Sink)
      → let o =
          ems_create pipes stale answers session_id event_id num_rows num_cols output requests in
        o.code ≡ some 0
        → Succeeded requests.written (create_message session_id event_id num_rows num_cols) o
  unfolding ems_create create_message
  ems_create-Succeeded session_id event_id num_rows num_cols output requests =
      let before = requests.written in
      let head = 3 ∷ encode int_size session_id in
      let id = encode int_size event_id in
      let rows = encode size_size num_rows in
      let cols = encode size_size num_cols in
      let message = head ++ (id ++ (rows ++ cols)) in
      let P = MeansSuccess before message in
      let fails = refused before message in
      let waiting = await_result pipes stale answers (closed pipes stale answers) output in
      let send_cols = send pipes stale answers cols waiting output in
      let send_rows = send pipes stale answers rows send_cols output in
      let whole : ((head ++ id) ++ rows) ++ cols ≡ message = simp (append_assoc) in
      start_cases P fails 3 session_id before (send pipes stale answers id send_rows output) output
        requests refl
        λ r1 s1. send_cases P fails before head id send_rows output r1 s1 λ r2 s2.
          send_cases P fails before (head ++ id) rows send_cols output r2 s2 λ r3 s3.
            send_cases P fails before ((head ++ id) ++ rows) cols waiting output r3 s3 λ r4 s4.
              await_cases P fails (closed pipes stale answers) output r4 λ o same read.
                closed_cases before message r4 o (s4 ∙ ap (λ t. before ++ t) whole) same read

  -- The same for `ems_reserve`.
  pub ems_reserve-Succeeded :
      (session_id event_id num_seats : ℕ) (xs ys : List ℕ) (output requests : Sink)
      → let o =
          ems_reserve pipes stale answers session_id event_id num_seats xs ys output requests in
        o.code ≡ some 0
        → Succeeded requests.written (reserve_message session_id event_id num_seats xs ys) o
  unfolding ems_reserve reserve_message
  ems_reserve-Succeeded session_id event_id num_seats xs ys output requests =
      let before = requests.written in
      let head = 4 ∷ encode int_size session_id in
      let id = encode int_size event_id in
      let n = encode size_size num_seats in
      let rows = array_bytes (take num_seats xs) in
      let cols = array_bytes (take num_seats ys) in
      let message = head ++ (id ++ (n ++ (rows ++ cols))) in
      let P = MeansSuccess before message in
      let fails = refused before message in
      let waiting = await_result pipes stale answers (closed pipes stale answers) output in
      let send_cols = send_array pipes stale answers num_seats ys waiting output in
      let send_rows = send_array pipes stale answers num_seats xs send_cols output in
      let outside = outside_array before message in
      let send_n = send pipes stale answers n send_rows output in
      let whole : (((head ++ id) ++ n) ++ rows) ++ cols ≡ message = simp (append_assoc) in
      start_cases P fails 4 session_id before (send pipes stale answers id send_n output) output
        requests refl
        λ r1 s1. send_cases P fails before head id send_n output r1 s1 λ r2 s2.
          send_cases P fails before (head ++ id) n send_rows output r2 s2 λ r3 s3.
            array_cases P fails outside before ((head ++ id) ++ n) num_seats xs send_cols output r3
              s3
              λ r4 s4.
                array_cases P fails outside before (((head ++ id) ++ n) ++ rows) num_seats ys
                  waiting output r4 s4
                  λ r5 s5. await_cases P fails (closed pipes stale answers) output r5 λ o same read.
                    closed_cases before message r5 o (s5 ∙ ap (λ t. before ++ t) whole) same read

-- A session whose server is gone before it answers: where the variable `result` holds 0 before the
-- read, `ems_create` returns 0, although no answer came.
pub ems_create-unanswered :
    (stale : ℕ → Source → Bytes) (session_id event_id num_rows num_cols : ℕ) (output : Sink)
    → decode (stale int_size []) ≡ 0
    → (ems_create working stale unanswered session_id event_id num_rows num_cols output
        (sink [] [])).code
      ≡ some 0
unfolding await_result closed result_read
ems_create-unanswered stale session_id event_id num_rows num_cols output zero =
    rw
      (
        ems_create-request stale unanswered session_id event_id num_rows num_cols output,
        read_value-nothing (stale int_size []),
        zero,
      )
      refl
