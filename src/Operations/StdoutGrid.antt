-- ===== src/Operations/StdoutGrid.antt =====
-- What `ems_show_stdout` prints.
use event_management_server.Base.{
  get_elem?_middle, ℕ, zero, suc, ◌+◌, ◌-◌, ◌*◌, ◌<◌, ◌≤◌, ◌≡◌, ◌≢◌, refl, ap, sym, ◌∙◌, subst,
  true, false, some, List, [], ◌∷◌, ◌++◌, arith, length, get_elem?, take, drop, ltb, append_assoc,
  length-append, take-append-drop, length-take, uint_mod,
}
use event_management_server.Seats.{Event, seat_index}
use event_management_server.Seats.Index.{IsValid, InRange, seat_index_lem}
use event_management_server.Seats.Types.{AllUints, split-AllUints}
use event_management_server.Memory.{State, Cmd}
use event_management_server.Memory.Returns
use event_management_server.Memory.Returns.{Returns, returns}
use event_management_server.Io.{my_write}
use event_management_server.Io.Descriptor.{Bytes, Sink}
use event_management_server.Io.Deliver.{all, front, my_write_lem}
use event_management_server.Wire.{failed}
use event_management_server.Wire.Answers.{part, my_write-open, Sent-append}
use event_management_server.Number.Print.{decimal_text, decimal_text-IsDecimal, print_str-my_write}
use event_management_server.Operations.Stdout.{
  sprintf_uint, show_text, show_number, show_row, show_rows,
}
use event_management_server.Operations.Sending.{Answers, end-Answers}

-- A row of seats with a space between two.
unfoldable pub spaced_text : List ℕ → Bytes
spaced_text [] = []
spaced_text (v ∷ []) = decimal_text v
spaced_text (v ∷ w ∷ vs) = decimal_text v ++ b' ' ∷ spaced_text (w ∷ vs)

unfoldable pub spaced_grid : (cols rows : ℕ) → List ℕ → Bytes
unfolding spaced_text
spaced_grid cols zero seats = []
spaced_grid cols (suc rows) seats =
    spaced_text (take cols seats) ++ b'\n' ∷ spaced_grid cols rows (drop cols seats)

pub show_text-Answers :
    {s : State} {r : ℕ} (bs text : Bytes) (next : Sink → Cmd (ℕ × Sink)) (sink : Sink)
    → ((sink' : Sink) → Answers s sink' r text (next sink' s))
    → Answers s sink r (bs ++ text) (show_text bs next sink s)
unfolding show_text
show_text-Answers {s} {r} bs text next sink more =
    rw (print_str-my_write bs sink) (elim (my_write_lem bs sink) [
      | all code written ↦
          let kept : sink.plan ≡ [] → (my_write bs sink).1.plan ≡ [] =
            λ e. ap (λ out. out.1.plan) (my_write-open bs sink e) in
          rw code (
            Returns.mono (more (my_write bs sink).1)
              λ out s' p. (p.0, Sent-append bs text written kept p.1))
      | front ps qs code split written ↦
          let closed : sink.plan ≢ [] = λ e.
            let clash : true ≡ false =
              sym (ap (λ c. failed c) code) ∙ ap (λ out. failed out.0) (my_write-open bs sink e) in
            cc in
          rw code (
            returns (
              refl,
              part ps (qs ++ text) refl (ap (λ t. t ++ text) split ∙ append_assoc ps qs text)
                  written closed,
            ))
    ])

show_number-Answers :
    {s : State} {r : ℕ} (value : ℕ) (text : Bytes) (next : Sink → Cmd (ℕ × Sink)) (sink : Sink)
    → value < uint_mod
    → ((sink' : Sink) → Answers s sink' r text (next sink' s))
    → Answers s sink r (decimal_text value ++ text) (show_number value next sink s)
unfolding show_number sprintf_uint
show_number-Answers value text next sink small more =
    let fits : ltb (length (decimal_text value)) 16 ≡ true =
      ground (arith, (decimal_text-IsDecimal value small).short) in
    rw (fits, show_number) (show_text-Answers (decimal_text value) text next sink more)

next_row :
    (i : ℕ) (pre row : List ℕ) (cols : ℕ)
    → 0 < i
    → length pre ≡ (i - 1) * cols
    → length row ≡ cols
    → length (pre ++ row) ≡ (i + 1 - 1) * cols
next_row zero pre row cols pos place wide = absurd (omega arith)
next_row (suc k) pre row cols pos place wide =
    let before : length pre ≡ k * cols = place ∙ ap (λ (t : ℕ). t * cols) (omega arith) in
    let after : (suc k + 1 - 1) * cols ≡ suc k * cols = ap (λ (t : ℕ). t * cols) (omega arith) in
    let step : suc k * cols ≡ k * cols + cols = grind arith in
    omega (arith, length-append pre row, before, after, step, wide)

module _ (e : Event) (valid : IsValid e) where
  seat_here :
      (i j : ℕ) (pre : List ℕ) (v : ℕ) (after : List ℕ)
      → 0 < i
      → i ≤ e.rows
      → 0 < j
      → j ≤ e.cols
      → length pre ≡ (i - 1) * e.cols + (j - 1)
      → e.seats ≡ pre ++ v ∷ after
      → get_elem? e.seats (seat_index e i j) ≡ some v
  seat_here i j pre v after pos low left right place split =
      let range : InRange e i j = record {
        row_pos = pos;
        row-le = low;
        col_pos = left;
        col-le = right;
      } in
      ap (λ k. get_elem? e.seats k) (seat_index_lem e i j valid range ∙ sym place)
      ∙ ap (λ t. get_elem? t (length pre)) split
      ∙ get_elem?_middle pre v after

module _ {s : State} (e : Event) (valid : IsValid e) where
  show_row_lem :
      {r : ℕ} (i j : ℕ) (pre row others : List ℕ) (text : Bytes) (next : Sink → Cmd (ℕ × Sink))
      (sink : Sink)
      → 0 < i
      → i ≤ e.rows
      → 0 < j
      → j + length row ≡ suc e.cols
      → length pre ≡ (i - 1) * e.cols + (j - 1)
      → e.seats ≡ pre ++ (row ++ others)
      → AllUints row
      → ((sink' : Sink) → Answers s sink' r text (next sink' s))
      → Answers s sink r (spaced_text row ++ text) (show_row e i (length row) j next sink s)
  unfolding show_row spaced_text
  show_row_lem i j pre [] others text next sink pos low left wide place split fits more = more sink
  show_row_lem i j pre (v ∷ []) others text next sink pos low left wide place split fits more =
      let here = seat_here e valid i j pre v others pos low left (omega arith) place split in
      let last : ltb j e.cols ≡ false = ground arith in
      rw (here, show_row, last) (show_number-Answers v text next sink fits.0 more)
  show_row_lem i j pre (v ∷ w ∷ row) others text next sink pos low left wide place split fits more =
      let onward = show_row e i (suc (length row)) (j + 1) next in
      let here =
        seat_here e valid i j pre v (w ∷ row ++ others) pos low left (omega arith) place split in
      let inner : ltb j e.cols ≡ true = ground arith in
      let split' : e.seats ≡ (pre ++ v ∷ []) ++ (w ∷ row ++ others) =
        split ∙ sym (append_assoc pre (v ∷ []) (w ∷ row ++ others)) in
      rw (here, show_row, inner, append_assoc (decimal_text v) (b' ' ∷ spaced_text (w ∷ row)) text)
        (show_number-Answers v (b' ' ∷ (spaced_text (w ∷ row) ++ text))
          (show_text (b' ' ∷ []) onward) sink fits.0
          λ sink1.
            show_text-Answers (b' ' ∷ []) (spaced_text (w ∷ row) ++ text) onward sink1 λ sink2.
              show_row_lem i (j + 1) (pre ++ v ∷ []) (w ∷ row) others text next sink2 pos low
                (omega arith) (omega arith) (omega (arith, length-append pre (v ∷ []))) split'
                fits.1 more)

  pub show_rows_lem :
      (n i : ℕ) (pre seats : List ℕ) (sink : Sink)
      → 0 < i
      → i + n ≡ suc e.rows
      → length pre ≡ (i - 1) * e.cols
      → length seats ≡ n * e.cols
      → e.seats ≡ pre ++ seats
      → AllUints seats
      → Answers s sink 0 (spaced_grid e.cols n seats) (show_rows e n i sink s)
  unfolding show_rows spaced_grid
  show_rows_lem zero i pre seats sink pos rows place size split fits = end-Answers s sink
  show_rows_lem (suc n) i pre seats sink pos rows place size split fits =
      let row = take e.cols seats in
      let others = drop e.cols seats in
      let (row_fits, others_fit) = split-AllUints e.cols seats fits in
      let wide : length row ≡ e.cols = length-take e.cols seats (grind (arith, size)) in
      let whole : row ++ others ≡ seats = take-append-drop e.cols seats in
      let counted : length others ≡ n * e.cols =
        omega (arith, size, wide, length-append row others, ap length whole) in
      let onward = show_rows e n (i + 1) in
      let ended = show_text (b'\n' ∷ []) onward in
      let text = spaced_grid e.cols n others in
      let split' : e.seats ≡ (pre ++ row) ++ others =
        split ∙ ap (λ t. pre ++ t) (sym whole) ∙ sym (append_assoc pre row others) in
      subst
        (λ m. Answers s sink 0 (spaced_text row ++ b'\n' ∷ text) (show_row e i m 1 ended sink s))
        wide
        (show_row_lem i 1 pre row others (b'\n' ∷ text) ended sink pos (omega arith) (omega arith)
          (omega arith) (omega arith) (split ∙ ap (λ t. pre ++ t) (sym whole)) row_fits
          λ sink1. show_text-Answers (b'\n' ∷ []) text onward sink1 λ sink2.
            show_rows_lem n (i + 1) (pre ++ row) others sink2 (omega arith) (omega arith)
              (next_row i pre row e.cols pos place wide) counted split' others_fit)
