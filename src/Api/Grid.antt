-- ===== src/Api/Grid.antt =====
-- What `ems_show` of the client prints.
use event_management_server.Base.{
  ℕ, zero, suc, ◌+◌, ◌*◌, ◌≤◌, ◌≡◌, refl, ap, sym, ◌∙◌, subst, true, List, [], ◌∷◌, ◌++◌, arith,
  length, take, drop, ltb, append_assoc, append-nil, take-append-drop, length-append, length-take,
}
use event_management_server.Seats.{Event}
use event_management_server.Seats.Index.{IsValid}
use event_management_server.Seats.Types.{HasTypes, AllUints, split-AllUints}
use event_management_server.Io.Descriptor.{Bytes, Source}
use event_management_server.Io.Deliver.{sink}
use event_management_server.Wire.{int_size, size_size, encode}
use event_management_server.Number.Print.{decimal_text}
use event_management_server.Operations.Show.{seats_bytes}
use event_management_server.Api.{Outcome}
use event_management_server.Api.Output.{fetch, nonzero, print_text, print_number, print_newline}
use event_management_server.Api.Show.{print_row, print_rows, show_answer}
use event_management_server.Api.Printing.{
  Reads, fetch_lem, print_text_lem, print_number_lem, print_newline_lem,
}

-- The seats of a row, with a space behind each.
unfoldable pub row_text : List ℕ → Bytes
row_text [] = []
row_text (v ∷ vs) = decimal_text v ++ b' ' ∷ row_text vs

-- The seats row by row, a line for each.
unfoldable pub grid_text : (cols rows : ℕ) → List ℕ → Bytes
unfolding row_text
grid_text cols zero seats = []
grid_text cols (suc rows) seats =
    row_text (take cols seats) ++ b'\n' ∷ grid_text cols rows (drop cols seats)

seats_bytes-append : (us vs : List ℕ) → seats_bytes (us ++ vs) ≡ seats_bytes us ++ seats_bytes vs
unfolding seats_bytes
seats_bytes-append [] vs = refl
seats_bytes-append (u ∷ us) vs =
    ap (λ t. encode int_size u ++ t) (seats_bytes-append us vs)
    ∙ sym (append_assoc (encode int_size u) (seats_bytes us) (seats_bytes vs))

module _ (P : Outcome → Type 0) (stale : ℕ → Source → Bytes)
    (sized : (n : ℕ) (src : Source) → length (stale n src) ≡ n) where
  print_row_lem :
      (num_cols j : ℕ) (seats : List ℕ) (rest text : Bytes) (next : Outcome → Outcome) (o : Outcome)
      → j + length seats ≤ num_cols
      → AllUints seats
      → Reads (seats_bytes seats ++ rest) text o
      → ((o' : Outcome) → Reads rest (text ++ row_text seats) o' → P (next o'))
      → P (print_row stale num_cols (length seats) j next o)
  unfolding print_row seats_bytes row_text
  print_row_lem num_cols j [] rest text next o room fits r more = more o (record {
    flowing = r.flowing;
    coming = r.coming;
    output = r.output ∙ ap (λ t. sink [] t) (sym (append-nil text));
  })
  print_row_lem num_cols j (v ∷ seats) rest text next o room fits r more =
      let onward = print_row stale num_cols (length seats) (j + 1) next in
      let spaced = print_text nonzero (b' ' ∷ []) onward in
      let inside : ltb j num_cols ≡ true = ground arith in
      let same : ((text ++ decimal_text v) ++ b' ' ∷ []) ++ row_text seats
          ≡ text ++ (decimal_text v ++ b' ' ∷ row_text seats) =
        simp (append_assoc) in
      rw inside (
        fetch_lem P stale int_size v (seats_bytes seats ++ rest) text
          (λ seat. print_number nonzero seat spaced) o sized fits.0
          (record {
            flowing = r.flowing;
            coming = r.coming ∙ append_assoc (encode int_size v) (seats_bytes seats) rest;
            output = r.output;
          })
          λ o1 r1.
            print_number_lem P nonzero v (seats_bytes seats ++ rest) text spaced o1 refl fits.0 r1
              λ o2 r2.
                print_text_lem P nonzero (b' ' ∷ []) (seats_bytes seats ++ rest)
                  (text ++ decimal_text v) onward o2 refl r2
                  λ o3 r3.
                    print_row_lem num_cols (j + 1) seats rest
                      ((text ++ decimal_text v) ++ b' ' ∷ []) next o3 (omega arith) fits.1 r3
                      λ o4 r4. more o4 (subst (λ t. Reads rest t o4) same r4))

  print_rows_lem :
      (cols rows : ℕ) (seats : List ℕ) (text : Bytes) (next : Outcome → Outcome) (o : Outcome)
      → length seats ≡ rows * cols
      → AllUints seats
      → Reads (seats_bytes seats) text o
      → ((o' : Outcome) → Reads [] (text ++ grid_text cols rows seats) o' → P (next o'))
      → P (print_rows stale cols rows next o)
  unfolding print_rows grid_text seats_bytes
  print_rows_lem cols zero [] text next o size fits r more = more o (record {
    flowing = r.flowing;
    coming = r.coming;
    output = r.output ∙ ap (λ t. sink [] t) (sym (append-nil text));
  })
  print_rows_lem cols zero (v ∷ seats) text next o size fits r more = absurd (omega arith)
  print_rows_lem cols (suc rows) seats text next o size fits r more =
      let row = take cols seats in
      let others = drop cols seats in
      let onward = print_rows stale cols rows next in
      let (row_fits, others_fit) = split-AllUints cols seats fits in
      let wide : length row ≡ cols = length-take cols seats (grind (arith, size)) in
      let counted : length others ≡ rows * cols =
        omega
          (arith, size, wide, length-append row others, ap length (take-append-drop cols seats)) in
      let split : seats_bytes seats ≡ seats_bytes row ++ seats_bytes others =
        ap (λ t. seats_bytes t) (sym (take-append-drop cols seats))
        ∙ seats_bytes-append row others in
      let same : ((text ++ row_text row) ++ b'\n' ∷ []) ++ grid_text cols rows others
          ≡ text ++ (row_text row ++ b'\n' ∷ grid_text cols rows others) =
        simp (append_assoc) in
      subst (λ n. P (print_row stale cols n 0 (print_newline onward) o)) wide
        (print_row_lem cols 0 row (seats_bytes others) text (print_newline onward) o (omega arith)
          row_fits (record { flowing = r.flowing; coming = r.coming ∙ split; output = r.output })
          λ o1 r1.
            print_newline_lem P (seats_bytes others) (text ++ row_text row) onward o1 r1 λ o2 r2.
              print_rows_lem cols rows others ((text ++ row_text row) ++ b'\n' ∷ []) next o2 counted
                others_fit r2 λ o3 r3. more o3 (subst (λ t. Reads [] t o3) same r3))

  -- The answer that the server sends for an event, after the result: the grid is printed.
  pub show_answer_lem :
      (e : Event) (text : Bytes) (finish : ℕ → Outcome → Outcome) (result : ℕ) (o : Outcome)
      → IsValid e
      → HasTypes e
      → Reads (encode size_size e.rows ++ (encode size_size e.cols ++ seats_bytes e.seats)) text o
      → ((o' : Outcome)
          → Reads [] (text ++ grid_text e.cols e.rows e.seats) o'
          → P (finish result o'))
      → P (show_answer stale finish result o)
  unfolding show_answer
  show_answer_lem e text finish result o valid types r more =
      let grid = λ (rows cols : ℕ). print_rows stale cols rows (finish result) in
      fetch_lem P stale size_size e.rows (encode size_size e.cols ++ seats_bytes e.seats) text
        (λ rows. fetch stale size_size (grid rows)) o sized types.rows-lt r
        λ o1 r1.
          fetch_lem P stale size_size e.cols (seats_bytes e.seats) text (grid e.rows) o1 sized
            types.cols-lt r1
            λ o2 r2.
              print_rows_lem e.cols e.rows e.seats text (finish result) o2 valid.size
                types.seats_fit r2 more
