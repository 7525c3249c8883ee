-- ===== src/Parser/Lines.antt =====
-- The lines of a .jobs file, as they are documented, and the parse functions of src/client/parser.c on
-- them.
use event_management_server.Base.{
  ℕ, zero, suc, ◌<◌, ◌≡◌, refl, ◌∙◌, Bool, true, false, ◌||◌, none, some, List, [], ◌∷◌, ◌++◌,
  arith, length, ltb, append_assoc, ◌==◌, if◌then◌else◌, Bool-cases, inl, inr, uint_mod,
}
use event_management_server.Io.Descriptor.{Bytes, Source, file}
use event_management_server.Number.Print.{decimal_text, decimal_text-IsDecimal}
use event_management_server.Number.Parse.{parse-print_uint}
use event_management_server.Seats.{Seat}
use event_management_server.Parser.{
  ok, failed, parse_create, parse_seats, parse_reserve, parse_show, parse_wait, after_delay,
  line_end,
}
use event_management_server.Parser.Text.{
  after_line, after_line_number, cleanup-file, number-file, byte-file,
}

-- The arguments of a command and the end of the line, in front of `rest`.
unfoldable pub create_line : ℕ → ℕ → ℕ → Bytes → Bytes
create_line event_id num_rows num_cols rest =
    decimal_text event_id
    ++ b' ' ∷ (decimal_text num_rows ++ b' ' ∷ (decimal_text num_cols ++ b'\n' ∷ rest))

pub seat_text : Seat → Bytes → Bytes
seat_text (x, y) rest = b'(' ∷ (decimal_text x ++ b',' ∷ (decimal_text y ++ b')' ∷ rest))

-- The seats of a list that is not empty, up to the end of the line.
pub seats_text : List Seat → Bytes → Bytes
unfolding seat_text
seats_text [] rest = b']' ∷ b'\n' ∷ rest
seats_text (s ∷ []) rest = seat_text s (b']' ∷ b'\n' ∷ rest)
seats_text (s ∷ t ∷ seats) rest = seat_text s (b' ' ∷ seats_text (t ∷ seats) rest)

unfoldable pub reserve_line : ℕ → List Seat → Bytes → Bytes
unfolding seats_text
reserve_line event_id seats rest = decimal_text event_id ++ b' ' ∷ b'[' ∷ seats_text seats rest

abbrev pub Small : List Seat → Type 0
Small [] = Unit {0}
Small ((x, y) ∷ seats) = (x < uint_mod) × (y < uint_mod) × Small seats

after_line_seat :
    (x y c : ℕ) (rest : Bytes)
    → x < uint_mod
    → y < uint_mod
    → after_line (seat_text (x, y) (c ∷ rest)) ≡ after_line (c ∷ rest)
unfolding seat_text after_line
after_line_seat x y c rest small_x small_y =
    after_line_number x b',' _ small_x ∙ after_line_number y b')' (c ∷ rest) small_y

after_line_seats :
    (s : Seat) (seats : List Seat) (rest : Bytes)
    → Small (s ∷ seats)
    → after_line (seats_text (s ∷ seats) rest) ≡ rest
unfolding seats_text after_line
after_line_seats (x, y) [] rest (small_x, small_y, small) =
    after_line_seat x y b']' (b'\n' ∷ rest) small_x small_y
after_line_seats (x, y) (t ∷ seats) rest (small_x, small_y, small) =
    after_line_seat x y b' ' (seats_text (t ∷ seats) rest) small_x small_y
    ∙ after_line_seats t seats rest small

module _ (stack : Source → Bytes) (size : (src : Source) → length (stack src) ≡ 16) where
  -- A line with a command's arguments as `CREATE` has them gives these numbers, and what follows
  -- the line is left to read.
  pub parse_create_lem :
      (event_id num_rows num_cols : ℕ) (rest : Bytes)
      → event_id < uint_mod
      → num_rows < uint_mod
      → num_cols < uint_mod
      → parse_create stack (file (create_line event_id num_rows num_cols rest))
        ≡ (ok (event_id, num_rows, num_cols), file rest)
  unfolding parse_create create_line
  parse_create_lem event_id num_rows num_cols rest small_id small_rows small_cols = rw (
    number-file stack size (λ c. c == b' ') event_id b' '
        (decimal_text num_rows ++ b' ' ∷ (decimal_text num_cols ++ b'\n' ∷ rest)) small_id refl,
    number-file stack size (λ c. c == b' ') num_rows b' ' (decimal_text num_cols ++ b'\n' ∷ rest)
        small_rows refl,
    number-file stack size line_end num_cols b'\n' rest small_cols refl,
  )

  parse_seats_lem :
      (room : ℕ) (seats : List Seat) (s : Seat) (more : List Seat) (rest : Bytes)
      → Small (s ∷ more)
      → parse_seats stack room seats (file (seats_text (s ∷ more) rest))
        ≡ ((if ltb (suc (length more)) room then ok (seats ++ s ∷ more) else failed), file rest)
  unfolding parse_seats seats_text after_line
  parse_seats_lem zero seats s more rest small =
      let long : ltb (suc (length more)) zero ≡ false = ground arith in
      rw (long, cleanup-file (seats_text (s ∷ more) rest), after_line_seats s more rest small) refl
  parse_seats_lem (suc room) seats (x, y) [] rest (small_x, small_y, small) =
      rw
        (
          byte-file (λ c. c == b'(') b'('
              (decimal_text x ++ b',' ∷ (decimal_text y ++ b')' ∷ b']' ∷ b'\n' ∷ rest)),
          number-file stack size (λ c. c == b',') x b','
              (decimal_text y ++ b')' ∷ b']' ∷ b'\n' ∷ rest) small_x refl,
          number-file stack size (λ c. c == b')') y b')' (b']' ∷ b'\n' ∷ rest) small_y refl,
          byte-file (λ c. c == b' ' || c == b']') b']' (b'\n' ∷ rest),
        )
        (elim (Bool-cases (room == 0)) [
          | inl full ↦
              let over : ltb 1 (suc room) ≡ false = ground arith in
              rw (full, over) (rw (cleanup-file (b'\n' ∷ rest)) refl)
          | inr more ↦
              let under : ltb 1 (suc room) ≡ true = ground arith in
              rw (more, under) (rw (byte-file line_end b'\n' rest) refl)
        ])
  parse_seats_lem (suc room) seats (x, y) (t ∷ more) rest (small_x, small_y, small) =
      let same : ltb (suc (suc (length more))) (suc room) ≡ ltb (suc (length more)) room =
        ground arith in
      rw
        (
          byte-file (λ c. c == b'(') b'('
              (decimal_text x
                ++ b',' ∷ (decimal_text y ++ b')' ∷ b' ' ∷ seats_text (t ∷ more) rest)),
          number-file stack size (λ c. c == b',') x b','
              (decimal_text y ++ b')' ∷ b' ' ∷ seats_text (t ∷ more) rest) small_x refl,
          number-file stack size (λ c. c == b')') y b')' (b' ' ∷ seats_text (t ∷ more) rest) small_y
              refl,
          byte-file (λ c. c == b' ' || c == b']') b' ' (seats_text (t ∷ more) rest),
        )
        (parse_seats_lem room (seats ++ (x, y) ∷ []) t more rest small
          ∙ rw (append_assoc seats ((x, y) ∷ []) (t ∷ more), same) refl)

  -- A `RESERVE` line with one seat or more gives the event and the seats in the order of the line
  -- when there are fewer seats than `max`, and fails when there are `max` seats or more. Either
  -- way the next line is what is left to read.
  pub parse_reserve_lem :
      (max event_id : ℕ) (s : Seat) (more : List Seat) (rest : Bytes)
      → event_id < uint_mod
      → Small (s ∷ more)
      → parse_reserve stack max (file (reserve_line event_id (s ∷ more) rest))
        ≡ ((if ltb (suc (length more)) max then ok (event_id, s ∷ more) else failed), file rest)
  unfolding parse_reserve reserve_line
  parse_reserve_lem max event_id s more rest small_id small =
      rw
        (
          number-file stack size (λ c. c == b' ') event_id b' ' (b'[' ∷ seats_text (s ∷ more) rest)
              small_id refl,
          byte-file (λ c. c == b'[') b'[' (seats_text (s ∷ more) rest),
          parse_seats_lem max [] s more rest small,
        )
        (elim (Bool-cases (ltb (suc (length more)) max)) [
          | inl fits ↦ rw fits refl
          | inr over ↦ rw over refl
        ])

  -- A `CREATE` line that ends after the event's id fails, and what is left to read is what
  -- follows the next line: the line after it is skipped as well.
  pub parse_create_short_line :
      (event_id : ℕ) (rest : Bytes)
      → event_id < uint_mod
      → parse_create stack (file (decimal_text event_id ++ b'\n' ∷ rest))
        ≡ (failed, file (after_line rest))
  unfolding parse_create
  parse_create_short_line event_id rest small_id =
      rw (number-file stack size (λ c. c == b' ') event_id b'\n' rest small_id refl) refl

  pub parse_show_lem :
      (event_id : ℕ) (rest : Bytes)
      → event_id < uint_mod
      → parse_show stack (file (decimal_text event_id ++ b'\n' ∷ rest)) ≡ (ok event_id, file rest)
  unfolding parse_show
  parse_show_lem event_id rest small_id =
      number-file stack size line_end event_id b'\n' rest small_id refl

  -- `parse_wait` on a line with the delay alone, and on one with a delay and a thread: with no
  -- variable for the thread the number is skipped up to the end of the line.
  pub parse_wait_lem :
      (with_thread : Bool) (delay thread_id : ℕ) (rest : Bytes)
      → delay < uint_mod
      → thread_id < uint_mod
      → (parse_wait stack with_thread (file (decimal_text delay ++ b'\n' ∷ rest))
          ≡ (ok (delay, none), file rest))
        × (parse_wait stack with_thread
              (file (decimal_text delay ++ b' ' ∷ (decimal_text thread_id ++ b'\n' ∷ rest)))
            ≡ (ok (delay, if with_thread then some thread_id else none), file rest))
  unfolding parse_wait after_delay after_line
  parse_wait_lem with_thread delay thread_id rest small_delay small_thread = (
    rw
        (parse-print_uint (stack (file (decimal_text delay ++ b'\n' ∷ rest))) delay b'\n'
          (decimal_text delay) rest (size _) small_delay (decimal_text-IsDecimal delay small_delay)
          refl)
        refl,
    rw
        (parse-print_uint
          (stack (file (decimal_text delay ++ b' ' ∷ (decimal_text thread_id ++ b'\n' ∷ rest))))
          delay b' ' (decimal_text delay) (decimal_text thread_id ++ b'\n' ∷ rest) (size _)
          small_delay (decimal_text-IsDecimal delay small_delay) refl)
        (elim (Bool-cases with_thread) [
          | inl thread ↦
              rw (thread, number-file stack size line_end thread_id b'\n' rest small_thread refl)
                refl
          | inr ignored ↦
              rw
                (
                  ignored,
                  cleanup-file (decimal_text thread_id ++ b'\n' ∷ rest),
                  after_line_number thread_id b'\n' rest small_thread,
                )
                refl
        ]),
  )
