-- ===== src/Seats/Scan.antt =====
-- The scan for a taken seat, against the seats' own states.
use event_management_server.Base.{
  ℕ, zero, suc, ◌+◌, ◌<◌, ◌≡◌, refl, Bool, true, false, ◌&&◌, ◌||◌, none, some, List, [], ◌∷◌,
  arith, length, get_elem?, get_elem?_total, ltb, leb, ◌==◌, if◌then◌else◌, Bool-cases, ==_iff, inl,
  inr,
}
use event_management_server.Seats.{Event, Seat, seat_index, vacant, taken, check_cell, scan}

-- The element at an index is there and holds 0.
abbrev pub is_zero_at : List ℕ → ℕ → Bool
is_zero_at cells i = elim (get_elem? cells i) [ none ↦ false | some v ↦ v == 0 ]

-- Every requested seat whose index is `i` or more holds 0.
unfoldable pub zero_from : Event → ℕ → List Seat → Bool
zero_from e i [] = true
zero_from e i ((x, y) ∷ rest) =
    (ltb (seat_index e x y) i || is_zero_at e.seats (seat_index e x y)) && zero_from e i rest

mentions : Event → ℕ → List Seat → Bool
mentions e i [] = false
mentions e i ((x, y) ∷ rest) = seat_index e x y == i || mentions e i rest

check_cell_lem :
    (e : Event) (i v : ℕ) (seats : List Seat)
    → get_elem? e.seats i ≡ some v
    → check_cell e i seats ≡ (if mentions e i seats && leb 1 v then taken else vacant)
unfolding check_cell mentions
check_cell_lem e i v [] h = refl
check_cell_lem e i v ((x, y) ∷ rest) h = ground (arith, check_cell_lem e i v rest h)

zero_from-suc :
    (e : Event) (i v : ℕ) (seats : List Seat)
    → get_elem? e.seats i ≡ some v
    → zero_from e i seats
      ≡ (if mentions e i seats && leb 1 v then false else zero_from e (i + 1) seats)
unfolding zero_from mentions
zero_from-suc e i v [] h = refl
zero_from-suc e i v ((x, y) ∷ rest) h = elim (Bool-cases (seat_index e x y == i)) [
  | inl here ↦
      let at : get_elem? e.seats (seat_index e x y) ≡ some v =
        rw ((==_iff (seat_index e x y) i).0 here) h in
      ground (arith, at, zero_from-suc e i v rest h)
  | inr other ↦ ground (arith, zero_from-suc e i v rest h)
]

-- All indices of the requested seats lie below `n`.
abbrev pub Below : Event → ℕ → List Seat → Type 0
Below e n [] = Unit {0}
Below e n ((x, y) ∷ rest) = (seat_index e x y < n) × Below e n rest

zero_from-end :
    (e : Event) (n : ℕ) (seats : List Seat) → Below e n seats → zero_from e n seats ≡ true
unfolding zero_from
zero_from-end e n [] h = refl
zero_from-end e n ((x, y) ∷ rest) h = ground (arith, zero_from-end e n rest h.1)

-- The scan meets no index out of range, and reports a taken seat if there is one.
pub scan_lem :
    (e : Event) (seats : List Seat) (n i : ℕ)
    → i + n ≡ length e.seats
    → Below e (length e.seats) seats
    → scan e seats n i ≡ (if zero_from e i seats then vacant else taken)
unfolding scan
scan_lem e seats zero i all below =
    let done : i ≡ length e.seats = omega arith in
    rw (done, zero_from-end e (length e.seats) seats below)
scan_lem e seats (suc n) i all below =
    let (v, at) = get_elem?_total e.seats i (omega arith) in
    ground (
      arith,
      check_cell_lem e i v seats at,
      zero_from-suc e i v seats at,
      scan_lem e seats n (i + 1) (omega arith) below,
    )
