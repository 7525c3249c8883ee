-- ===== src/Seats.antt =====
-- The seats of one event: `seat_index` and the critical section of `ems_reserve`
-- (src/server/operations.c), on the event's value. The mutex of the event is held throughout.
pub mod Index
pub mod Scan
pub mod Reserve
pub mod Booking
pub mod Overflow
pub mod Types
use event_management_server.Base.{
  ℕ, zero, suc, ◌+◌, ◌-◌, ◌*◌, ◌%◌, Bool, true, false, ◌||◌, Option, none, some, List, [], ◌∷◌,
  get_elem?, set, length, replicate, ltb, leb, ◌==◌, if◌then◌else◌, uint_mod, size_mod,
}

-- `seats` is the array `data`.
pub record Event : Type 0 where
  pub id : ℕ
  pub reservations : ℕ
  pub cols : ℕ
  pub rows : ℕ
  pub seats : List ℕ

-- A requested seat, `(xs[i], ys[i])`.
abbrev pub Seat : Type 0
Seat = ℕ × ℕ

-- (row - 1) * event->cols + col - 1, in size_t
unfoldable pub seat_index : Event → ℕ → ℕ → ℕ
seat_index e row col = ((row + size_mod - 1) % size_mod * e.cols + col + size_mod - 1) % size_mod

-- The number of iterations of the loop over all seats: event->rows * event->cols, in size_t.
unfoldable pub seat_count : Event → ℕ
seat_count e = (e.rows * e.cols) % size_mod

-- The loop that returns 1 at the first seat out of bounds.
unfoldable pub in_bounds : Event → List Seat → Bool
in_bounds e [] = true
in_bounds e ((x, y) ∷ rest) =
    if leb x 0 || ltb e.rows x || leb y 0 || ltb e.cols y then false else in_bounds e rest

-- `overrun`: a read or a write outside the array.
pub data Check : Type 0 where
  vacant taken overrun : Check

-- The inner loop over the requested seats, for the array index `i`.
unfoldable pub check_cell : Event → ℕ → List Seat → Check
check_cell e i [] = vacant
check_cell e i ((x, y) ∷ rest) =
    if seat_index e x y == i
    then elim (get_elem? e.seats i) [ none ↦ overrun | some v ↦ if v == 0 then vacant else taken ]
    else check_cell e i rest

-- The outer loop, with `n` rounds left.
unfoldable pub scan : Event → List Seat → ℕ → ℕ → Check
unfolding check_cell
scan e seats zero i = vacant
scan e seats (suc n) i = elim (check_cell e i seats) [
  | vacant ↦ scan e seats n (i + 1)
  | taken ↦ taken
  | overrun ↦ overrun
]

-- The writes; `none` is a write outside the array.
unfoldable pub assign : Event → ℕ → List Seat → Option Event
assign e id [] = some e
assign e id ((x, y) ∷ rest) =
    let i = seat_index e x y in
    let stored = assign (record e { seats = set e.seats i id }) id rest in
    if ltb i (length e.seats) then stored else none

pub data Reservation : Type 0 where
  refused : Reservation
  granted : Event → Reservation
  corrupted : Reservation

granted_or : Option Event → Reservation
granted_or none = corrupted
granted_or (some e) = granted e

-- ++event->reservations, in unsigned int
abbrev pub next_reservation : Event → ℕ
next_reservation e = (e.reservations + 1) % uint_mod

after_scan : Event → List Seat → Check → Reservation
unfolding assign granted_or
after_scan e seats vacant =
    let id = next_reservation e in granted_or (assign (record e { reservations = id }) id seats)
after_scan e seats taken = refused
after_scan e seats overrun = corrupted

unfoldable pub reserve_event : Event → List Seat → Reservation
unfolding in_bounds after_scan
reserve_event e seats =
    if in_bounds e seats then after_scan e seats (scan e seats (seat_count e) 0) else refused

-- The event that `ems_create` fills in: calloc(num_rows * num_cols, sizeof(unsigned int)).
unfoldable pub new_event : ℕ → ℕ → ℕ → Event
new_event id num_rows num_cols = record {
  id = id;
  reservations = 0;
  cols = num_cols;
  rows = num_rows;
  seats = replicate ((num_rows * num_cols) % size_mod) 0;
}
