-- ===== src/Seats/Overflow.antt =====
-- New events, and the two places where an unsigned number wraps around.
use event_management_server.Base.{
  ℕ, ◌+◌, ◌-◌, ◌*◌, ◌%◌, ◌<◌, ◌≡◌, refl, ◌∙◌, true, some, List, [], ◌∷◌, arith, length,
  length-replicate, get_elem?-replicate, uint_mod, size_mod,
}
use event_management_server.Seats.{
  Event, Seat, seat_count, in_bounds, scan, granted, corrupted, reserve_event, new_event,
  next_reservation,
}
use event_management_server.Seats.Index.{IsValid, InRange, grid_index}
use event_management_server.Seats.Scan.{is_zero_at}
use event_management_server.Seats.Reserve.{within-InRange, seat_at, available, reserve-available}
use event_management_server.Seats.Booking.{IsCounted}

-- A new event whose dimensions do not overflow is valid, no seat has a number beyond its counter,
-- and each of its seats is free.
pub new_event-IsCounted :
    (id rows cols x y : ℕ)
    → rows * cols < size_mod
    → InRange (new_event id rows cols) x y
    → IsCounted (new_event id rows cols) × (seat_at (new_event id rows cols) x y ≡ some 0)
unfolding new_event
new_event-IsCounted id rows cols x y fits range =
    let small : (rows * cols) % size_mod ≡ rows * cols = omega arith in
    let free = λ (x y : ℕ) (r : InRange (new_event id rows cols) x y).
      get_elem?-replicate {A = ℕ} ((rows * cols) % size_mod) ((x - 1) * cols + (y - 1)) 0
        (omega (arith, grid_index (x - 1) (y - 1) rows cols (omega arith) (omega arith))) in
    (
      record {
        valid = omega (arith, length-replicate {A = ℕ} ((rows * cols) % size_mod) 0);
        bounded = λ x y v r h. ground (arith, free x y r);
      },
      free x y range,
    )

product_bound : (a b m : ℕ) → a < m → b < m → a * b < m * m
product_bound a b m h k = grind arith

-- Dimensions of 32 bits, as the client's parser delivers them, do not overflow.
pub dimensions_fit : (rows cols : ℕ) → rows < uint_mod → cols < uint_mod → rows * cols < size_mod
dimensions_fit rows cols h k = product_bound rows cols uint_mod h k

-- A request that was available is so in an event that keeps its free seats.
available-keep :
    (e e' : Event) (seats : List Seat)
    → e'.rows ≡ e.rows
    → e'.cols ≡ e.cols
    → ((x y : ℕ)
        → InRange e x y
        → is_zero_at e.seats ((x - 1) * e.cols + (y - 1)) ≡ true
        → is_zero_at e'.seats ((x - 1) * e'.cols + (y - 1)) ≡ true)
    → available e seats ≡ true
    → available e' seats ≡ true
unfolding available
available-keep e e' [] p q keep h = refl
available-keep e e' ((x, y) ∷ rest) p q keep h =
    let range : InRange e x y = within-InRange e x y (ground arith) in
    let more = available-keep e e' rest p q keep (ground arith) in
    ground (arith, keep x y range, more)

-- The reservation that follows number 2^32 - 1 gets the number 0: its request is granted, and its
-- seats are then as free as before, so the same request is granted again.
pub reservation_wraps :
    (e : Event) (seats : List Seat)
    → IsValid e
    → e.reservations + 1 ≡ uint_mod
    → available e seats ≡ true
    → (e' e'' : Event) × (reserve_event e seats ≡ granted e')
      × (e'.reservations ≡ 0)
      × (reserve_event e' seats ≡ granted e'')
reservation_wraps e seats v full ready =
    let (e', eq, a) = (reserve-available e seats v).1 ready in
    let zero : next_reservation e ≡ 0 = omega arith in
    let again : available e' seats ≡ true =
      available-keep e e' seats a.same_rows a.same_cols
        (λ x y r h. ground (arith, zero, a.view x y (omega arith))) ready in
    let (e'', eq', _) = (reserve-available e' seats a.valid).1 again in
    (e', e'', eq, a.same_reservations ∙ zero, eq')

-- With no array, the first write of a request that passed the bounds test is outside it.
no_array :
    (e : Event) (x y : ℕ) (rest : List Seat)
    → length e.seats ≡ 0
    → seat_count e ≡ 0
    → in_bounds e ((x, y) ∷ rest) ≡ true
    → reserve_event e ((x, y) ∷ rest) ≡ corrupted
unfolding reserve_event scan
no_array e x y rest empty none_left good = rw (good, none_left) (ground arith)

-- Where rows * cols is a multiple of 2^64, calloc gives an array of no elements, yet the bounds
-- test lets requests through: the first write of a request is then outside the array.
pub overflow_corrupts :
    (id rows cols x y : ℕ) (rest : List Seat)
    → (rows * cols) % size_mod ≡ 0
    → in_bounds (new_event id rows cols) ((x, y) ∷ rest) ≡ true
    → reserve_event (new_event id rows cols) ((x, y) ∷ rest) ≡ corrupted
unfolding new_event seat_count
overflow_corrupts id rows cols x y rest wraps good =
    no_array (new_event id rows cols) x y rest
      (length-replicate ((rows * cols) % size_mod) 0 ∙ wraps) wraps good
