-- ===== src/Tests/Seats.antt =====
-- Events of two rows and three columns, and the requests on them.
use event_management_server.Base.{◌⊎◌, ◌+◌, ◌≡◌, refl, ◌↔◌, true, false, some, List, [], ◌∷◌, arith}
use event_management_server.Seats.{
  Event, Seat, refused, granted, reserve_event, new_event, in_bounds, seat_index, seat_count, scan,
  check_cell, assign,
}
use event_management_server.Seats.Index.{IsValid, InRange}
use event_management_server.Seats.Reserve.{seat_at, listed, available, Reserved, reserve_event_lem}
use event_management_server.Seats.Booking.{Held, serve, serve-Held, IsCounted, reserve-IsCounted}
use event_management_server.Seats.Overflow.{new_event-IsCounted, reservation_wraps}

abbrev pub concert : Event
concert = record {
  id = 7;
  reservations = 0;
  cols = 3;
  rows = 2;
  seats = 0 ∷ 0 ∷ 0 ∷ 0 ∷ 0 ∷ 0 ∷ [];
}

abbrev pub request : List Seat
request = (1, 1) ∷ (2, 3) ∷ []

abbrev pub booked : Event
booked = record { id = 7; reservations = 1; cols = 3; rows = 2; seats = 1 ∷ 0 ∷ 0 ∷ 0 ∷ 0 ∷ 1 ∷ [] }

pub concert-IsValid : IsValid concert
concert-IsValid = record { size = refl; fits = omega arith }

pub request_granted : reserve_event concert request ≡ granted booked
unfolding reserve_event in_bounds seat_index seat_count scan check_cell assign
request_granted = refl

taken_seat_refused : reserve_event booked ((2, 3) ∷ []) ≡ refused
unfolding reserve_event in_bounds seat_index seat_count scan check_cell assign
taken_seat_refused = refl

outside_refused : reserve_event concert ((3, 1) ∷ []) ≡ refused
unfolding reserve_event in_bounds
outside_refused = refl

reserve_event_lem_example :
    ((reserve_event concert request ≡ refused) × (available concert request ≡ false))
    ⊎ ((e' : Event) × (reserve_event concert request ≡ granted e')
        × (available concert request ≡ true)
        × Reserved concert request e')
reserve_event_lem_example = reserve_event_lem concert request concert-IsValid

booked-IsValid : IsValid booked
booked-IsValid = record { size = refl; fits = omega arith }

booked-Held : Held 2 3 2 3 0 booked
booked-Held = record { valid = booked-IsValid; same_rows = refl; same_cols = refl; holder = refl }

serve-Held_example :
    Held 2 3 2 3 0 (serve booked (((1, 2) ∷ []) ∷ request ∷ []))
    × (reserve_event (serve booked (((1, 2) ∷ []) ∷ request ∷ [])) ((2, 3) ∷ []) ≡ refused)
serve-Held_example =
    serve-Held booked (((1, 2) ∷ []) ∷ request ∷ []) ((2, 3) ∷ [])
      (omega arith, omega arith, omega arith, omega arith) booked-Held refl

corner : InRange (new_event 7 2 3) 2 3
unfolding new_event
corner = record {
  row_pos = omega arith;
  row-le = omega arith;
  col_pos = omega arith;
  col-le = omega arith;
}

concert-IsCounted : IsCounted concert
unfolding new_event
concert-IsCounted = (new_event-IsCounted 7 2 3 2 3 (omega arith) corner).0

last_seat : InRange concert 2 3
last_seat = record {
  row_pos = omega arith;
  row-le = omega arith;
  col_pos = omega arith;
  col-le = omega arith;
}

reserve-IsCounted_example :
    IsCounted booked
    × (booked.reservations ≡ concert.reservations + 1)
    × (seat_at booked 2 3 ≡ some 1 ↔ listed 2 3 request ≡ true)
reserve-IsCounted_example =
    reserve-IsCounted concert booked request 2 3 concert-IsCounted (omega arith) request_granted
      last_seat

abbrev old : Event
old = record {
  id = 7;
  reservations = 4294967295;
  cols = 3;
  rows = 2;
  seats = 0 ∷ 0 ∷ 0 ∷ 0 ∷ 0 ∷ 9 ∷ [];
}

old-IsValid : IsValid old
old-IsValid = record { size = refl; fits = omega arith }

old-available : available old ((1, 2) ∷ []) ≡ true
unfolding available
old-available = refl

reservation_wraps_example :
    (e' e'' : Event) × (reserve_event old ((1, 2) ∷ []) ≡ granted e')
    × (e'.reservations ≡ 0)
    × (reserve_event e' ((1, 2) ∷ []) ≡ granted e'')
reservation_wraps_example = reservation_wraps old ((1, 2) ∷ []) old-IsValid refl old-available
