-- ===== src/Seats/Reserve.antt =====
-- `ems_reserve` on one event, against the state of its seats by row and column.
use event_management_server.Base.{
  ◌⊎◌, ℕ, ◌+◌, ◌-◌, ◌*◌, ◌≡◌, refl, Bool, true, false, ◌&&◌, ◌||◌, Option, some, List, [], ◌∷◌,
  arith, length, get_elem?, set, length-set, get_elem?-set_self, get_elem?-set_ne, leb, ◌==◌,
  if◌then◌else◌, Bool-cases, inl, inr,
}
use event_management_server.Seats.{
  Event, Seat, seat_index, seat_count, in_bounds, assign, refused, granted, next_reservation,
  reserve_event,
}
use event_management_server.Seats.Index.{
  IsValid, InRange, seat_index_lem, seat_index-lt, seat_index_injective,
}
use event_management_server.Seats.Scan.{is_zero_at, zero_from, Below, scan_lem}

-- The reservation that holds the seat in row `x` and column `y`; 0 for none.
abbrev pub seat_at : Event → ℕ → ℕ → Option ℕ
seat_at e x y = get_elem? e.seats ((x - 1) * e.cols + (y - 1))

abbrev pub listed : ℕ → ℕ → List Seat → Bool
listed x y [] = false
listed x y ((x', y') ∷ rest) = (x' == x && y' == y) || listed x y rest

abbrev pub within : Event → ℕ → ℕ → Bool
within e x y = leb 1 x && leb x e.rows && leb 1 y && leb y e.cols

-- Every requested seat exists and is held by no reservation.
unfoldable pub available : Event → List Seat → Bool
available e [] = true
available e ((x, y) ∷ rest) =
    within e x y && is_zero_at e.seats ((x - 1) * e.cols + (y - 1)) && available e rest

pub within-InRange : (e : Event) (x y : ℕ) → within e x y ≡ true → InRange e x y
within-InRange e x y h = ground arith

available-scan :
    (e : Event) (seats : List Seat)
    → IsValid e
    → available e seats ≡ (in_bounds e seats && zero_from e 0 seats)
unfolding available in_bounds zero_from
available-scan e [] v = refl
available-scan e ((x, y) ∷ rest) v = elim (Bool-cases (within e x y)) [
  | inl good ↦
      ground (arith, seat_index_lem e x y v (within-InRange e x y good), available-scan e rest v)
  | inr bad ↦ ground arith
]

abbrev pub AllInRange : Event → List Seat → Type 0
AllInRange e [] = Unit {0}
AllInRange e ((x, y) ∷ rest) = InRange e x y × AllInRange e rest

in_bounds-AllInRange :
    (e : Event) (seats : List Seat) → in_bounds e seats ≡ true → AllInRange e seats
unfolding in_bounds
in_bounds-AllInRange e [] h = tt
in_bounds-AllInRange e ((x, y) ∷ rest) h =
    (within-InRange e x y (ground arith), in_bounds-AllInRange e rest (ground arith))

AllInRange-Below :
    (e : Event) (seats : List Seat)
    → IsValid e
    → AllInRange e seats
    → Below e (length e.seats) seats
AllInRange-Below e [] v h = tt
AllInRange-Below e ((x, y) ∷ rest) v h = (seat_index-lt e x y v h.0, AllInRange-Below e rest v h.1)

-- The event `e'` is `e` with the seats of the request held by reservation `id`.
pub record Assigned (e : Event) (id : ℕ) (seats : List Seat) (e' : Event) : Type 0 where
  pub same_id : e'.id ≡ e.id
  pub same_rows : e'.rows ≡ e.rows
  pub same_cols : e'.cols ≡ e.cols
  pub same_reservations : e'.reservations ≡ e.reservations
  pub valid : IsValid e'
  pub view :
      (x y : ℕ)
      → InRange e x y
      → seat_at e' x y ≡ (if listed x y seats then some id else seat_at e x y)

abbrev store : Event → ℕ → ℕ → ℕ → Event
store e x y id = record e { seats = set e.seats (seat_index e x y) id }

store-IsValid : (e : Event) (x y id : ℕ) → IsValid e → IsValid (store e x y id)
store-IsValid e x y id v = omega (arith, length-set e.seats (seat_index e x y) id)

store_view :
    (e : Event) (x y id x' y' : ℕ)
    → IsValid e
    → InRange e x y
    → InRange e x' y'
    → seat_at (store e x y id) x' y' ≡ (if x == x' && y == y' then some id else seat_at e x' y')
store_view e x y id x' y' v r r' =
    rw (← seat_index_lem e x' y' v r') (elim (Bool-cases (x == x' && y == y')) [
      | inl same ↦
          let ex : x ≡ x' = ground arith in
          let ey : y ≡ y' = ground arith in
          rw (same, ← ex, ← ey)
            (get_elem?-set_self e.seats (seat_index e x y) id (seat_index-lt e x y v r))
      | inr other ↦ rw other (
          get_elem?-set_ne e.seats (seat_index e x y) (seat_index e x' y') id
            (λ same. ground (arith, seat_index_injective e x y x' y' v r r' same)))
    ])

AllInRange-same :
    (e e' : Event) (seats : List Seat)
    → e'.rows ≡ e.rows
    → e'.cols ≡ e.cols
    → AllInRange e seats
    → AllInRange e' seats
AllInRange-same e e' [] p q h = tt
AllInRange-same e e' ((x', y') ∷ rest) p q h = (omega arith, AllInRange-same e e' rest p q h.1)

-- The writes stay inside the array and change the seats of the request alone.
assign_lem :
    (e : Event) (id : ℕ) (seats : List Seat)
    → IsValid e
    → AllInRange e seats
    → (e' : Event) × (assign e id seats ≡ some e') × Assigned e id seats e'
unfolding assign
assign_lem e id [] v h = (
  e,
  refl,
  record {
    same_id = refl;
    same_rows = refl;
    same_cols = refl;
    same_reservations = refl;
    valid = v;
    view = λ x y r. refl;
  },
)
assign_lem e id ((x, y) ∷ rest) v h =
    let (e', eq, a) =
      assign_lem (store e x y id) id rest (store-IsValid e x y id v)
        (AllInRange-same e (store e x y id) rest refl refl h.1) in
    (
      e',
      ground (arith, seat_index-lt e x y v h.0),
      record {
        same_id = a.same_id;
        same_rows = a.same_rows;
        same_cols = a.same_cols;
        same_reservations = a.same_reservations;
        valid = a.valid;
        view = λ x' y' r'.
            ground (arith, a.view x' y' (omega arith), store_view e x y id x' y' v h.0 r');
      },
    )

-- The event `e'` is `e` with one more reservation, which holds the seats of the request.
abbrev pub Reserved : Event → List Seat → Event → Type 0
Reserved e seats e' =
    Assigned (record e { reservations = next_reservation e }) (next_reservation e) seats e'

seat_count_lem : (e : Event) → IsValid e → 0 + seat_count e ≡ length e.seats
unfolding seat_count
seat_count_lem e v = omega arith

pub reserve-available :
    (e : Event) (seats : List Seat)
    → IsValid e
    → (available e seats ≡ false → reserve_event e seats ≡ refused)
      × (available e seats ≡ true
          → (e' : Event) × (reserve_event e seats ≡ granted e') × Reserved e seats e')
unfolding reserve_event
reserve-available e seats v = elim (Bool-cases (in_bounds e seats)) [
  | inr bad ↦ ground (arith, available-scan e seats v)
  | inl good ↦
      let range = in_bounds-AllInRange e seats good in
      let scanned =
        scan_lem e seats (seat_count e) 0 (seat_count_lem e v) (AllInRange-Below e seats v range) in
      (
        λ no. ground (arith, available-scan e seats v, scanned),
        λ ok.
            let none_taken : zero_from e 0 seats ≡ true =
              ground (arith, available-scan e seats v) in
            let e0 : Event = record e { reservations = next_reservation e } in
            let (e', eq, a) =
              assign_lem e0 (next_reservation e) seats (omega arith)
                (AllInRange-same e e0 seats refl refl range) in
            (e', rw (good, scanned, none_taken, eq) refl, a),
      )
]

-- On an event whose array has rows * cols elements, a request is granted and each of its seats
-- exists and is free, or it is refused and one of them does not or is not; no access leaves the
-- array. A granted
-- request raises the counter by one, modulo 2^32, gives its seats that number and no other seat
-- another one, and keeps the id and the dimensions.
pub reserve_event_lem :
    (e : Event) (seats : List Seat)
    → IsValid e
    → ((reserve_event e seats ≡ refused) × (available e seats ≡ false))
      ⊎ ((e' : Event) × (reserve_event e seats ≡ granted e')
          × (available e seats ≡ true)
          × Reserved e seats e')
reserve_event_lem e seats v = elim (Bool-cases (available e seats)) [
  | inr busy ↦ inl ((reserve-available e seats v).0 busy, busy)
  | inl ready ↦ let (e', eq, r) = (reserve-available e seats v).1 ready in inr (e', eq, ready, r)
]
