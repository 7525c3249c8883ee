-- ===== src/Seats/Booking.antt =====
-- Requests for the seats of one event, one after another.
use event_management_server.Base.{
  ℕ, suc, ◌+◌, ◌≤◌, ◌<◌, ◌≡◌, refl, subst, ◌∙◌, true, false, ◌&&◌, some, List, [], ◌∷◌, arith, ◌==◌,
  Bool-cases, inl, inr, ◌↔◌, uint_mod,
}
use event_management_server.Seats.{
  Event, Seat, Reservation, refused, granted, corrupted, reserve_event,
}
use event_management_server.Seats.Index.{IsValid, InRange}
use event_management_server.Seats.Reserve.{
  seat_at, listed, available, Reserved, reserve-available, reserve_event_lem,
}

-- A request that names a held seat cannot be granted.
not-available_of_held :
    (e : Event) (x y v : ℕ) (seats : List Seat)
    → seat_at e x y ≡ some (suc v)
    → listed x y seats ≡ true
    → available e seats ≡ false
unfolding available
not-available_of_held e x y v [] h l = cc
not-available_of_held e x y v ((x', y') ∷ rest) h l = elim (Bool-cases (x' == x && y' == y)) [
  | inl same ↦
      let ex : x' ≡ x = ground arith in let ey : y' ≡ y = ground arith in rw (ex, ey) (ground arith)
  | inr other ↦ ground (arith, not-available_of_held e x y v rest h)
]

-- What a request leaves behind, granted or not. A `corrupted` array is not followed further.
unfoldable pub after_request : Event → Reservation → Event
after_request e refused = e
after_request e (granted e') = e'
after_request e corrupted = e

module _ (e : Event) (seats : List Seat) (v : IsValid e) where
  pub granted-Reserved :
      (e' : Event)
      → reserve_event e seats ≡ granted e'
      → (available e seats ≡ true) × Reserved e seats e'
  granted-Reserved e' eq = elim (reserve_event_lem e seats v) [
    | inl (refusal, _) ↦ cc
    | inr (other, grant, ready, a) ↦
        let same : other ≡ e' = cc in (ready, subst (λ w. Reserved e seats w) same a)
  ]

-- One request after another.
unfoldable pub serve : Event → List (List Seat) → Event
unfolding after_request
serve e [] = e
serve e (request ∷ rest) = serve (after_request e (reserve_event e request)) rest

-- The event is valid, has its dimensions, and the seat is held by reservation `r + 1`.
pub record Held (rows cols x y r : ℕ) (e : Event) : Type 0 where
  pub valid : IsValid e
  pub same_rows : e.rows ≡ rows
  pub same_cols : e.cols ≡ cols
  pub holder : seat_at e x y ≡ some (suc r)

request-Held :
    {rows cols x y r : ℕ} (e : Event) (seats : List Seat)
    → (0 < x) × (x ≤ rows) × (0 < y) × (y ≤ cols)
    → Held rows cols x y r e
    → Held rows cols x y r (after_request e (reserve_event e seats))
unfolding after_request
request-Held {x} {y} {r} e seats range h = elim (reserve_event_lem e seats h.valid) [
  | inl (eq, busy) ↦ rw eq h
  | inr (e', eq, ready, a) ↦
      let other : listed x y seats ≡ false =
        ground (arith, not-available_of_held e x y r seats h.holder) in
      let kept : seat_at e' x y ≡ seat_at e x y = a.view x y (omega arith) ∙ rw other refl in
      rw eq (record {
        valid = a.valid;
        same_rows = a.same_rows ∙ h.same_rows;
        same_cols = a.same_cols ∙ h.same_cols;
        holder = kept ∙ h.holder;
      })
]

-- A seat that a reservation holds is held by the same reservation after any further requests, and
-- a request that names it is refused then.
pub serve-Held :
    {rows cols x y r : ℕ} (e : Event) (requests : List (List Seat)) (seats : List Seat)
    → (0 < x) × (x ≤ rows) × (0 < y) × (y ≤ cols)
    → Held rows cols x y r e
    → listed x y seats ≡ true
    → Held rows cols x y r (serve e requests) × (reserve_event (serve e requests) seats ≡ refused)
unfolding serve
serve-Held {x} {y} {r} e [] seats range h named =
    (h, (reserve-available e seats h.valid).0 (not-available_of_held e x y r seats h.holder named))
serve-Held e (request ∷ rest) seats range h named =
    serve-Held (after_request e (reserve_event e request)) rest seats range
      (request-Held e request range h) named

-- No seat is held by a number that the counter has not reached.
pub record IsCounted (e : Event) : Type 0 where
  pub valid : IsValid e
  pub bounded : (x y v : ℕ) → InRange e x y → seat_at e x y ≡ some v → v ≤ e.reservations

-- While the counter has room, a granted request raises it by one and leaves no seat with a number
-- beyond it, and a seat of the event has the new number exactly when the request names it.
pub reserve-IsCounted :
    (e e' : Event) (seats : List Seat) (x y : ℕ)
    → IsCounted e
    → e.reservations + 1 < uint_mod
    → reserve_event e seats ≡ granted e'
    → InRange e x y
    → IsCounted e'
      × (e'.reservations ≡ e.reservations + 1)
      × (seat_at e' x y ≡ some e'.reservations ↔ listed x y seats ≡ true)
reserve-IsCounted e e' seats x y c room eq r =
    let a = (granted-Reserved e seats c.valid e' eq).1 in
    let counted : e'.reservations ≡ e.reservations + 1 = omega (arith, a.same_reservations) in
    (
      record {
        valid = a.valid;
        bounded = λ x y v r h.
            let r' : InRange e x y = omega (arith, a.same_rows, a.same_cols) in
            ground (arith, counted, a.view x y (omega arith), c.bounded x y v r');
      },
      counted,
      (
        λ h.
            ground (arith, counted, a.view x y (omega arith), c.bounded x y (e.reservations + 1) r),
        λ l. ground (arith, counted, a.view x y (omega arith)),
      ),
    )
