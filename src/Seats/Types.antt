-- ===== src/Seats/Types.antt =====
-- The types of the fields of `struct Event` (src/server/eventlist.h).
use event_management_server.Base.{
  ℕ, zero, suc, ◌*◌, ◌%◌, ◌<◌, ◌≡◌, refl, ap, ◌∙◌, Option-cases, some, List, [], ◌∷◌, arith, set,
  length, take, drop, replicate, ltb, Bool-cases, inl, inr, uint_mod, size_mod,
}
use event_management_server.Seats.{
  Event, Seat, Check, vacant, taken, overrun, granted, granted_or, seat_index, assign, after_scan,
  scan, seat_count, in_bounds, reserve_event, new_event, next_reservation,
}

abbrev pub AllUints : List ℕ → Type 0
AllUints [] = Unit {0}
AllUints (v ∷ vs) = (v < uint_mod) × AllUints vs

pub split-AllUints :
    (n : ℕ) (vs : List ℕ) → AllUints vs → AllUints (take n vs) × AllUints (drop n vs)
split-AllUints zero vs h = (tt, h)
split-AllUints (suc n) [] h = (tt, tt)
split-AllUints (suc n) (v ∷ vs) h =
    let (front, back) = split-AllUints n vs h.1 in ((h.0, front), back)

pub record HasTypes (e : Event) : Type 0 where
  pub id-lt : e.id < uint_mod
  pub rows-lt : e.rows < size_mod
  pub cols-lt : e.cols < size_mod
  pub seats_fit : AllUints e.seats

abbrev pub AllTypes : List Event → Type 0
AllTypes [] = Unit {0}
AllTypes (e ∷ es) = HasTypes e × AllTypes es

set-AllUints : (vs : List ℕ) (i v : ℕ) → v < uint_mod → AllUints vs → AllUints (set vs i v)
set-AllUints [] i v small h = tt
set-AllUints (w ∷ vs) zero v small h = (small, h.1)
set-AllUints (w ∷ vs) (suc i) v small h = (h.0, set-AllUints vs i v small h.1)

replicate-AllUints : (n : ℕ) → AllUints (replicate n 0)
replicate-AllUints zero = tt
replicate-AllUints (suc n) = (omega arith, replicate-AllUints n)

assign-HasTypes :
    (e e' : Event) (id : ℕ) (seats : List Seat)
    → id < uint_mod
    → HasTypes e
    → assign e id seats ≡ some e'
    → HasTypes e'
unfolding assign
assign-HasTypes e e' id [] small t h = let same : e ≡ e' = cc in rw (← same) t
assign-HasTypes e e' id ((x, y) ∷ rest) small t h =
    let i = seat_index e x y in
    elim (Bool-cases (ltb i (length e.seats))) [
      | inl within ↦
          assign-HasTypes (record e { seats = set e.seats i id }) e' id rest small
            (record {
              id-lt = t.id-lt;
              rows-lt = t.rows-lt;
              cols-lt = t.cols-lt;
              seats_fit = set-AllUints e.seats i id small t.seats_fit;
            })
            (ground arith)
      | inr outside ↦ absurd (ground arith)
    ]

-- A new event whose arguments fit the types of `ems_create` fits those of its fields.
pub new_event-HasTypes :
    (id rows cols : ℕ)
    → id < uint_mod
    → rows < size_mod
    → cols < size_mod
    → HasTypes (new_event id rows cols)
unfolding new_event
new_event-HasTypes id rows cols h k l = record {
  id-lt = h;
  rows-lt = k;
  cols-lt = l;
  seats_fit = replicate-AllUints ((rows * cols) % size_mod);
}

check-HasTypes :
    (e e' : Event) (seats : List Seat) (check : Check)
    → HasTypes e
    → after_scan e seats check ≡ granted e'
    → HasTypes e'
unfolding after_scan granted_or
check-HasTypes e e' seats vacant t h =
    let numbered : Event = record e { reservations = next_reservation e } in
    elim (Option-cases (assign numbered (next_reservation e) seats)) [
      | inl outside ↦ absurd (ground arith)
      | inr (v, stored) ↦
          let same : v ≡ e' = ground arith in
          assign-HasTypes numbered e' (next_reservation e) seats (omega arith)
            (record {
              id-lt = t.id-lt;
              rows-lt = t.rows-lt;
              cols-lt = t.cols-lt;
              seats_fit = t.seats_fit;
            })
            (stored ∙ ap (λ w. some w) same)
    ]
check-HasTypes e e' seats taken t h = cc
check-HasTypes e e' seats overrun t h = cc

-- A reservation keeps the fields of the event within their types, however often the counter has
-- wrapped around.
pub reserve_event-HasTypes :
    (e e' : Event) (seats : List Seat)
    → HasTypes e
    → reserve_event e seats ≡ granted e'
    → HasTypes e'
unfolding reserve_event
reserve_event-HasTypes e e' seats t h = elim (Bool-cases (in_bounds e seats)) [
  | inl within ↦
      check-HasTypes e e' seats (scan e seats (seat_count e) 0) t
        (rw (← h, within, reserve_event) refl)
  | inr outside ↦ absurd (ground arith)
]
