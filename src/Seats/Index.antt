-- ===== src/Seats/Index.antt =====
-- `seat_index` on the seats of an event.
use event_management_server.Base.{
  ℕ, ◌+◌, ◌-◌, ◌*◌, ◌/◌, ◌%◌, ◌≤◌, ◌<◌, ◌≡◌, arith, length, sym, ap, ◌∙◌, size_mod,
}
use event_management_server.Seats.{Event, seat_index}

-- The array has rows * cols elements, and their number fits size_t.
pub record IsValid (e : Event) : Type 0 where
  pub size : length e.seats ≡ e.rows * e.cols
  pub fits : e.rows * e.cols < size_mod

-- Row and column count from 1.
pub record InRange (e : Event) (x y : ℕ) : Type 0 where
  pub row_pos : 0 < x
  pub row-le : x ≤ e.rows
  pub col_pos : 0 < y
  pub col-le : y ≤ e.cols

pub grid_index : (a b rows cols : ℕ) → a < rows → b < cols → a * cols + b < rows * cols
grid_index a b rows cols h k = grind arith

pub le_product : (a b : ℕ) → 0 < b → a ≤ a * b
le_product a b h = grind arith

wrapped_pred : (x : ℕ) → 0 < x → x < size_mod + 1 → (x + size_mod - 1) % size_mod ≡ x - 1
wrapped_pred x h k = omega arith

index_bound : (e : Event) (x y : ℕ) → InRange e x y → (x - 1) * e.cols + (y - 1) < e.rows * e.cols
index_bound e x y r = grid_index (x - 1) (y - 1) e.rows e.cols (omega arith) (omega arith)

-- The index in the array: no step of the computation wraps around.
pub seat_index_lem :
    (e : Event) (x y : ℕ)
    → IsValid e
    → InRange e x y
    → seat_index e x y ≡ (x - 1) * e.cols + (y - 1)
unfolding seat_index
seat_index_lem e x y v r =
    let small : x < size_mod + 1 = omega (arith, le_product e.rows e.cols) in
    rw (wrapped_pred x r.row_pos small) (omega (arith, index_bound e x y r))

pub seat_index-lt :
    (e : Event) (x y : ℕ) → IsValid e → InRange e x y → seat_index e x y < length e.seats
seat_index-lt e x y v r = rw (seat_index_lem e x y v r, v.size) (index_bound e x y r)

row_of_index : (a b c : ℕ) → b < c → (a * c + b) / c ≡ a
row_of_index a b c h = grind arith

grid_index_injective :
    (a b a' b' c : ℕ) → b < c → b' < c → a * c + b ≡ a' * c + b' → (a ≡ a') × (b ≡ b')
grid_index_injective a b a' b' c h h' e =
    let rows : a ≡ a' = sym (row_of_index a b c h) ∙ ap (λ t. t / c) e ∙ row_of_index a' b' c h' in
    (rows, omega (arith, ap (λ (t : ℕ). t * c) rows))

-- Two seats of one event with the same index are the same seat.
pub seat_index_injective :
    (e : Event) (x y x' y' : ℕ)
    → IsValid e
    → InRange e x y
    → InRange e x' y'
    → seat_index e x y ≡ seat_index e x' y'
    → (x ≡ x') × (y ≡ y')
seat_index_injective e x y x' y' v r r' same = omega (
  arith,
  grid_index_injective (x - 1) (y - 1) (x' - 1) (y' - 1) e.cols (omega arith) (omega arith)
      (sym (seat_index_lem e x y v r) ∙ same ∙ seat_index_lem e x' y' v r'),
)
