-- ===== src/Number/Print.antt =====
-- `print_str` and `print_uint`.
use native.Mathlib.Nat.{pow-suc}
use event_management_server.Base.{
  ℕ, zero, suc, ◌+◌, ◌-◌, ◌*◌, ◌/◌, ◌%◌, ◌^◌, ◌<◌, ◌≤◌, ◌≡◌, refl, ap, ◌∙◌, true, none, some, [],
  ◌∷◌, ◌++◌, arith, length, drop, ltb, ◌==◌, Bool-cases, inl, inr, uint_mod,
}
use event_management_server.Io.{
  Code, count, minus_one, minus_two, out_of_fuel, my_write_loop, my_write_round, my_write,
}
use event_management_server.Io.Descriptor.{Bytes, Sink, WriteResult, wrote, write_error, write}
use event_management_server.Io.Deliver.{sink, my_write_open}
use event_management_server.Number.{
  print_loop, print_round, print_str, fill_digits, zero_digit, print_uint, is_digit,
}

-- The value of the digits, behind a value of the digits before.
unfoldable pub decimal : ℕ → Bytes → ℕ
decimal acc [] = acc
decimal acc (c ∷ cs) = decimal (acc * 10 + (c - b'0')) cs

abbrev pub AllDigits : Bytes → Type 0
AllDigits [] = Unit {0}
AllDigits (c ∷ cs) = (is_digit c ≡ true) × AllDigits cs

-- The digits that were put in front of `digits` stand for `value`.
pub record Filled (value k : ℕ) (digits out : Bytes) : Type 0 where
  pub decimal_value : decimal 0 out ≡ decimal value digits
  pub all_digits : AllDigits digits → AllDigits out
  pub short : length out ≤ k + length digits

last_digit : (v : ℕ) → v / 10 * 10 + (b'0' + v % 10 - b'0') ≡ v
last_digit v = omega arith

digit_of_rest : (v : ℕ) → is_digit (b'0' + v % 10) ≡ true
digit_of_rest v = ground arith

decimal_step :
    (v : ℕ) (digits : Bytes) → decimal (v / 10) ((b'0' + v % 10) ∷ digits) ≡ decimal v digits
unfolding decimal
decimal_step v digits = ap (λ a. decimal a digits) (last_digit v)

fill_digits_lem :
    (room k value : ℕ) (digits : Bytes)
    → value < 10 ^ k
    → k ≤ room
    → (out : Bytes) × (fill_digits room value digits ≡ some out) × Filled value k digits out
unfolding fill_digits
fill_digits_lem zero k value digits small fits =
    let none_left : k ≡ 0 = omega arith in
    let done : value ≡ 0 = omega (arith, ap (λ (t : ℕ). 10 ^ t) none_left) in
    (digits, rw done, record { decimal_value = rw done; all_digits = λ h. h; short = omega arith })
fill_digits_lem (suc room) zero value digits small fits =
    let done : value ≡ 0 = omega arith in
    (digits, rw done, record { decimal_value = rw done; all_digits = λ h. h; short = omega arith })
fill_digits_lem (suc room) (suc k) value digits small fits = elim (Bool-cases (value == 0)) [
  | inl done ↦
      let zero_left : value ≡ 0 = ground arith in
      (
        digits,
        rw (done, fill_digits),
        record { decimal_value = rw zero_left; all_digits = λ h. h; short = omega arith },
      )
  | inr more ↦
      let fewer : value / 10 < 10 ^ k = omega (arith, pow-suc 10 k) in
      let (out, eq, f) =
        fill_digits_lem room k (value / 10) ((b'0' + value % 10) ∷ digits) fewer (omega arith) in
      (
        out,
        rw (more, fill_digits) eq,
        record {
          decimal_value = f.decimal_value ∙ decimal_step value digits;
          all_digits = λ h. f.all_digits (digit_of_rest value, h);
          short = omega (arith, f.short);
        },
      )
]

-- The text of a number: digits, ten at most and at least one, whose value is the number.
pub record IsDecimal (value : ℕ) (out : Bytes) : Type 0 where
  pub decimal_value : decimal 0 out ≡ value
  pub all_digits : AllDigits out
  pub short : length out ≤ 10
  pub not_empty : 0 < length out

uint_bound : (value : ℕ) → value < uint_mod → value < 10 ^ 10
uint_bound value h = omega arith

zero_digit-IsDecimal :
    (value : ℕ) (out : Bytes) → Filled value 10 [] out → IsDecimal value (zero_digit out)
unfolding decimal zero_digit
zero_digit-IsDecimal value [] f = record {
  decimal_value = f.decimal_value;
  all_digits = (refl, tt);
  short = omega arith;
  not_empty = omega arith;
}
zero_digit-IsDecimal value (d ∷ out) f = record {
  decimal_value = f.decimal_value;
  all_digits = f.all_digits tt;
  short = omega (arith, f.short);
  not_empty = omega arith;
}

-- The return value that stands for a code of `my_write`.
abbrev pub print_code : Code → ℕ
print_code (count n) = 0
print_code minus_one = 1
print_code minus_two = 2
print_code out_of_fuel = 2

print_loop_lem :
    (fuel done : ℕ) (left : Bytes) (s : Sink)
    → print_loop fuel left s
      ≡ (print_code (my_write_loop fuel done left s).0, (my_write_loop fuel done left s).1)
unfolding print_loop my_write_loop
print_loop_lem zero done left s = refl
print_loop_lem (suc fuel) done left s = elim (Bool-cases (ltb 0 (length left))) [
  | inr none_left ↦ rw (none_left, print_loop, my_write_loop)
  | inl more ↦ rw (more, print_loop, my_write_loop) (one_round (print_loop_lem fuel) (write left s))
]
  where
    one_round :
        ((d : ℕ) (l : Bytes) (s' : Sink)
          → print_loop fuel l s'
            ≡ (print_code (my_write_loop fuel d l s').0, (my_write_loop fuel d l s').1))
        → (w : WriteResult × Sink)
        → print_round (print_loop fuel) left w ≡ (
          print_code (my_write_round (my_write_loop fuel) done left w).0,
          (my_write_round (my_write_loop fuel) done left w).1,
        )
    one_round again (write_error, s') = refl
    one_round again (wrote n, s') = again (done + n) (drop n left) s'

-- `print_str` writes as `my_write` does and returns 0 where that returns a count, 1 where it
-- returns -1.
pub print_str-my_write :
    (str : Bytes) (s : Sink) → print_str str s ≡ (print_code (my_write str s).0, (my_write str s).1)
unfolding print_str my_write
print_str-my_write str s = print_loop_lem (length s.plan + 2) 0 str s

-- `print_uint` on a descriptor that takes everything: the digits of the value are written, the
-- buffer of 16 bytes is large enough, and the return value is 0.
pub print_uint_lem :
    (value : ℕ) (written : Bytes)
    → value < uint_mod
    → (out : Bytes) × (print_uint value (sink [] written) ≡ some (0, sink [] (written ++ out)))
      × IsDecimal value out
unfolding print_uint
print_uint_lem value written small =
    let (out, eq, f) = fill_digits_lem 16 10 value [] (uint_bound value small) (omega arith) in
    (
      zero_digit out,
      rw (
        eq,
        print_uint,
        print_str-my_write (zero_digit out) (sink [] written),
        my_write_open (zero_digit out) written,
      ),
      zero_digit-IsDecimal value out f,
    )

-- The text of a number, as `print_uint` writes it.
unfoldable pub decimal_text : ℕ → Bytes
unfolding fill_digits zero_digit
decimal_text value = elim (fill_digits 16 value []) [ none ↦ [] | some digits ↦ zero_digit digits ]

pub decimal_text-IsDecimal : (value : ℕ) → value < uint_mod → IsDecimal value (decimal_text value)
unfolding decimal_text
decimal_text-IsDecimal value small =
    let (out, eq, f) = fill_digits_lem 16 10 value [] (uint_bound value small) (omega arith) in
    rw (eq, decimal_text) (zero_digit-IsDecimal value out f)

pub print_uint-decimal_text :
    (value : ℕ) (written : Bytes)
    → value < uint_mod
    → print_uint value (sink [] written) ≡ some (0, sink [] (written ++ decimal_text value))
unfolding print_uint decimal_text
print_uint-decimal_text value written small =
    let (out, eq, f) = fill_digits_lem 16 10 value [] (uint_bound value small) (omega arith) in
    rw (
      eq,
      print_uint,
      decimal_text,
      print_str-my_write (zero_digit out) (sink [] written),
      my_write_open (zero_digit out) written,
    )
