-- ===== src/Server/Start/Delay.antt =====
-- The argument of the delay of `main` of src/server/main.c.
use event_management_server.Base.{
  ℕ, ◌*◌, ◌+◌, ◌-◌, ◌<◌, ◌≡◌, refl, ap, ◌∙◌, true, false, some, [], ◌∷◌, arith, ltb, ◌==◌, uint_mod,
  size_mod,
}
use event_management_server.Io.Descriptor.{Bytes}
use event_management_server.Number.{is_digit, is_space, after_spaces}
use event_management_server.Number.Print.{
  decimal, AllDigits, IsDecimal, decimal_text, decimal_text-IsDecimal,
}
use event_management_server.Server.Start.{
  digits_from, signed_value, number_from, signed_number, strtoul_text, delay_of, read_to_end,
}

digits_from_lem : (acc : ℕ) (ds : Bytes) → AllDigits ds → digits_from acc ds ≡ (decimal acc ds, [])
unfolding digits_from decimal
digits_from_lem acc [] h = refl
digits_from_lem acc (d ∷ ds) h = rw (h.0, digits_from_lem (acc * 10 + (d - b'0')) ds h.1) refl

digit_start :
    (d : ℕ)
    → is_digit d ≡ true
    → (is_space d ≡ false) × ((d == b'-') ≡ false) × ((d == b'+') ≡ false)
digit_start d h = (ground arith, ground arith, ground arith)

delay_of_digits :
    (value : ℕ) (ds : Bytes) → value < uint_mod → IsDecimal value ds → delay_of ds ≡ some value
unfolding decimal digits_from delay_of read_to_end strtoul_text after_spaces signed_number
    number_from signed_value
delay_of_digits value [] small is = absurd (omega (arith, is.not_empty))
delay_of_digits value (d ∷ ds) small is =
    let (no_space, no_minus, no_plus) = digit_start d is.all_digits.0 in
    let in_size : ltb (size_mod - 1) value ≡ false = ground arith in
    let in_uint : ltb (uint_mod - 1) value ≡ false = ground arith in
    let rest : digits_from (0 * 10 + (d - b'0')) ds ≡ (value, []) =
      digits_from_lem (0 * 10 + (d - b'0')) ds is.all_digits.1
      ∙ ap (λ v. (v, [])) is.decimal_value in
    rw (no_space, no_minus, no_plus, is.all_digits.0, rest, in_size, in_uint) refl

-- The decimal text of each number of 32 bits is accepted as a delay, and is that number.
pub delay_of-decimal_text :
    (value : ℕ) → value < uint_mod → delay_of (decimal_text value) ≡ some value
delay_of-decimal_text value small =
    delay_of_digits value (decimal_text value) small (decimal_text-IsDecimal value small)
