-- ===== src/Parser/Text.antt =====
-- The parser's steps on a regular file.
use event_management_server.Base.{
  ℕ, zero, suc, ◌+◌, ◌<◌, ◌≡◌, refl, Bool, false, [], ◌∷◌, ◌++◌, arith, length, ◌==◌, if◌then◌else◌,
  Bool-cases, inl, inr, uint_mod,
}
use event_management_server.Io.Descriptor.{Bytes, Source, file, read}
use event_management_server.Number.{is_digit}
use event_management_server.Number.Print.{AllDigits, decimal_text, decimal_text-IsDecimal}
use event_management_server.Number.Parse.{read-file, read_end, parse-print_uint}
use event_management_server.Parser.{
  ok, failed, cleanup, cleanup_loop, cleanup_round, weight, number, checked, byte, one_byte,
}

-- What is left behind the end of the line.
unfoldable pub after_line : Bytes → Bytes
after_line [] = []
after_line (c ∷ cs) = if c == b'\n' then cs else after_line cs

cleanup_loop-file :
    (fuel : ℕ) (bs : Bytes) → length bs < fuel → cleanup_loop fuel (file bs) ≡ file (after_line bs)
unfolding cleanup_loop after_line
cleanup_loop-file zero bs enough = absurd (omega arith)
cleanup_loop-file (suc fuel) [] enough = rw (read_end, cleanup_round)
cleanup_loop-file (suc fuel) (c ∷ cs) enough =
    rw (read-file c cs, cleanup_round)
      (elim (Bool-cases (c == b'\n')) [
        | inl newline ↦ rw newline
        | inr other ↦ rw other (cleanup_loop-file fuel cs (omega arith))
      ])

weight-file : (bs : Bytes) → length bs < weight (file bs) + 1
unfolding weight
weight-file [] = omega arith
weight-file (b ∷ bs) = omega arith

-- `cleanup` skips to the next line.
pub cleanup-file : (bs : Bytes) → cleanup (file bs) ≡ file (after_line bs)
unfolding cleanup
cleanup-file bs = cleanup_loop-file (weight (file bs) + 1) bs (weight-file bs)

after_line_digits :
    (ds : Bytes) (c : ℕ) (rest : Bytes)
    → AllDigits ds
    → after_line (ds ++ c ∷ rest) ≡ after_line (c ∷ rest)
unfolding after_line
after_line_digits [] c rest digits = refl
after_line_digits (d ∷ ds) c rest digits =
    let other : (d == b'\n') ≡ false = ground arith in
    rw other (after_line_digits ds c rest digits.1)

-- A number has no line end in it.
pub after_line_number :
    (value c : ℕ) (rest : Bytes)
    → value < uint_mod
    → after_line (decimal_text value ++ c ∷ rest) ≡ after_line (c ∷ rest)
after_line_number value c rest small =
    after_line_digits (decimal_text value) c rest (decimal_text-IsDecimal value small).all_digits

pub byte-file :
    (accept : ℕ → Bool) (c : ℕ) (rest : Bytes)
    → byte accept (file (c ∷ rest))
      ≡ (if accept c then (ok c, file rest) else (failed, file (after_line rest)))
unfolding byte
byte-file accept c rest = rw (read-file c rest, one_byte, cleanup-file rest)

pub byte_end : (accept : ℕ → Bool) → byte accept (file []) ≡ (failed, [])
unfolding byte cleanup cleanup_loop cleanup_round weight read
byte_end accept = refl

module _ (stack : Source → Bytes) (size : (src : Source) → length (stack src) ≡ 16) where
  -- A number and the byte after it.
  pub number-file :
      (accept : ℕ → Bool) (value c : ℕ) (rest : Bytes)
      → value < uint_mod
      → is_digit c ≡ false
      → number stack accept (file (decimal_text value ++ c ∷ rest))
        ≡ (if accept c then (ok value, file rest) else (failed, file (after_line rest)))
  unfolding number
  number-file accept value c rest small stop = rw (
    parse-print_uint (stack (file (decimal_text value ++ c ∷ rest))) value c (decimal_text value)
        rest (size _) small (decimal_text-IsDecimal value small) stop,
    checked,
    cleanup-file rest,
  )
