-- ===== src/Number/Parse.antt =====
-- `parse_uint` on a regular file.
use event_management_server.Base.{
  set_middle, ℕ, suc, ◌+◌, ◌-◌, ◌*◌, ◌<◌, ◌≤◌, ◌≡◌, refl, ap, sym, ◌∙◌, true, false, some, [], ◌∷◌,
  ◌++◌, arith, length, length-append, append_assoc, append-nil, drop, ltb, if◌then◌else◌, inl, inr,
  ◌⊎◌, uint_mod,
}
use event_management_server.Io.Descriptor.{Bytes, file, got, read}
use event_management_server.Number.{
  parsed, parse_failed, is_digit, decimal_prefix, strtoul, finish_uint, parse_round, parse_loop,
  parse_uint,
}
use event_management_server.Number.Print.{decimal, AllDigits, IsDecimal}

pub read-file : (b : ℕ) (bs : Bytes) → read 1 (file (b ∷ bs)) ≡ (got (b ∷ []), file bs)
unfolding read
read-file b [] = refl
read-file b (c ∷ bs) = refl

pub read_end : read 1 (file []) ≡ (got [], [])
unfolding read
read_end = refl

pub snoc_assoc : (pre : Bytes) (d : ℕ) (ds : Bytes) → (pre ++ d ∷ []) ++ ds ≡ pre ++ d ∷ ds
snoc_assoc pre d ds = append_assoc pre (d ∷ []) ds

-- The digits go into the buffer behind the ones before, and the byte after them ends the loop.
parse_loop_digits :
    (pre ds : Bytes) (c : ℕ) (rest suf : Bytes)
    → AllDigits ds
    → is_digit c ≡ false
    → length ds < length suf
    → parse_loop (length suf) (length pre) (pre ++ suf) (file (ds ++ c ∷ rest))
      ≡ (finish_uint ((pre ++ ds) ++ 0 ∷ drop (suc (length ds)) suf) c, file rest)
unfolding parse_loop
parse_loop_digits pre ds c rest [] digits stop room = absurd (omega arith)
parse_loop_digits pre [] c rest (x ∷ suf) digits stop room =
    rw (read-file c rest, parse_round, stop, set_middle pre x 0 suf, append-nil)
parse_loop_digits pre (d ∷ ds) c rest (x ∷ suf) digits stop room =
    rw
      (
        read-file d (ds ++ c ∷ rest),
        parse_round,
        digits.0,
        set_middle pre x d suf,
        ← length-append pre (d ∷ []),
        ← snoc_assoc pre d suf,
        ← snoc_assoc pre d ds,
      )
      (parse_loop_digits (pre ++ d ∷ []) ds c rest suf digits.1 stop (omega arith))

pub decimal_prefix_digits :
    (acc : ℕ) (ds : Bytes) (c : ℕ) (rest : Bytes)
    → AllDigits ds
    → is_digit c ≡ false
    → decimal_prefix acc (ds ++ c ∷ rest) ≡ some (decimal acc ds)
unfolding decimal_prefix decimal
decimal_prefix_digits acc [] c rest digits stop = rw stop
decimal_prefix_digits acc (d ∷ ds) c rest digits stop =
    rw digits.0 (decimal_prefix_digits (acc * 10 + (d - b'0')) ds c rest digits.1 stop)

-- Neither a space nor a sign.
pub strtoul_plain :
    (c : ℕ) (cs : Bytes)
    → (is_digit c ≡ true) ⊎ (c ≡ 0)
    → strtoul (c ∷ cs) ≡ decimal_prefix 0 (c ∷ cs)
unfolding strtoul
strtoul_plain c cs (inl digit) = ground arith
strtoul_plain c cs (inr zero_byte) = ground arith

pub strtoul_digits :
    (ds : Bytes) (rest : Bytes) → AllDigits ds → strtoul (ds ++ 0 ∷ rest) ≡ some (decimal 0 ds)
strtoul_digits [] rest digits =
    strtoul_plain 0 rest (inr refl) ∙ decimal_prefix_digits 0 [] 0 rest tt refl
strtoul_digits (d ∷ ds) rest digits =
    strtoul_plain d (ds ++ 0 ∷ rest) (inl digits.0)
    ∙ decimal_prefix_digits 0 (d ∷ ds) 0 rest digits refl

-- Up to 15 digits and a byte that is none: the value of the digits, whatever the buffer held, and
-- the byte, which is read; a value above UINT_MAX is refused. With no digit at all the value is 0.
pub parse_uint_lem :
    (stack ds : Bytes) (c : ℕ) (rest : Bytes)
    → length stack ≡ 16
    → AllDigits ds
    → length ds ≤ 15
    → is_digit c ≡ false
    → parse_uint stack (file (ds ++ c ∷ rest)) ≡ (
      (if ltb (uint_mod - 1) (decimal 0 ds) then parse_failed else parsed (decimal 0 ds) c),
      file rest,
    )
unfolding parse_uint finish_uint
parse_uint_lem stack ds c rest size digits short stop =
    ap (λ n. parse_loop n 0 stack (file (ds ++ c ∷ rest))) (sym size)
    ∙ parse_loop_digits [] ds c rest stack digits stop (omega arith)
    ∙ ap (λ p. (p, file rest))
        (rw (strtoul_digits ds (drop (suc (length ds)) stack) digits, finish_uint) refl)

-- What `print_uint` writes, followed by a byte that is no digit, `parse_uint` reads back.
pub parse-print_uint :
    (stack : Bytes) (value c : ℕ) (out rest : Bytes)
    → length stack ≡ 16
    → value < uint_mod
    → IsDecimal value out
    → is_digit c ≡ false
    → parse_uint stack (file (out ++ c ∷ rest)) ≡ (parsed value c, file rest)
parse-print_uint stack value c out rest size small dec stop =
    let fits : ltb (uint_mod - 1) value ≡ false = ground arith in
    parse_uint_lem stack out c rest size dec.all_digits (omega (arith, dec.short)) stop
    ∙ rw (dec.decimal_value, fits) refl
