-- ===== src/Number/Limits.antt =====
-- `parse_uint` at the limits of its buffer and at the end of a file.
use event_management_server.Base.{
  set_middle, ℕ, ◌+◌, ◌-◌, ◌*◌, ◌<◌, ◌≡◌, refl, ap, sym, ◌∙◌, false, none, [], ◌∷◌, ◌++◌, arith,
  length, length-append, append_assoc, append-nil, drop, ltb, inl, uint_mod,
}
use event_management_server.Io.Descriptor.{Bytes, file}
use event_management_server.Number.{
  parsed, overrun, decimal_prefix, strtoul, finish_uint, parse_full, parse_round, parse_loop,
  parse_uint,
}
use event_management_server.Number.Print.{decimal, AllDigits}
use event_management_server.Number.Parse.{
  read-file, read_end, snoc_assoc, strtoul_plain, strtoul_digits,
}

decimal_prefix_all : (acc : ℕ) (ds : Bytes) → AllDigits ds → decimal_prefix acc ds ≡ none
unfolding decimal_prefix
decimal_prefix_all acc [] digits = refl
decimal_prefix_all acc (d ∷ ds) digits =
    rw digits.0 (decimal_prefix_all (acc * 10 + (d - b'0')) ds digits.1)

strtoul_all : (ds : Bytes) → AllDigits ds → strtoul ds ≡ none
unfolding strtoul
strtoul_all [] digits = refl
strtoul_all (d ∷ ds) digits =
    strtoul_plain d ds (inl digits.0) ∙ decimal_prefix_all 0 (d ∷ ds) digits

AllDigits-append : (xs ys : Bytes) → AllDigits xs → AllDigits ys → AllDigits (xs ++ ys)
AllDigits-append [] ys h k = k
AllDigits-append (x ∷ xs) ys h k = (h.0, AllDigits-append xs ys h.1 k)

parse_loop_overrun :
    (pre ds rest suf : Bytes)
    → AllDigits ds
    → AllDigits pre
    → length ds ≡ length suf
    → (parse_loop (length suf) (length pre) (pre ++ suf) (file (ds ++ rest))).0 ≡ overrun
unfolding parse_loop
parse_loop_overrun pre [] [] [] digits before full =
    rw (read_end, parse_full, append-nil, finish_uint, strtoul_all pre before)
parse_loop_overrun pre [] (c ∷ rest) [] digits before full = rw (read-file c rest, parse_full)
parse_loop_overrun pre [] rest (x ∷ suf) digits before full = absurd (omega arith)
parse_loop_overrun pre (d ∷ ds) rest [] digits before full = absurd (omega arith)
parse_loop_overrun pre (d ∷ ds) rest (x ∷ suf) digits before full =
    rw
      (
        read-file d (ds ++ rest),
        parse_round,
        digits.0,
        set_middle pre x d suf,
        ← length-append pre (d ∷ []),
        ← snoc_assoc pre d suf,
      )
      (parse_loop_overrun (pre ++ d ∷ []) ds rest suf digits.1
        (AllDigits-append pre (d ∷ []) before (digits.0, tt)) (omega arith))

-- Sixteen digits fill the buffer: whatever follows them, `parse_uint` writes or reads behind it.
pub parse_uint_overrun :
    (stack ds rest : Bytes)
    → length stack ≡ 16
    → AllDigits ds
    → length ds ≡ 16
    → (parse_uint stack (file (ds ++ rest))).0 ≡ overrun
unfolding parse_uint
parse_uint_overrun stack ds rest size digits long =
    ap (λ n. (parse_loop n 0 stack (file (ds ++ rest))).0) (sym size)
    ∙ parse_loop_overrun [] ds rest stack digits tt (long ∙ sym size)

-- At the end of the file no byte is stored behind the digits.
parse_loop_end :
    (pre ds suf : Bytes)
    → AllDigits ds
    → length ds < length suf
    → parse_loop (length suf) (length pre) (pre ++ suf) (file ds)
      ≡ (finish_uint ((pre ++ ds) ++ drop (length ds) suf) 0, [])
unfolding parse_loop
parse_loop_end pre ds [] digits room = absurd (omega arith)
parse_loop_end pre [] (x ∷ suf) digits room = rw (read_end, parse_round, append-nil)
parse_loop_end pre (d ∷ ds) (x ∷ suf) digits room =
    rw
      (
        read-file d ds,
        parse_round,
        digits.0,
        set_middle pre x d suf,
        ← length-append pre (d ∷ []),
        ← snoc_assoc pre d suf,
        ← snoc_assoc pre d ds,
      )
      (parse_loop_end (pre ++ d ∷ []) ds suf digits.1 (omega arith))

decimal-append : (acc : ℕ) (xs ys : Bytes) → decimal acc (xs ++ ys) ≡ decimal (decimal acc xs) ys
unfolding decimal
decimal-append acc [] ys = refl
decimal-append acc (x ∷ xs) ys = decimal-append (acc * 10 + (x - b'0')) xs ys

drop_behind :
    (front : Bytes) (ds rest : Bytes)
    → length front ≡ length ds
    → drop (length ds) (front ++ rest) ≡ rest
drop_behind [] [] rest h = refl
drop_behind [] (d ∷ ds) rest h = absurd (omega arith)
drop_behind (x ∷ front) [] rest h = absurd (omega arith)
drop_behind (x ∷ front) (d ∷ ds) rest h = drop_behind front ds rest (omega arith)

-- At the end of the file the number goes on with the digits `old` that the buffer holds from before,
-- up to the first zero byte: only with none of them is it the value of the digits that were read.
pub parse_uint_end :
    (front old tail ds : Bytes)
    → length (front ++ (old ++ 0 ∷ tail)) ≡ 16
    → length front ≡ length ds
    → AllDigits ds
    → AllDigits old
    → decimal (decimal 0 ds) old < uint_mod
    → parse_uint (front ++ (old ++ 0 ∷ tail)) (file ds)
      ≡ (parsed (decimal (decimal 0 ds) old) 0, [])
unfolding parse_uint
parse_uint_end front old tail ds size same digits older small =
    let stack : Bytes = front ++ (old ++ 0 ∷ tail) in
    let room : length ds < length stack =
      omega (arith, length-append front (old ++ 0 ∷ tail), length-append old (0 ∷ tail)) in
    let fits : ltb (uint_mod - 1) (decimal (decimal 0 ds) old) ≡ false = ground arith in
    ap (λ n. parse_loop n 0 stack (file ds)) (sym size)
    ∙ parse_loop_end [] ds stack digits room
    ∙ ap (λ p. (p, []))
        (rw (
          drop_behind front ds (old ++ 0 ∷ tail) same,
          ← append_assoc ds old (0 ∷ tail),
          strtoul_digits (ds ++ old) tail (AllDigits-append ds old digits older),
          finish_uint,
          decimal-append 0 ds old,
          fits,
        ))
