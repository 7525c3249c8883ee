-- ===== src/Number.antt =====
-- Numbers as text in src/common/io.c: `print_str`, `print_uint` and `parse_uint`. Bytes are numbers; the
-- buffers of 16 bytes are lists of that length, with what they hold at first as an argument.
pub mod Print
pub mod Parse
pub mod Limits
pub mod Left
use event_management_server.Base.{
  ℕ, zero, suc, ◌+◌, ◌-◌, ◌*◌, ◌/◌, ◌%◌, Bool, true, false, ◌&&◌, ◌||◌, Option, none, some, List,
  [], ◌∷◌, ◌++◌, length, drop, set, ltb, leb, ◌==◌, if◌then◌else◌, uint_mod, size_mod,
}
use event_management_server.Io.Descriptor.{
  Bytes, Source, ReadResult, got, eintr, error, read, Sink, WriteResult, wrote, write_error, write,
}

-- What follows one `write` of the bytes in `left`: the return value 1, or the next round.
print_round : (again : Bytes → Sink → ℕ × Sink) → Bytes → WriteResult × Sink → ℕ × Sink
print_round again left (write_error, sink) = (1, sink)
print_round again left (wrote n, sink) = again (drop n left) sink

-- The loop that `print_str` and `print_uint` end with. The second constant is never returned:
-- each round takes one of the answers of the kernel that are to come.
print_loop : ℕ → Bytes → Sink → ℕ × Sink
unfolding print_round
print_loop zero left sink = (2, sink)
print_loop (suc fuel) left sink = elim (ltb 0 (length left)) [
  | false ↦ (0, sink)
  | true ↦ print_round (print_loop fuel) left (write left sink)
]

unfoldable pub print_str : Bytes → Sink → ℕ × Sink
unfolding print_loop
print_str str sink = print_loop (length sink.plan + 2) str sink

-- The digits, from the end of the buffer: `room` elements in front are free. `none` is a write in
-- front of the buffer.
fill_digits : ℕ → ℕ → Bytes → Option Bytes
fill_digits zero value digits = if value == 0 then some digits else none
fill_digits (suc room) value digits = elim (value == 0) [
  | true ↦ some digits
  | false ↦ fill_digits room (value / 10) ((b'0' + value % 10) ∷ digits)
]

zero_digit : Bytes → Bytes
zero_digit [] = b'0' ∷ []
zero_digit (d ∷ digits) = d ∷ digits

unfoldable pub print_uint : ℕ → Sink → Option (ℕ × Sink)
unfolding fill_digits zero_digit print_str
print_uint value sink = elim (fill_digits 16 value []) [
  | none ↦ none
  | some digits ↦ some (print_str (zero_digit digits) sink)
]

abbrev pub is_digit : ℕ → Bool
is_digit c = leb b'0' c && leb c b'9'

abbrev pub is_space : ℕ → Bool
is_space c = c == b' ' || leb 9 c && leb c 13

-- `none`: the array ends with no byte that stops the number.
unfoldable pub decimal_prefix : ℕ → Bytes → Option ℕ
decimal_prefix acc [] = none
decimal_prefix acc (c ∷ cs) =
    if is_digit c then decimal_prefix (acc * 10 + (c - b'0')) cs else some acc

unfoldable pub after_spaces : Bytes → Bytes
after_spaces [] = []
after_spaces (c ∷ cs) = if is_space c then after_spaces cs else c ∷ cs

negated : Option ℕ → Option ℕ
negated none = none
negated (some n) = some ((size_mod - n) % size_mod)

signed_prefix : Bytes → Option ℕ
unfolding negated decimal_prefix
signed_prefix [] = none
signed_prefix (c ∷ cs) =
    if c == b'-'
    then negated (decimal_prefix 0 cs)
    else if c == b'+'
    then decimal_prefix 0 cs
    else decimal_prefix 0 (c ∷ cs)

-- strtoul(buf, NULL, 10), for an array of 16 bytes: the number cannot exceed ULONG_MAX.
unfoldable pub strtoul : Bytes → Option ℕ
unfolding after_spaces signed_prefix
strtoul buf = signed_prefix (after_spaces buf)

-- Return value 0 with `*value` and `*next`; return value 1; or a read or write outside `buf`.
pub data Parsed : Type 0 where
  parsed : ℕ → ℕ → Parsed
  parse_failed overrun : Parsed

unfoldable pub finish_uint : Bytes → ℕ → Parsed
unfolding strtoul
finish_uint buf next = elim (strtoul buf) [
  | none ↦ overrun
  | some ul ↦ if ltb (uint_mod - 1) ul then parse_failed else parsed ul next
]

-- What follows one `read` into buf[i]; `again` is the next round.
parse_round :
    (again : Bytes → Source → Parsed × Source) → ℕ → Bytes → ReadResult × Source → Parsed × Source
unfolding finish_uint
parse_round again i buf (eintr, src) = (parse_failed, src)
parse_round again i buf (error, src) = (parse_failed, src)
parse_round again i buf (got [], src) = (finish_uint buf 0, src)
parse_round again i buf (got (c ∷ _), src) =
    if is_digit c then again (set buf i c) src else (finish_uint (set buf i 0) c, src)

-- With the buffer full, a byte that is read lies behind it.
parse_full : Bytes → ReadResult × Source → Parsed × Source
unfolding finish_uint
parse_full buf (eintr, src) = (parse_failed, src)
parse_full buf (error, src) = (parse_failed, src)
parse_full buf (got [], src) = (finish_uint buf 0, src)
parse_full buf (got (c ∷ _), src) = (overrun, src)

-- The loop, with `room` elements of the buffer left from index `i` on.
parse_loop : ℕ → ℕ → Bytes → Source → Parsed × Source
unfolding parse_full parse_round
parse_loop zero i buf src = parse_full buf (read 1 src)
parse_loop (suc room) i buf src = parse_round (parse_loop room (i + 1)) i buf (read 1 src)

-- `stack` is what the uninitialised buffer holds.
unfoldable pub parse_uint : (stack : Bytes) → Source → Parsed × Source
unfolding parse_loop
parse_uint stack src = parse_loop 16 0 stack src
