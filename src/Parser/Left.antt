-- ===== src/Parser/Left.antt =====
-- What the functions of src/client/parser.c leave to read, for every file.
use event_management_server.Base.{
  ℕ, zero, suc, ◌+◌, ◌<◌, ◌≤◌, ◌≡◌, refl, ◌⊎◌, inl, inr, Bool, true, false, List, [], ◌∷◌, arith,
  length, ◌==◌, if◌then◌else◌,
}
use event_management_server.Seats.{Seat}
use event_management_server.Io.Descriptor.{Bytes, Source, ReadResult, got, eintr, error, read}
use event_management_server.Io.Left.{
  left, taken, read-left, Within, Within-if, if-left, Within-pair, read-Within,
}
use event_management_server.Number.{Parsed, parsed, parse_failed, parse_uint}
use event_management_server.Number.Left.{parse_uint-Within}
use event_management_server.Number
use event_management_server.Parser.{
  Command, eoc, Outcome, ok, failed, overrun, Parser, and_then, cleanup_round, cleanup_loop,
  cleanup, weight, keyword, command_or_invalid, ends_badly, alone, get_command, first_byte,
  get_next, checked, number, one_byte, byte, line_end, parse_create, parse_seats, parse_reserve,
  parse_show, after_delay, parse_wait,
}

module _ (n : ℕ) where
  Within-and_then :
      {A B : Type 0} (r : Outcome A × Source) (f : A → Parser B)
      → Within n r
      → ((a : A) (src : Source) → left src ≤ n → Within n (f a src))
      → Within n (and_then r f)
  Within-and_then (ok a, src) f h next = next a src h.bound
  Within-and_then (failed, src) f h next = record { bound = h.bound }
  Within-and_then (overrun, src) f h next = record { bound = h.bound }

  Within-branch :
      {A : Type 0} (b : Bool) (p q : Parser A) (src : Source)
      → Within n (p src)
      → Within n (q src)
      → Within n ((if b then p else q) src)
  Within-branch true p q src h h' = h
  Within-branch false p q src h h' = h'

  cleanup_round-left :
      (again : Source → Source) (out : ReadResult × Source)
      → left out.1 ≤ n
      → ((src : Source) → left src ≤ n → left (again src) ≤ n)
      → left (cleanup_round again out) ≤ n
  unfolding cleanup_round
  cleanup_round-left again (got (c ∷ _), src) h next =
      if-left n (c == b'\n') src (again src) h (next src h)
  cleanup_round-left again (got [], src) h next = h
  cleanup_round-left again (eintr, src) h next = h
  cleanup_round-left again (error, src) h next = h

  cleanup_loop-left : (fuel : ℕ) (src : Source) → left src ≤ n → left (cleanup_loop fuel src) ≤ n
  unfolding cleanup_loop
  cleanup_loop-left zero src h = h
  cleanup_loop-left (suc fuel) src h =
      cleanup_round-left (cleanup_loop fuel) (read 1 src) (read-Within n 1 src h)
        λ src' h'. cleanup_loop-left fuel src' h'

  cleanup-left : (src : Source) → left src ≤ n → left (cleanup src) ≤ n
  unfolding cleanup
  cleanup-left src h = cleanup_loop-left (weight src + 1) src h

  ruleset left_rules =
      (Within-if, Within-branch, Within-pair, Within-and_then, cleanup-left, read-Within)

  keyword-Within : (word : Bytes) (src : Source) → left src ≤ n → Within n (keyword word src)
  unfolding keyword
  keyword-Within word src h = record { bound = read-Within n (length word) src h }

  command_or_invalid-Within :
      (c : Command) (out : Bool × Source) → Within n out → Within n (command_or_invalid c out)
  unfolding command_or_invalid
  command_or_invalid-Within c (true, src) h = record { bound = h.bound }
  command_or_invalid-Within c (false, src) h = record { bound = cleanup-left src h.bound }

  alone-Within :
      (stale : ℕ) (c : Command) (out : Bool × Source) → Within n out → Within n (alone stale c out)
  unfolding alone
  alone-Within stale c (false, src) h = record { bound = cleanup-left src h.bound }
  alone-Within stale c (true, src) h =
      let read_on : left (read 1 src).1 ≤ n = read-Within n 1 src h.bound in
      Within-if n (ends_badly stale (read 1 src).0) _ _
        (record { bound = cleanup-left (read 1 src).1 read_on }) (record { bound = read_on })

  get_command-Within :
      (stale c : ℕ) (src : Source) → left src ≤ n → Within n (get_command stale c src)
  unfolding get_command
  get_command-Within stale c src h =
      search (left_rules, command_or_invalid-Within, alone-Within, keyword-Within) depth 16

  checked-Within :
      (accept : ℕ → Bool) (out : Parsed × Source) → Within n out → Within n (checked accept out)
  unfolding checked
  checked-Within accept (parsed value ch, src) h =
      let bound : left src ≤ n = h.bound in search left_rules
  checked-Within accept (parse_failed, src) h = record { bound = cleanup-left src h.bound }
  checked-Within accept (Number.overrun, src) h = record { bound = h.bound }

  number-Within :
      (stack : Source → Bytes) (accept : ℕ → Bool) (src : Source)
      → left src ≤ n
      → Within n (number stack accept src)
  unfolding number
  number-Within stack accept src h =
      checked-Within accept (parse_uint (stack src) src) (parse_uint-Within n (stack src) src h)

  one_byte-Within :
      (accept : ℕ → Bool) (out : ReadResult × Source)
      → left out.1 ≤ n
      → Within n (one_byte accept out)
  unfolding one_byte
  one_byte-Within accept (got (c ∷ _), src) h = search left_rules
  one_byte-Within accept (got [], src) h = record { bound = cleanup-left src h }
  one_byte-Within accept (eintr, src) h = record { bound = cleanup-left src h }
  one_byte-Within accept (error, src) h = record { bound = cleanup-left src h }

  byte-Within : (accept : ℕ → Bool) (src : Source) → left src ≤ n → Within n (byte accept src)
  unfolding byte
  byte-Within accept src h = one_byte-Within accept (read 1 src) (read-Within n 1 src h)

  module _ (stack : Source → Bytes) where
    pub parse_create-Within : (src : Source) → left src ≤ n → Within n (parse_create stack src)
    unfolding parse_create
    parse_create-Within src h = search (left_rules, number-Within) depth 12

    seats_round-Within :
        (room : ℕ) (seats : List Seat) (src : Source)
        → left src ≤ n
        → ((seats' : List Seat) (src' : Source)
            → left src' ≤ n
            → Within n (parse_seats stack room seats' src'))
        → Within n (parse_seats stack (suc room) seats src)
    unfolding parse_seats
    seats_round-Within room seats src h next =
        search (left_rules, number-Within, byte-Within, next) depth 20

    parse_seats-Within :
        (room : ℕ) (seats : List Seat) (src : Source)
        → left src ≤ n
        → Within n (parse_seats stack room seats src)
    unfolding parse_seats
    parse_seats-Within zero seats src h = search left_rules
    parse_seats-Within (suc room) seats src h =
        seats_round-Within room seats src h λ seats' src' h'. parse_seats-Within room seats' src' h'

    pub parse_reserve-Within :
        (max : ℕ) (src : Source) → left src ≤ n → Within n (parse_reserve stack max src)
    unfolding parse_reserve
    parse_reserve-Within max src h =
        search (left_rules, number-Within, byte-Within, parse_seats-Within) depth 16

    pub parse_show-Within : (src : Source) → left src ≤ n → Within n (parse_show stack src)
    unfolding parse_show
    parse_show-Within src h = number-Within stack line_end src h

    after_delay-Within :
        (with_thread : Bool) (out : Parsed × Source)
        → Within n out
        → Within n (after_delay stack with_thread out)
    unfolding after_delay
    after_delay-Within with_thread (parse_failed, src) h = record {
      bound = cleanup-left src h.bound;
    }
    after_delay-Within with_thread (Number.overrun, src) h = record { bound = h.bound }
    after_delay-Within with_thread (parsed value ch, src) h =
        let bound : left src ≤ n = h.bound in search (left_rules, number-Within) depth 16

    pub parse_wait-Within :
        (with_thread : Bool) (src : Source)
        → left src ≤ n
        → Within n (parse_wait stack with_thread src)
    unfolding parse_wait
    parse_wait-Within with_thread src h =
        after_delay-Within with_thread (parse_uint (stack src) src)
          (parse_uint-Within n (stack src) src h)

first_byte-left :
    (stale : ℕ) (out : ReadResult × Source)
    → ((first_byte stale out).0 ≡ eoc) ⊎ (left (first_byte stale out).1 < taken out.0 + left out.1)
unfolding first_byte
first_byte-left stale (got (c ∷ cs), src) =
    inr (omega (arith, (get_command-Within (left src) stale c src (omega arith)).bound))
first_byte-left stale (got [], src) = inl refl
first_byte-left stale (eintr, src) = inl refl
first_byte-left stale (error, src) = inl refl

-- `get_next` reads a byte at least, or it ends the loop over the commands.
pub get_next-left :
    (stale : ℕ) (src : Source)
    → ((get_next stale src).0 ≡ eoc) ⊎ (left (get_next stale src).1 < left src)
unfolding get_next
get_next-left stale src = elim (first_byte-left stale (read 1 src)) [
  | inl ends ↦ inl ends
  | inr shorter ↦ inr (omega (arith, shorter, read-left 1 src))
]
