-- ===== src/Parser.antt =====
-- src/client/parser.c: the commands of a .jobs file. `stack` is what the uninitialised buffer of
-- `parse_uint` holds at a call, by what is left of the file then.
pub mod Text
pub mod Lines
pub mod Words
pub mod Left
use event_management_server.Base.{
  ℕ, zero, suc, ◌+◌, Bool, true, false, ◌&&◌, ◌||◌, not, Option, none, some, List, [], ◌∷◌, ◌++◌,
  length, ◌==◌, if◌then◌else◌,
}
use event_management_server.Io.Descriptor.{
  Bytes, Arrival, chunk, signal, failure, Source, ReadResult, got, eintr, error, read,
}
use event_management_server.Number.{Parsed, parsed, parse_failed, parse_uint}
use event_management_server.Number
use event_management_server.Seats.{Seat}

pub data Command : Type 0 where
  cmd_create cmd_reserve cmd_show cmd_list_events cmd_wait cmd_help cmd_empty cmd_invalid eoc :
      Command

-- A parse function returns its values, fails after `cleanup`, or leaves a buffer.
pub data Outcome (A : Type 0) : Type 0 where
  ok : A → Outcome A
  failed overrun : Outcome A

abbrev pub Parser : Type 0 → Type 0
Parser A = Source → Outcome A × Source

abbrev pub pure : {A : Type 0} → A → Parser A
pure a src = (ok a, src)

module _ {A B : Type 0} where
  abbrev pub and_then : Outcome A × Source → (A → Parser B) → Outcome B × Source
  and_then (ok a, src) f = f a src
  and_then (failed, src) f = (failed, src)
  and_then (overrun, src) f = (overrun, src)

  infixl 5 ◌>>=◌ ◌>>◌
  abbrev pub ◌>>=◌ : Parser A → (A → Parser B) → Parser B
  ◌>>=◌ m f = λ src. and_then (m src) f

  abbrev pub ◌>>◌ : Parser A → Parser B → Parser B
  m >> k = m >>= λ _. k

-- A bound of the number of calls of `read` that the source can answer with bytes.
weight : Source → ℕ
weight [] = 0
weight (chunk bs ∷ src) = suc (length bs) + weight src
weight (signal ∷ src) = suc (weight src)
weight (failure ∷ src) = suc (weight src)

cleanup_round : (again : Source → Source) → ReadResult × Source → Source
cleanup_round again (got (c ∷ _), src) = if c == b'\n' then src else again src
cleanup_round again (got [], src) = src
cleanup_round again (eintr, src) = src
cleanup_round again (error, src) = src

cleanup_loop : ℕ → Source → Source
unfolding cleanup_round
cleanup_loop zero src = src
cleanup_loop (suc fuel) src = cleanup_round (cleanup_loop fuel) (read 1 src)

unfoldable pub cleanup : Source → Source
unfolding cleanup_loop weight
cleanup src = cleanup_loop (weight src + 1) src

abbrev pub fail : {A : Type 0} → Parser A
fail src = (failed, cleanup src)

-- strncmp against a keyword with no zero byte
bytes_eq : Bytes → Bytes → Bool
bytes_eq [] [] = true
bytes_eq [] (b ∷ bs) = false
bytes_eq (a ∷ as') [] = false
bytes_eq (a ∷ as') (b ∷ bs) = a == b && bytes_eq as' bs

matches : Bytes → ReadResult → Bool
unfolding bytes_eq
matches word (got bs) = bytes_eq bs word
matches word eintr = false
matches word error = false

-- One `read` of as many bytes as the rest of the keyword has.
unfoldable pub keyword : Bytes → Source → Bool × Source
unfolding matches
keyword word src = let (result, src') = read (length word) src in (matches word result, src')

command_or_invalid : Command → Bool × Source → Command × Source
command_or_invalid c (true, src) = (c, src)
command_or_invalid c (false, src) = (cmd_invalid, cleanup src)

-- `read(fd, buf + 4, 1) != 0 && buf[4] != '\n'`; a failed read leaves `stale` in buf[4].
ends_badly : ℕ → ReadResult → Bool
ends_badly stale (got []) = false
ends_badly stale (got (c ∷ _)) = not (c == b'\n')
ends_badly stale eintr = not (stale == b'\n')
ends_badly stale error = not (stale == b'\n')

alone : ℕ → Command → Bool × Source → Command × Source
unfolding ends_badly
alone stale c (false, src) = (cmd_invalid, cleanup src)
alone stale c (true, src) =
    let (result, src') = read 1 src in
    if ends_badly stale result then (cmd_invalid, cleanup src') else (c, src')

-- The switch on the first byte.
get_command : ℕ → ℕ → Source → Command × Source
unfolding command_or_invalid alone keyword
get_command stale c src =
    if c == b'C'
    then command_or_invalid cmd_create (keyword (b'R' ∷ b'E' ∷ b'A' ∷ b'T' ∷ b'E' ∷ b' ' ∷ []) src)
    else if c == b'R'
    then command_or_invalid cmd_reserve
        (keyword (b'E' ∷ b'S' ∷ b'E' ∷ b'R' ∷ b'V' ∷ b'E' ∷ b' ' ∷ []) src)
    else if c == b'S'
    then command_or_invalid cmd_show (keyword (b'H' ∷ b'O' ∷ b'W' ∷ b' ' ∷ []) src)
    else if c == b'L'
    then alone stale cmd_list_events (keyword (b'I' ∷ b'S' ∷ b'T' ∷ []) src)
    else if c == b'W'
    then command_or_invalid cmd_wait (keyword (b'A' ∷ b'I' ∷ b'T' ∷ b' ' ∷ []) src)
    else if c == b'H'
    then alone stale cmd_help (keyword (b'E' ∷ b'L' ∷ b'P' ∷ []) src)
    else if c == b'#'
    then (cmd_empty, cleanup src)
    else if c == b'\n'
    then (cmd_empty, src)
    else (cmd_invalid, cleanup src)

first_byte : ℕ → ReadResult × Source → Command × Source
unfolding get_command
first_byte stale (got (c ∷ _), src) = get_command stale c src
first_byte stale (got [], src) = (eoc, src)
first_byte stale (eintr, src) = (eoc, src)
first_byte stale (error, src) = (eoc, src)

-- `stale` is what buf[4] holds at first.
unfoldable pub get_next : ℕ → Source → Command × Source
unfolding first_byte
get_next stale src = first_byte stale (read 1 src)

checked : (ℕ → Bool) → Parsed × Source → Outcome ℕ × Source
checked accept (parsed value ch, src) = if accept ch then (ok value, src) else (failed, cleanup src)
checked accept (parse_failed, src) = (failed, cleanup src)
checked accept (Number.overrun, src) = (overrun, src)

-- parse_uint, and the test of the byte after the number
unfoldable pub number : (Source → Bytes) → (ℕ → Bool) → Parser ℕ
unfolding checked
number stack accept src = checked accept (parse_uint (stack src) src)

one_byte : (ℕ → Bool) → ReadResult × Source → Outcome ℕ × Source
one_byte accept (got (c ∷ _), src) = if accept c then (ok c, src) else (failed, cleanup src)
one_byte accept (got [], src) = (failed, cleanup src)
one_byte accept (eintr, src) = (failed, cleanup src)
one_byte accept (error, src) = (failed, cleanup src)

-- read(fd, &ch, 1) != 1, and the test of the byte
unfoldable pub byte : (ℕ → Bool) → Parser ℕ
unfolding one_byte
byte accept src = one_byte accept (read 1 src)

abbrev pub is : ℕ → ℕ → Bool
is c ch = ch == c

abbrev pub line_end : ℕ → Bool
line_end ch = ch == b'\n' || ch == 0

module _ (stack : Source → Bytes) where
  unfoldable pub parse_create : Parser (ℕ × ℕ × ℕ)
  unfolding number
  parse_create = do
    event_id ← number stack (is b' ')
    num_rows ← number stack (is b' ')
    num_cols ← number stack line_end
    pure (event_id, num_rows, num_cols)

  -- The loop over the seats, with `room` seats left until `max` and those read so far.
  unfoldable pub parse_seats : ℕ → List Seat → Parser (List Seat)
  unfolding number byte
  parse_seats zero seats = fail
  parse_seats (suc room) seats = do
    byte (is b'(')
    x ← number stack (is b',')
    y ← number stack (is b')')
    ch ← byte (λ c. c == b' ' || c == b']')
    if ch == b']'
        then (if room == 0 then fail else do byte line_end; pure (seats ++ (x, y) ∷ []))
        else parse_seats room (seats ++ (x, y) ∷ [])

  unfoldable pub parse_reserve : ℕ → Parser (ℕ × List Seat)
  unfolding parse_seats
  parse_reserve max = do
    event_id ← number stack (is b' ')
    byte (is b'[')
    seats ← parse_seats max []
    pure (event_id, seats)

  unfoldable pub parse_show : Parser ℕ
  parse_show = number stack line_end

  after_delay : Bool → Parsed × Source → Outcome (ℕ × Option ℕ) × Source
  unfolding number
  after_delay with_thread (parse_failed, src) = (failed, cleanup src)
  after_delay with_thread (Number.overrun, src) = (overrun, src)
  after_delay with_thread (parsed value ch, src) =
      if ch == b' '
      then (if with_thread
          then (do thread_id ← number stack line_end; pure (value, some thread_id)) src
          else (ok (value, none), cleanup src))
      else if line_end ch
      then (ok (value, none), src)
      else (failed, cleanup src)

  -- `with_thread` is `thread_id != NULL`; the return values 0 and 1 are `none` and `some`.
  unfoldable pub parse_wait : Bool → Parser (ℕ × Option ℕ)
  unfolding after_delay
  parse_wait with_thread src = after_delay with_thread (parse_uint (stack src) src)
