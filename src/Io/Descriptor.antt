-- ===== src/Io/Descriptor.antt =====
-- File descriptors as the program meets them: documented behaviour of POSIX `read` and `write`.
use event_management_server.Base.{ℕ, List, [], ◌∷◌, ◌++◌, length, take, drop}

abbrev pub Bytes : Type 0
Bytes = List ℕ

-- What calls of `read` meet, in order: bytes that are there together, a signal, or a failure.
-- An empty chunk is an end of file, as when the last writer of a pipe has closed it.
pub data Arrival : Type 0 where
  chunk : Bytes → Arrival
  signal failure : Arrival

abbrev pub Source : Type 0
Source = List Arrival

-- A regular file: all bytes are there.
abbrev pub file : Bytes → Source
file [] = []
file (b ∷ bs) = chunk (b ∷ bs) ∷ []

-- `eintr`: -1 with errno EINTR; `error`: -1 with another errno.
pub data ReadResult : Type 0 where
  got : Bytes → ReadResult
  eintr error : ReadResult

abbrev pub put_back : Bytes → Source → Source
put_back [] src = src
put_back (b ∷ bs) src = chunk (b ∷ bs) ∷ src

-- At most `n` of the bytes that are there; no bytes at the end of the file.
unfoldable pub read : ℕ → Source → ReadResult × Source
read n [] = (got [], [])
read n (chunk bs ∷ src) = (got (take n bs), put_back (drop n bs) src)
read n (signal ∷ src) = (eintr, src)
read n (failure ∷ src) = (error, src)

-- An answer to `write`: at most so many bytes are taken, or the call fails.
pub data Answer : Type 0 where
  accept : ℕ → Answer
  refuse : Answer

-- Where no answer is planned, all bytes are taken.
pub record Sink : Type 0 where
  pub plan : List Answer
  pub written : Bytes

pub data WriteResult : Type 0 where
  wrote : ℕ → WriteResult
  write_error : WriteResult

answer : Answer → List Answer → Bytes → Bytes → WriteResult × Sink
answer (accept n) plan written bs =
    (wrote (length (take n bs)), record { plan = plan; written = written ++ take n bs })
answer refuse plan written bs = (write_error, record { plan = plan; written = written })

write_planned : List Answer → Bytes → Bytes → WriteResult × Sink
unfolding answer
write_planned [] written bs = (wrote (length bs), record { plan = []; written = written ++ bs })
write_planned (a ∷ plan) written bs = answer a plan written bs

unfoldable pub write : Bytes → Sink → WriteResult × Sink
unfolding write_planned
write bs sink = write_planned sink.plan sink.written bs
