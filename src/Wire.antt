-- ===== src/Wire.antt =====
-- Integers as the bytes that the pipes carry: the objects themselves, as the machine stores them,
-- with the lowest byte first. An int has 4 bytes and a size_t has 8.
pub mod Values
pub mod Answers
use event_management_server.Base.{
  ℕ, zero, suc, ◌+◌, ◌*◌, ◌/◌, ◌%◌, Bool, true, false, Option, none, some, List, [], ◌∷◌, ◌++◌,
  length, drop, ltb, if◌then◌else◌,
}
use event_management_server.Io.{
  Code, count, minus_one, minus_two, out_of_fuel, Received, my_read, my_write,
}
use event_management_server.Io.Descriptor.{Bytes, Source, Sink}

abbrev pub int_size : ℕ
int_size = 4

abbrev pub size_size : ℕ
size_size = 8

unfoldable pub encode : ℕ → ℕ → Bytes
encode zero value = []
encode (suc size) value = value % 256 ∷ encode size (value / 256)

-- The bytes of an array of size_t.
unfoldable pub array_bytes : List ℕ → Bytes
unfolding encode
array_bytes [] = []
array_bytes (x ∷ xs) = encode size_size x ++ array_bytes xs

unfoldable pub decode : Bytes → ℕ
decode [] = 0
decode (b ∷ bs) = b + 256 * decode bs

-- my_read(...) == -1 and my_write(...) == -1
abbrev pub failed : Code → Bool
failed (count n) = false
failed minus_one = true
failed minus_two = false
failed out_of_fuel = false

-- The bytes that were read lie over what the object held before.
unfoldable pub overlay : Bytes → Bytes → Bytes
overlay bytes stale = bytes ++ drop (length bytes) stale

received : Bytes → Received × Source → Bool × ℕ × Source
unfolding overlay decode
received stale (r, src) = (failed r.code, decode (overlay r.bytes stale), src)

-- `my_read` of an object that held the bytes `stale`: whether it failed, the value of the object
-- afterwards, and what is left.
unfoldable pub read_value : ℕ → Bytes → Source → Bool × ℕ × Source
unfolding received
read_value size stale src = received stale (my_read size src)
