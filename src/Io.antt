-- ===== src/Io.antt =====
-- src/common/io.c. What the kernel answers to `read` and `write` is part of a descriptor's state, so an
-- interrupted or failed call and a short transfer are inputs.
pub mod Descriptor
pub mod Transfer
pub mod Left
pub mod Deliver
use event_management_server.Base.{
  ℕ, zero, suc, ◌+◌, ◌-◌, ◌*◌, ◌/◌, ◌%◌, Bool, true, false, ◌&&◌, ◌||◌, not, Option, none, some,
  List, [], ◌∷◌, ◌++◌, length, drop, set, replicate, ltb, leb, ◌==◌, if◌then◌else◌, uint_mod,
  size_mod,
}
use event_management_server.Io.Descriptor.{
  Bytes, Source, ReadResult, got, eintr, error, read, Sink, WriteResult, wrote, write_error, write,
}

-- The value of `ssize_t` that `my_read` and `my_write` return.
pub data Code : Type 0 where
  count : ℕ → Code
  minus_one minus_two out_of_fuel : Code

-- The code, and the bytes that were put into the buffer.
pub record Received : Type 0 where
  pub code : Code
  pub bytes : Bytes

-- What follows one `read`, with `filled` in the buffer; `again` is the next round.
unfoldable pub my_read_round :
    (again : Bytes → Source → Received × Source) → Bytes → ReadResult × Source → Received × Source
my_read_round again filled (eintr, src) = (record { code = minus_two; bytes = filled }, src)
my_read_round again filled (error, src) = (record { code = minus_one; bytes = filled }, src)
my_read_round again filled (got [], src) =
    (record { code = count (length filled); bytes = filled }, src)
my_read_round again filled (got (b ∷ bs), src) = again (filled ++ b ∷ bs) src

-- The loop; `done` of the source is the length of `filled`.
unfoldable pub my_read_loop : ℕ → ℕ → Bytes → Source → Received × Source
unfolding my_read_round
my_read_loop zero size filled src = (record { code = out_of_fuel; bytes = filled }, src)
my_read_loop (suc fuel) size filled src = elim (ltb (length filled) size) [
  | false ↦ (record { code = count (length filled); bytes = filled }, src)
  | true ↦ my_read_round (my_read_loop fuel size) filled (read (size - length filled) src)
]

-- Each round but the last fills in one byte at least, so there are at most `size + 1` of them.
unfoldable pub my_read : ℕ → Source → Received × Source
unfolding my_read_loop read
my_read size src = my_read_loop (size + 1) size [] src

-- What follows one `write` of the bytes in `left`, of which `done` were written before.
unfoldable pub my_write_round :
    (again : ℕ → Bytes → Sink → Code × Sink) → ℕ → Bytes → WriteResult × Sink → Code × Sink
my_write_round again done left (write_error, sink) = (minus_one, sink)
my_write_round again done left (wrote n, sink) = again (done + n) (drop n left) sink

unfoldable pub my_write_loop : ℕ → ℕ → Bytes → Sink → Code × Sink
unfolding my_write_round
my_write_loop zero done left sink = (out_of_fuel, sink)
my_write_loop (suc fuel) done left sink = elim (ltb 0 (length left)) [
  | false ↦ (count done, sink)
  | true ↦ my_write_round (my_write_loop fuel) done left (write left sink)
]

-- Each round takes one of the answers of the kernel that are still to come; after them it accepts
-- everything.
unfoldable pub my_write : Bytes → Sink → Code × Sink
unfolding my_write_loop write
my_write buffer sink = my_write_loop (length sink.plan + 2) 0 buffer sink
