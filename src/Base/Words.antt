-- ===== src/Base/Words.antt =====
-- The widths of the machine's integers: `unsigned int` has 32 bits and `size_t` has 64.
use Prim.Native.Nat.{ℕ, ◌^◌}

abbrev pub uint_mod : ℕ
uint_mod = 2 ^ 32

abbrev pub size_mod : ℕ
size_mod = 2 ^ 64
