-- ===== src/Io/Left.antt =====
-- What a call of `read` leaves to read, for every answer.
use event_management_server.Base.{
  ℕ, ◌+◌, ◌≡◌, ◌≤◌, Bool, true, false, if◌then◌else◌, refl, ap, [], ◌∷◌, arith, length,
  length-append, take, drop, take-append-drop,
}
use event_management_server.Io.Descriptor.{
  Source, chunk, signal, failure, ReadResult, got, eintr, error, read,
}
use event_management_server.Io.Transfer.{contents, contents-put_back}

-- The number of bytes that are to come.
abbrev pub left : Source → ℕ
left src = length (contents src)

abbrev pub taken : ReadResult → ℕ
taken (got bs) = length bs
taken eintr = 0
taken error = 0

pub read-left : (n : ℕ) (src : Source) → taken (read n src).0 + left (read n src).1 ≡ left src
unfolding read
read-left n [] = refl
read-left n (chunk bs ∷ src) = omega (
  arith,
  ap length (contents-put_back (drop n bs) src),
  length-append (drop n bs) (contents src),
  ap length (take-append-drop n bs),
  length-append (take n bs) (drop n bs),
  length-append bs (contents src),
)
read-left n (signal ∷ src) = omega arith
read-left n (failure ∷ src) = omega arith

-- At most `n` bytes are left to read.
pub record Within {A : Type 0} (n : ℕ) (out : A × Source) : Type 0 where
  pub bound : left out.1 ≤ n

module _ (n : ℕ) where
  pub Within-if :
      {A : Type 0} (b : Bool) (r r' : A × Source)
      → Within n r
      → Within n r'
      → Within n (if b then r else r')
  Within-if true r r' h h' = h
  Within-if false r r' h h' = h'

  pub if-left :
      (b : Bool) (src src' : Source)
      → left src ≤ n
      → left src' ≤ n
      → left (if b then src else src') ≤ n
  if-left true src src' h h' = h
  if-left false src src' h h' = h'

  pub Within-pair : {A : Type 0} (a : A) (src : Source) → left src ≤ n → Within n (a, src)
  Within-pair a src h = record { bound = h }

  pub read-Within : (k : ℕ) (src : Source) → left src ≤ n → left (read k src).1 ≤ n
  read-Within k src h = omega (arith, read-left k src)
