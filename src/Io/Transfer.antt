-- ===== src/Io/Transfer.antt =====
-- `my_read` for every sequence of answers.
use event_management_server.Base.{
  ℕ, zero, suc, ◌+◌, ◌-◌, ◌<◌, ◌≤◌, ◌≡◌, refl, ap, sym, subst, ◌∙◌, true, false, ◌⊎◌, inl, inr, [],
  ◌∷◌, ◌++◌, arith, length, take, drop, length-append, append_assoc, append-nil, take-append-drop,
  length-take-le, split_longer, ltb, Bool-cases,
}
use event_management_server.Io.{
  count, minus_one, minus_two, Received, my_read_round, my_read_loop, my_read,
}
use event_management_server.Io.Descriptor.{
  Bytes, chunk, signal, failure, Source, got, put_back, read,
}

-- The bytes that are still to come.
abbrev pub contents : Source → Bytes
contents [] = []
contents (chunk bs ∷ src) = bs ++ contents src
contents (signal ∷ src) = contents src
contents (failure ∷ src) = contents src

pub contents-put_back :
    (bs : Bytes) (src : Source) → contents (put_back bs src) ≡ bs ++ contents src
contents-put_back [] src = refl
contents-put_back (b ∷ bs) src = refl

-- What was there is split between the bytes in the buffer, `size` at most, and what is still to come;
-- the code is the number of bytes, or -1 or -2.
pub record Conserves (size : ℕ) (all : Bytes) (out : Received × Source) : Type 0 where
  pub conserved : out.0.bytes ++ contents out.1 ≡ all
  pub bounded : length out.0.bytes ≤ size
  pub code :
      (out.0.code ≡ count (length out.0.bytes))
      ⊎ (out.0.code ≡ minus_one)
      ⊎ (out.0.code ≡ minus_two)

module _ (size : ℕ) where
  chunk-Conserves :
      (again : Bytes → Source → Received × Source) (filled ps qs : Bytes) (src : Source)
      → length filled < size
      → ((b : ℕ) (bs : Bytes) (src' : Source)
          → length (filled ++ b ∷ bs) ≤ size
          → Conserves size ((filled ++ b ∷ bs) ++ contents src') (again (filled ++ b ∷ bs) src'))
      → length ps ≤ size - length filled
      → Conserves size
          (filled ++ ((ps ++ qs) ++ contents src))
          (my_read_round again filled (got ps, put_back qs src))
  unfolding my_read_round
  chunk-Conserves again filled [] qs src room next fits = record {
    conserved = rw contents-put_back;
    bounded = omega arith;
    code = inl refl;
  }
  chunk-Conserves again filled (b ∷ bs) qs src room next fits =
      subst (λ t. Conserves size t (again (filled ++ b ∷ bs) (put_back qs src)))
        (simp (contents-put_back, append_assoc))
        (next b bs (put_back qs src) (omega (arith, length-append filled (b ∷ bs))))

  round-Conserves :
      (again : Bytes → Source → Received × Source) (filled : Bytes) (src : Source)
      → length filled < size
      → ((b : ℕ) (bs : Bytes) (src' : Source)
          → length (filled ++ b ∷ bs) ≤ size
          → Conserves size ((filled ++ b ∷ bs) ++ contents src') (again (filled ++ b ∷ bs) src'))
      → Conserves size
          (filled ++ contents src)
          (my_read_round again filled (read (size - length filled) src))
  unfolding my_read_round read
  round-Conserves again filled [] room next = record {
    conserved = refl;
    bounded = omega arith;
    code = inl refl;
  }
  round-Conserves again filled (signal ∷ src) room next = record {
    conserved = refl;
    bounded = omega arith;
    code = inr (inr refl);
  }
  round-Conserves again filled (failure ∷ src) room next = record {
    conserved = refl;
    bounded = omega arith;
    code = inr (inl refl);
  }
  round-Conserves again filled (chunk bs ∷ src) room next =
      let n = size - length filled in
      subst
        (λ t.
          Conserves size (filled ++ (t ++ contents src))
            (my_read_round again filled (got (take n bs), put_back (drop n bs) src)))
        (take-append-drop n bs)
        (chunk-Conserves again filled (take n bs) (drop n bs) src room next (length-take-le n bs))

  my_read_loop-Conserves :
      (fuel : ℕ) (filled : Bytes) (src : Source)
      → size < length filled + fuel
      → length filled ≤ size
      → Conserves size (filled ++ contents src) (my_read_loop fuel size filled src)
  unfolding my_read_loop
  my_read_loop-Conserves zero filled src enough fits = absurd (omega arith)
  my_read_loop-Conserves (suc fuel) filled src enough fits =
      elim (Bool-cases (ltb (length filled) size)) [
        | inr full ↦
            rw (full, my_read_loop) (record { conserved = refl; bounded = fits; code = inl refl })
        | inl room ↦
            rw (room, my_read_loop)
              (round-Conserves (my_read_loop fuel size) filled src (ground arith) λ b bs src' h.
                my_read_loop-Conserves fuel (filled ++ b ∷ bs) src'
                  (omega (arith, length-append filled (b ∷ bs))) h)
      ]

-- Whatever the kernel answers, `my_read` ends. It puts `size` bytes at most into the buffer, and
-- these bytes followed by what is still to come are what was to come before; the code is their
-- number, or -1 or -2.
pub my_read-Conserves : (size : ℕ) (src : Source) → Conserves size (contents src) (my_read size src)
unfolding my_read
my_read-Conserves size src =
    my_read_loop-Conserves size (size + 1) [] src (omega arith) (omega arith)

-- Every chunk holds a byte, and no call fails or is interrupted.
abbrev pub IsFlowing : Source → Type 0
IsFlowing [] = Unit {0}
IsFlowing (chunk [] ∷ src) = ⊥
IsFlowing (chunk (b ∷ bs) ∷ src) = IsFlowing src
IsFlowing (signal ∷ src) = ⊥
IsFlowing (failure ∷ src) = ⊥

IsFlowing-put_back : (bs : Bytes) (src : Source) → IsFlowing src → IsFlowing (put_back bs src)
IsFlowing-put_back [] src h = h
IsFlowing-put_back (b ∷ bs) src h = h

-- The bytes `bs` were read, and `rest` is still to come.
pub record Full (size : ℕ) (all rest : Bytes) (out : Received × Source) : Type 0 where
  pub result : out.0 ≡ record { code = count size; bytes = all }
  pub flowing : IsFlowing out.1
  pub left : contents out.1 ≡ rest

my_read_loop-Full :
    (size fuel : ℕ) (filled bs rest : Bytes) (src : Source)
    → IsFlowing src
    → contents src ≡ bs ++ rest
    → length filled + length bs ≡ size
    → length bs < fuel
    → Full size (filled ++ bs) rest (my_read_loop fuel size filled src)
unfolding my_read_loop my_read_round read
my_read_loop-Full size zero filled bs rest src flow e n enough = absurd (omega arith)
my_read_loop-Full size (suc fuel) filled [] rest src flow e n enough =
    let full : ltb (length filled) size ≡ false = ground arith in
    let exact : length filled ≡ size = omega arith in
    rw (full, my_read_loop) (record { result = rw (exact, append-nil); flowing = flow; left = e })
my_read_loop-Full size (suc fuel) filled (b ∷ bs) rest [] flow e n enough = cc
my_read_loop-Full size (suc fuel) filled (b ∷ bs) rest (chunk [] ∷ src) flow e n enough =
    absurd flow
my_read_loop-Full size (suc fuel) filled (b ∷ bs) rest (signal ∷ src) flow e n enough = absurd flow
my_read_loop-Full size (suc fuel) filled (b ∷ bs) rest (failure ∷ src) flow e n enough = absurd flow
my_read_loop-Full size (suc fuel) filled (b ∷ bs) rest (chunk (c ∷ cs) ∷ src) flow e n enough =
    let room : ltb (length filled) size ≡ true = ground arith in
    let need : size - length filled ≡ suc (length bs) = omega arith in
    let ps : Bytes = c ∷ take (length bs) cs in
    let qs : Bytes = drop (length bs) cs in
    let whole : ps ++ (qs ++ contents src) ≡ (b ∷ bs) ++ rest =
      ap (λ t. c ∷ t)
        (sym (append_assoc (take (length bs) cs) qs (contents src))
          ∙ ap (λ t. t ++ contents src) (take-append-drop (length bs) cs))
      ∙ e in
    let (ms, front, back) =
      split_longer ps (b ∷ bs) (qs ++ contents src) rest whole
        (omega (arith, length-take-le (length bs) cs)) in
    let lengths : length (b ∷ bs) ≡ length ps + length ms = ap length front ∙ length-append ps ms in
    rw (room, my_read_loop, need)
      (subst (λ t. Full size t rest (my_read_loop fuel size (filled ++ ps) (put_back qs src)))
        (append_assoc filled ps ms ∙ ap (λ t. filled ++ t) (sym front))
        (my_read_loop-Full size fuel (filled ++ ps) ms rest (put_back qs src)
          (IsFlowing-put_back qs src flow) (contents-put_back qs src ∙ back)
          (omega (arith, length-append filled ps)) (omega arith)))

-- However the bytes are split into chunks, `my_read` delivers as many as it is asked for, in order,
-- if so many are to come, and leaves the rest.
pub my_read-Full :
    (bs rest : Bytes) (src : Source)
    → IsFlowing src
    → contents src ≡ bs ++ rest
    → Full (length bs) bs rest (my_read (length bs) src)
unfolding my_read
my_read-Full bs rest src flow e =
    my_read_loop-Full (length bs) (length bs + 1) [] bs rest src flow e (omega arith) (omega arith)
