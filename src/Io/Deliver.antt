-- ===== src/Io/Deliver.antt =====
-- `my_write` for every sequence of answers.
use event_management_server.Base.{
  drop_all, ℕ, zero, suc, ◌+◌, ◌≤◌, ◌≡◌, refl, ap, sym, subst, ◌∙◌, true, List, [], ◌∷◌, ◌++◌,
  arith, length, take, drop, length-append, append_assoc, append-nil, take-append-drop, ltb,
}
use event_management_server.Io.{Code, count, minus_one, my_write_round, my_write_loop, my_write}
use event_management_server.Io.Descriptor.{Bytes, Answer, accept, refuse, Sink, write}

-- All of the buffer is written, after `done` bytes of earlier rounds, or the code is -1 and a front
-- of it is written.
pub data Delivers (buffer before : Bytes) (done : ℕ) (out : Code × Sink) : Type 0 where
  all :
      out.0 ≡ count (done + length buffer)
      → out.1.written ≡ before ++ buffer
      → Delivers buffer before done out
  front :
      (ps qs : Bytes)
      → out.0 ≡ minus_one
      → buffer ≡ ps ++ qs
      → out.1.written ≡ before ++ ps
      → Delivers buffer before done out

Delivers-append :
    (ps qs before : Bytes) (done : ℕ) (out : Code × Sink)
    → Delivers qs (before ++ ps) (done + length ps) out
    → Delivers (ps ++ qs) before done out
Delivers-append ps qs before done out (all c w) =
    all (c ∙ ap (λ n. count n) (omega (arith, length-append ps qs))) (w ∙ append_assoc before ps qs)
Delivers-append ps qs before done out (front ps' qs' c b w) =
    front (ps ++ ps') qs' c (ap (λ t. ps ++ t) b ∙ sym (append_assoc ps ps' qs'))
      (w ∙ append_assoc before ps ps')

abbrev pub sink : List Answer → Bytes → Sink
sink plan written = record { plan = plan; written = written }

drop-take : (n : ℕ) (bs : Bytes) → drop (length (take n bs)) bs ≡ drop n bs
drop-take zero bs = refl
drop-take (suc n) [] = refl
drop-take (suc n) (b ∷ bs) = drop-take n bs

finished :
    (fuel done : ℕ) (left : Bytes) (s : Sink)
    → left ≡ []
    → my_write_loop (suc fuel) done left s ≡ (count done, s)
unfolding my_write_loop
finished fuel done left s none_left = rw none_left

my_write_loop_lem :
    (plan : List Answer) (fuel done : ℕ) (left written : Bytes)
    → length plan + 2 ≤ fuel
    → Delivers left written done (my_write_loop fuel done left (sink plan written))
unfolding my_write_loop my_write_round write
my_write_loop_lem plan zero done left written enough = absurd (omega arith)
my_write_loop_lem plan (suc fuel) done [] written enough =
    all (ap (λ n. count n) (omega arith)) (sym (append-nil written))
my_write_loop_lem [] (suc zero) done (b ∷ bs) written enough = absurd (omega arith)
my_write_loop_lem [] (suc (suc fuel)) done (b ∷ bs) written enough =
    let room : ltb 0 (length (b ∷ bs)) ≡ true = ground arith in
    rw (room, my_write_loop)
      (subst (λ out. Delivers (b ∷ bs) written done out)
        (sym (
          finished fuel (done + length (b ∷ bs)) (drop (length bs) bs) (sink [] (written ++ b ∷ bs))
            (drop_all bs)))
        (all refl refl))
my_write_loop_lem (accept n ∷ plan) (suc fuel) done (b ∷ bs) written enough =
    let room : ltb 0 (length (b ∷ bs)) ≡ true = ground arith in
    let ps : Bytes = take n (b ∷ bs) in
    let again = my_write_loop fuel (done + length ps) in
    rw (room, my_write_loop)
      (subst
        (λ t.
          Delivers t written done (again (drop (length ps) (b ∷ bs)) (sink plan (written ++ ps))))
        (take-append-drop n (b ∷ bs))
        (rw (drop-take n (b ∷ bs)) (
          Delivers-append ps (drop n (b ∷ bs)) written done
            (again (drop n (b ∷ bs)) (sink plan (written ++ ps)))
            (my_write_loop_lem plan fuel (done + length ps) (drop n (b ∷ bs)) (written ++ ps)
              (omega arith)))))
my_write_loop_lem (refuse ∷ plan) (suc fuel) done (b ∷ bs) written enough =
    let room : ltb 0 (length (b ∷ bs)) ≡ true = ground arith in
    rw (room, my_write_loop) (front [] (b ∷ bs) refl refl (sym (append-nil written)))

-- `my_write` ends for every sequence of answers: the code is the size of the buffer and all of it
-- is written behind what was there, or the code is -1 and a front of it is.
pub my_write_lem : (buffer : Bytes) (s : Sink) → Delivers buffer s.written 0 (my_write buffer s)
unfolding my_write
my_write_lem buffer s =
    my_write_loop_lem s.plan (length s.plan + 2) 0 buffer s.written (omega arith)

-- With no answer planned everything is accepted.
pub my_write_open :
    (buffer written : Bytes)
    → my_write buffer (sink [] written) ≡ (count (length buffer), sink [] (written ++ buffer))
unfolding my_write my_write_loop my_write_round write
my_write_open [] written = rw append-nil
my_write_open (b ∷ bs) written =
    let room : ltb 0 (length (b ∷ bs)) ≡ true = ground arith in
    rw (room, my_write_loop)
      (finished 0 (0 + length (b ∷ bs)) (drop (length bs) bs) (sink [] (written ++ b ∷ bs))
          (drop_all bs)
        ∙ ap (λ n. (count n, sink [] (written ++ b ∷ bs))) (omega arith))
