-- ===== src/Requests/Waits/Wakeups.antt =====
-- Sleeping workers of src/server/main.c, and the requests that wait.
use event_management_server.Base.{
  Bool, ℕ, ◌+◌, ◌%◌, ◌<◌, ◌≤◌, ◌≡◌, ◌≢◌, refl, sym, ap, ◌∙◌, ◌⊎◌, inl, inr, some, some-injective,
  Option-cases, Bool-cases, ◌==◌, ltb, arith, get_elem?, uint_mod,
}
use event_management_server.Requests.{
  Request, Buffer, max_session_count, insert_request, retrieve_request, increment, decrement,
}
use event_management_server.Requests.Race.{Worker, first, second, set_phase}
use event_management_server.Requests.Waits.{
  Activity, testing, asleep, leaving, serving, Threads, Signal, wakes, no_one, int_min, Move,
  insert, sleep, wake_up, leave, retrieve, finish, Runs, here, then_moves,
}

-- 1 for a worker that is to take a request.
about_to : Activity → ℕ
about_to testing = 1
about_to asleep = 0
about_to leaving = 1
about_to (serving r) = 0

-- The number of workers that are to take a request.
ready : (Worker → Activity) → ℕ
ready workers = about_to (workers first) + about_to (workers second)

ready-set_phase :
    (workers : Worker → Activity) (w : Worker) (a : Activity)
    → ready (set_phase workers w a) + about_to (workers w) ≡ ready workers + about_to a
unfolding ready
ready-set_phase workers first a = omega arith
ready-set_phase workers second a = omega arith

-- Where a worker sleeps, there are no more requests than workers that are to take one.
record IsCovered (t : Threads) : Type 0 where
  in_range : t.queue.count < uint_mod
  covered :
      (w : Worker)
      → t.workers w ≡ asleep
      → t.queue.count < int_min
      → t.queue.count ≤ ready t.workers

-- Who sleeps after another's step has slept before.
still_asleep :
    (workers : Worker → Activity) (w v : Worker) (a : Activity)
    → a ≢ asleep
    → set_phase workers w a v ≡ asleep
    → workers v ≡ asleep
still_asleep workers first first a awake e = absurd (awake e)
still_asleep workers first second a awake e = e
still_asleep workers second first a awake e = e
still_asleep workers second second a awake e = absurd (awake e)

count-insert_request :
    (r : Request) (b b' : Buffer) → insert_request r b ≡ some b' → b'.count ≡ increment b.count
unfolding insert_request
count-insert_request r b b' e = elim (Bool-cases (b.count == max_session_count)) [
  | inl full ↦ absurd (ground (arith, full, e))
  | inr room ↦ sym (ap (λ c. c.count) (some-injective (simp room at e)))
]

count-retrieve_request :
    (r : Request) (b b' : Buffer) → retrieve_request b ≡ some (r, b') → b'.count ≡ decrement b.count
unfolding retrieve_request
count-retrieve_request r b b' e = elim (Option-cases (get_elem? b.buffer b.out_index)) [
  | inl outside ↦ absurd (ground (arith, outside, e))
  | inr (stored, held) ↦
      let after : Buffer = record b {
        out_index = (b.out_index + 1) % max_session_count;
        count = decrement b.count;
      } in
      let opened : retrieve_request b ≡ some (stored, after) = rw (held, retrieve_request) refl in
      ap (λ out. out.1.count) (some-injective (sym e ∙ opened))
]

testing_awake : testing ≢ asleep
testing_awake e = cc

leaving_awake : leaving ≢ asleep
leaving_awake e = cc

serving_awake : (r : Request) → serving r ≢ asleep
serving_awake r e = cc

Signal-IsCovered :
    (queue b : Buffer) (before after : Worker → Activity)
    → b.count ≡ increment queue.count
    → Signal before after
    → IsCovered (record { queue = queue; workers = before })
    → IsCovered (record { queue = b; workers = after })
unfolding about_to
Signal-IsCovered queue b before after counted (wakes w slept same) c = rw same (record {
  in_range = omega (arith, counted);
  covered = λ v idle fits.
      let more = ready-set_phase before w testing in
      elim (Bool-cases (ltb queue.count int_min)) [
        | inl low ↦
            let enough : queue.count ≤ ready before = c.covered w slept (ground arith) in
            omega (arith, counted, more, ap about_to slept)
        | inr negative ↦
            let high : int_min ≤ queue.count = ground arith in
            omega (arith, counted, fits, c.in_range)
      ];
})
Signal-IsCovered queue b before after counted (no_one none same) c =
    rw same
      (record { in_range = omega (arith, counted); covered = λ v idle fits. absurd (none v idle) })

-- A step of one worker to `a`, which leaves the requests that wait as they are.
set_phase-IsCovered :
    (s : Threads) (w : Worker) (a : Activity)
    → a ≢ asleep
    → about_to (s.workers w) ≤ about_to a
    → IsCovered s
    → IsCovered (record s { workers = set_phase s.workers w a })
set_phase-IsCovered s w a awake more c = record {
  in_range = c.in_range;
  covered = λ v idle fits. omega (
    arith,
    ready-set_phase s.workers w a,
    more,
    c.covered v (still_asleep s.workers w v a awake idle) fits,
  );
}

Move-IsCovered :
    (returns : Request → Bool) (s t : Threads) → Move returns s t → IsCovered s → IsCovered t
unfolding about_to
Move-IsCovered returns s t (insert r b after taken signal same) c =
    rw same
      (Signal-IsCovered s.queue b s.workers after (count-insert_request r s.queue b taken) signal c)
Move-IsCovered returns s t (sleep w tests none same) c =
    rw same (record { in_range = c.in_range; covered = λ v idle fits. omega (arith, none) })
Move-IsCovered returns s t (wake_up w slept same) c =
    rw same (set_phase-IsCovered s w testing testing_awake (omega (arith, ap about_to slept)) c)
Move-IsCovered returns s t (leave w tests some_wait same) c =
    rw same (set_phase-IsCovered s w leaving leaving_awake (omega (arith, ap about_to tests)) c)
Move-IsCovered returns s t (finish w r busy back same) c =
    rw same (set_phase-IsCovered s w testing testing_awake (omega (arith, ap about_to busy)) c)
Move-IsCovered returns s t (retrieve w r b goes enough taken same) c =
    let counted = count-retrieve_request r s.queue b taken in
    rw same (record {
      in_range = omega (arith, counted);
      covered = λ v idle fits.
          let fewer = ready-set_phase s.workers w (serving r) in
          let slept = still_asleep s.workers w v (serving r) (serving_awake r) idle in
          elim (Bool-cases (ltb s.queue.count int_min)) [
            | inl low ↦
                let before : s.queue.count ≤ ready s.workers = c.covered v slept (ground arith) in
                omega (arith, counted, fits, before, fewer, ap about_to goes)
            | inr negative ↦
                let high : int_min ≤ s.queue.count = ground arith in
                absurd (omega (arith, counted, fits, high, enough, c.in_range))
          ];
    })

Runs-IsCovered :
    (returns : Request → Bool) (s t : Threads) → Runs returns s t → IsCovered s → IsCovered t
Runs-IsCovered returns s t here c = c
Runs-IsCovered returns s t (then_moves {t = u} so_far step) c =
    Move-IsCovered returns u t step (Runs-IsCovered returns s u so_far c)

-- Both workers have started, and no request waits.
pub record IsStart (s : Threads) : Type 0 where
  pub none_wait : s.queue.count ≡ 0
  pub both_test : (w : Worker) → s.workers w ≡ testing

about_to-some : (a : Activity) → 0 < about_to a → (a ≡ testing) ⊎ (a ≡ leaving)
unfolding about_to
about_to-some testing h = inl refl
about_to-some asleep h = absurd (omega arith)
about_to-some leaving h = inr refl
about_to-some (serving r) h = absurd (omega arith)

ready-some :
    (workers : Worker → Activity)
    → 0 < ready workers
    → (w : Worker) × ((workers w ≡ testing) ⊎ (workers w ≡ leaving))
unfolding ready
ready-some workers h = elim (Bool-cases (ltb 0 (about_to (workers first)))) [
  | inl one ↦ (first, about_to-some (workers first) (ground arith))
  | inr not_one ↦ (second, about_to-some (workers second) (ground arith))
]

-- No wake-up is lost: in whatever order the producer and the workers go on from the start, and also
-- where waits end with no signal, if a worker sleeps while `count` is positive, another one is to
-- take a request: it is at the test of `count`, or behind it.
pub no_lost_wakeup :
    (returns : Request → Bool) (s t : Threads) (v : Worker)
    → IsStart s
    → Runs returns s t
    → t.workers v ≡ asleep
    → 0 < t.queue.count
    → t.queue.count < int_min
    → (w : Worker) × ((t.workers w ≡ testing) ⊎ (t.workers w ≡ leaving))
no_lost_wakeup returns s t v start run slept some_wait fits =
    let c = Runs-IsCovered returns s t run (record {
      in_range = omega (arith, start.none_wait);
      covered = λ w idle low. omega (arith, start.none_wait);
    }) in
    ready-some t.workers (omega (arith, c.covered v slept fits, some_wait))
