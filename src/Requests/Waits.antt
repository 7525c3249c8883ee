-- ===== src/Requests/Waits.antt =====
-- Workers and producer of src/server/main.c with `not_empty_cond`: what `pthread_cond_wait` and
-- `pthread_cond_signal` do is part of the steps. A wait may also end with no signal. An insertion into a
-- full buffer is no step until there is room.
pub mod Wakeups
use event_management_server.Base.{
  Bool, true, ℕ, ◌+◌, ◌-◌, ◌*◌, ◌%◌, ◌<◌, ◌≤◌, ◌≡◌, ◌≢◌, refl, sym, ap, ◌∙◌, subst, ◌⊎◌, inl, inr,
  some, some-injective, Option-cases, Bool-cases, ◌==◌, ltb, List, [], ◌∷◌, arith, get_elem?,
  uint_mod,
}
use event_management_server.Requests.{
  Request, Buffer, max_session_count, insert_request, retrieve_request, increment, decrement,
}
use event_management_server.Requests.Race.{Worker, first, second, set_phase}

-- At the test of `count`, in the wait, between the test and `retrieve_request`, or in
-- `handle_client`.
pub data Activity : Type 0 where
  testing asleep leaving : Activity
  serving : Request → Activity

pub record Threads : Type 0 where
  pub queue : Buffer
  pub workers : Worker → Activity

-- pthread_cond_signal(&not_empty_cond)
pub data Signal (before after : Worker → Activity) : Type 0 where
  wakes :
      (w : Worker) → before w ≡ asleep → after ≡ set_phase before w testing → Signal before after
  no_one : ((w : Worker) → before w ≢ asleep) → after ≡ before → Signal before after

-- `count` of the source is an int, and INT_MIN - 1 is no step of it.
abbrev pub int_min : ℕ
int_min = 2147483648

-- `returns r`: `handle_client` returns from the session of `r`. Where it does not, as at a pipe that
-- does not open, the worker takes no further step.
pub data Move (returns : Request → Bool) (s t : Threads) : Type 0 where
  insert :
      (r : Request) (b : Buffer) (after : Worker → Activity)
      → insert_request r s.queue ≡ some b
      → Signal s.workers after
      → t ≡ record { queue = b; workers = after }
      → Move returns s t
  sleep :
      (w : Worker)
      → s.workers w ≡ testing
      → s.queue.count ≡ 0
      → t ≡ record s { workers = set_phase s.workers w asleep }
      → Move returns s t
  wake_up :
      (w : Worker)
      → s.workers w ≡ asleep
      → t ≡ record s { workers = set_phase s.workers w testing }
      → Move returns s t
  leave :
      (w : Worker)
      → s.workers w ≡ testing
      → s.queue.count ≢ 0
      → t ≡ record s { workers = set_phase s.workers w leaving }
      → Move returns s t
  retrieve :
      (w : Worker) (r : Request) (b : Buffer)
      → s.workers w ≡ leaving
      → s.queue.count ≢ int_min
      → retrieve_request s.queue ≡ some (r, b)
      → t ≡ record { queue = b; workers = set_phase s.workers w (serving r) }
      → Move returns s t
  finish :
      (w : Worker) (r : Request)
      → s.workers w ≡ serving r
      → returns r ≡ true
      → t ≡ record s { workers = set_phase s.workers w testing }
      → Move returns s t

pub data Runs (returns : Request → Bool) (s : Threads) : Threads → Type 0 where
  here : Runs returns s s
  then_moves : {t u : Threads} → Runs returns s t → Move returns t u → Runs returns s u
