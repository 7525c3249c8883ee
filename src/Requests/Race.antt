-- ===== src/Requests/Race.antt =====
-- Two workers and the producer of src/server/main.c as interleaved steps. `worker_function` tests
-- `count` under the mutex, gives the mutex back, and takes the request under the mutex again.
use event_management_server.Base.{
  ◌+◌, ◌-◌, ◌%◌, ◌≡◌, ◌≢◌, refl, ap, ◌∙◌, Bool, true, some, [], ◌∷◌, arith, get_elem?,
  get_elem?_total, uint_mod,
}
use event_management_server.Requests.{
  Request, Buffer, max_session_count, insert_request, retrieve_request, decrement,
}
use event_management_server.Requests.Queue.{IsQueue}

-- In the wait for a request, between the wait and `retrieve_request`, or in `handle_client`.
pub data Phase : Type 0 where
  waiting leaving : Phase
  serving : Request → Phase

pub data Worker : Type 0 where
  first second : Worker

pub record System : Type 0 where
  pub queue : Buffer
  pub workers : Worker → Phase

abbrev pub set_phase : {A : Type 0} → (Worker → A) → Worker → A → Worker → A
set_phase workers first p first = p
set_phase workers first p second = workers second
set_phase workers second p first = workers first
set_phase workers second p second = p

-- `returns r`: `handle_client` returns from the session of `r`. Where it does not, the worker takes no
-- further step.
pub data Step (returns : Request → Bool) (s t : System) : Type 0 where
  insert :
      (r : Request) (b : Buffer)
      → insert_request r s.queue ≡ some b
      → t ≡ record s { queue = b }
      → Step returns s t
  leave :
      (w : Worker)
      → s.workers w ≡ waiting
      → s.queue.count ≢ 0
      → t ≡ record s { workers = set_phase s.workers w leaving }
      → Step returns s t
  retrieve :
      (w : Worker) (r : Request) (b : Buffer)
      → s.workers w ≡ leaving
      → retrieve_request s.queue ≡ some (r, b)
      → t ≡ record { queue = b; workers = set_phase s.workers w (serving r) }
      → Step returns s t
  finish :
      (w : Worker) (r : Request)
      → s.workers w ≡ serving r
      → returns r ≡ true
      → t ≡ record s { workers = set_phase s.workers w waiting }
      → Step returns s t

pub data Reach (returns : Request → Bool) (s : System) : System → Type 0 where
  here : Reach returns s s
  next : {t u : System} → Reach returns s t → Step returns t u → Reach returns s u

-- With one request waiting and both workers idle, both can leave their wait before either takes the
-- request: the first serves it, the second serves what lies in the slot after it, whatever that
-- is, and `count` is -1 (as an int) afterwards.
pub both_workers_retrieve :
    (returns : Request → Bool) (s : System) (request : Request)
    → IsQueue s.queue (request ∷ [])
    → s.workers first ≡ waiting
    → s.workers second ≡ waiting
    → (t : System) × (stale : Request) × Reach returns s t
      × (t.workers first ≡ serving request)
      × (t.workers second ≡ serving stale)
      × (get_elem? s.queue.buffer ((s.queue.out_index + 1) % max_session_count) ≡ some stale)
      × (t.queue.count ≡ uint_mod - 1)
unfolding retrieve_request
both_workers_retrieve returns s request q idle idle' =
    let at_out : get_elem? s.queue.buffer s.queue.out_index ≡ some request =
      ap (λ i. get_elem? s.queue.buffer i) (omega (arith, q.out_bound)) ∙ q.slots 0 (omega arith) in
    let (stale, at_next) =
      get_elem?_total s.queue.buffer ((s.queue.out_index + 1) % max_session_count)
        (omega (arith, q.size)) in
    let b1 : Buffer = record s.queue {
      out_index = (s.queue.out_index + 1) % max_session_count;
      count = decrement s.queue.count;
    } in
    let b2 : Buffer = record b1 {
      out_index = (b1.out_index + 1) % max_session_count;
      count = decrement b1.count;
    } in
    let w1 = set_phase s.workers first leaving in
    let w2 = set_phase w1 second leaving in
    let w3 = set_phase w2 first (serving request) in
    let w4 = set_phase w3 second (serving stale) in
    (
      record { queue = b2; workers = w4 },
      stale,
      next
          (next
            (next (next here (leave first idle (omega (arith, q.counted)) refl))
              (leave second idle' (omega (arith, q.counted)) refl))
            (retrieve first request b1 refl (rw (at_out, retrieve_request)) refl))
          (retrieve second stale b2 refl (rw (at_next, retrieve_request)) refl),
      refl,
      refl,
      at_next,
      omega (arith, q.counted),
    )
