-- ===== src/Requests/Queue.antt =====
-- `insert_request` and `retrieve_request`, and the queue that the buffer stands for.
use event_management_server.Base.{
  ℕ, zero, suc, ◌+◌, ◌%◌, ◌<◌, ◌≤◌, ◌≡◌, ◌≢◌, refl, ap, sym, ◌∙◌, true, false, none, some, List, [],
  ◌∷◌, ◌++◌, arith, get_elem?, set, length, length-append, length-set, get_elem?-set_self,
  get_elem?-set_ne, ◌==◌, if◌then◌else◌, Bool-cases, ◌⊎◌, inl, inr, ltb, append-nil, append_assoc,
}
use event_management_server.Requests.{
  Request, Buffer, max_session_count, insert_request, retrieve_request, increment, decrement,
}

-- The requests that wait, first in first: they lie in the buffer from `out_index` on.
pub record IsQueue (b : Buffer) (waiting : List Request) : Type 0 where
  pub size : length b.buffer ≡ max_session_count
  pub out_bound : b.out_index < max_session_count
  pub counted : b.count ≡ length waiting
  pub fits : length waiting ≤ max_session_count
  pub in_place : b.in_index ≡ (b.out_index + length waiting) % max_session_count
  pub slots :
      (k : ℕ)
      → k < length waiting
      → get_elem? b.buffer ((b.out_index + k) % max_session_count) ≡ get_elem? waiting k

abbrev pub stamped : Request → Buffer → Request
stamped request b = record request { session_id = b.session_counter }

get_elem?-append_front :
    (xs ys : List Request) (k : ℕ) → k < length xs → get_elem? (xs ++ ys) k ≡ get_elem? xs k
get_elem?-append_front [] ys k h = elim h [ ]
get_elem?-append_front (x ∷ xs) ys zero h = refl
get_elem?-append_front (x ∷ xs) ys (suc k) h = get_elem?-append_front xs ys k (omega arith)

get_elem?-append_last :
    (xs : List Request) (y : Request) → get_elem? (xs ++ y ∷ []) (length xs) ≡ some y
get_elem?-append_last [] y = refl
get_elem?-append_last (x ∷ xs) y = get_elem?-append_last xs y

slots_after_insert :
    (b : Buffer) (waiting : List Request) (r : Request) (k : ℕ)
    → IsQueue b waiting
    → length waiting < max_session_count
    → k < length waiting + 1
    → get_elem? (set b.buffer b.in_index r) ((b.out_index + k) % max_session_count)
      ≡ get_elem? (waiting ++ r ∷ []) k
slots_after_insert b waiting r k q room h = elim (Bool-cases (ltb k (length waiting))) [
  | inl older ↦
      let k-lt : k < length waiting = ground arith in
      let apart : b.in_index ≢ (b.out_index + k) % max_session_count =
        omega (arith, q.in_place, q.out_bound) in
      get_elem?-set_ne b.buffer b.in_index ((b.out_index + k) % max_session_count) r apart
      ∙ q.slots k k-lt
      ∙ sym (get_elem?-append_front waiting (r ∷ []) k k-lt)
  | inr newest ↦
      let last : k ≡ length waiting = ground arith in
      rw (last, ← q.in_place)
        (get_elem?-set_self b.buffer b.in_index r (omega (arith, q.in_place, q.size))
          ∙ sym (get_elem?-append_last waiting r))
]

insert-room :
    (request : Request) (b : Buffer) (waiting : List Request)
    → IsQueue b waiting
    → (length waiting ≡ max_session_count → insert_request request b ≡ none)
      × (length waiting < max_session_count
          → (b' : Buffer) × (insert_request request b ≡ some b')
            × IsQueue b' (waiting ++ stamped request b ∷ [])
            × (b'.session_counter ≡ increment b.session_counter))
unfolding insert_request
insert-room request b waiting q = (
  λ full. ground (arith, q.counted),
  λ room.
      let not_full : (b.count == max_session_count) ≡ false = ground (arith, q.counted) in
      let last : length (waiting ++ stamped request b ∷ []) ≡ length waiting + 1 =
        length-append waiting _ in
      (
        record {
          buffer = set b.buffer b.in_index (stamped request b);
          in_index = (b.in_index + 1) % max_session_count;
          out_index = b.out_index;
          count = increment b.count;
          session_counter = increment b.session_counter;
        },
        rw not_full,
        record {
          size = length-set b.buffer b.in_index _ ∙ q.size;
          out_bound = q.out_bound;
          counted = omega (arith, q.counted);
          fits = omega arith;
          in_place = omega (arith, q.in_place);
          slots = λ k h. slots_after_insert b waiting (stamped request b) k q room (omega arith);
        },
        refl,
      ),
)

-- `insert_request` waits exactly when the buffer is full, and else puts the request at the end with
-- the session counter as its id, and raises the counter.
pub insert_request_lem :
    (request : Request) (b : Buffer) (waiting : List Request)
    → IsQueue b waiting
    → ((length waiting ≡ max_session_count) × (insert_request request b ≡ none))
      ⊎ ((b' : Buffer) × (length waiting < max_session_count)
          × (insert_request request b ≡ some b')
          × IsQueue b' (waiting ++ stamped request b ∷ [])
          × (b'.session_counter ≡ increment b.session_counter))
insert_request_lem request b waiting q =
    elim (Bool-cases (ltb (length waiting) max_session_count)) [
      | inl room ↦
          let fewer : length waiting < max_session_count = ground arith in
          let (b', eq, q', raised) = (insert-room request b waiting q).1 fewer in
          inr (b', fewer, eq, q', raised)
      | inr no_room ↦
          let full : length waiting ≡ max_session_count = ground (arith, q.fits) in
          inl (full, (insert-room request b waiting q).0 full)
    ]

-- `retrieve_request` on a buffer that is not empty takes the first request.
pub retrieve_request_lem :
    (b : Buffer) (request : Request) (waiting : List Request)
    → IsQueue b (request ∷ waiting)
    → (b' : Buffer) × (retrieve_request b ≡ some (request, b')) × IsQueue b' waiting
unfolding retrieve_request
retrieve_request_lem b request waiting q =
    let here : (b.out_index + 0) % max_session_count ≡ b.out_index = omega (arith, q.out_bound) in
    let first : get_elem? b.buffer b.out_index ≡ some request =
      ap (λ i. get_elem? b.buffer i) (sym here) ∙ q.slots 0 (omega arith) in
    (
      record b { out_index = (b.out_index + 1) % max_session_count; count = decrement b.count },
      rw (first, retrieve_request),
      record {
        size = q.size;
        out_bound = omega arith;
        counted = omega (arith, q.counted, q.fits);
        fits = omega (arith, q.fits);
        in_place = omega (arith, q.in_place);
        slots = λ k h.
            let next : ((b.out_index + 1) % max_session_count + k) % max_session_count
                ≡ (b.out_index + suc k) % max_session_count =
              omega arith in
            ap (λ i. get_elem? b.buffer i) next ∙ q.slots (suc k) (omega arith);
      },
    )

-- A history of the buffer: requests that were inserted, and workers that take one.
pub data Action : Type 0 where
  insert : Request → Action
  take : Action

-- The requests delivered by a history, and the buffer after it; an action that would have to wait
-- is put off, that is, it does nothing. A worker looks at `count` and takes in one step here.
pub run : List Action → Buffer → List Request × Buffer
run [] b = ([], b)
run (insert r ∷ actions) b = elim (insert_request r b) [
  | none ↦ run actions b
  | some b' ↦ run actions b'
]
run (take ∷ actions) b = if b.count == 0 then run actions b else elim (retrieve_request b) [
  | none ↦ run actions b
  | some (r, b') ↦ let (delivered, b'') = run actions b' in (r ∷ delivered, b'')
]

-- The requests that a history admits, with the ids that they get.
pub admitted : List Action → Buffer → List Request
admitted [] b = []
admitted (insert r ∷ actions) b = elim (insert_request r b) [
  | none ↦ admitted actions b
  | some b' ↦ stamped r b ∷ admitted actions b'
]
admitted (take ∷ actions) b =
    if b.count == 0 then admitted actions b else elim (retrieve_request b) [
      | none ↦ admitted actions b
      | some (r, b') ↦ admitted actions b'
    ]

-- Where workers test and take in one step, what was waiting and what was admitted is delivered
-- first in, first out: nothing is lost, doubled or overtaken, and what is not delivered yet waits.
pub run_fifo :
    (actions : List Action) (b : Buffer) (waiting : List Request)
    → IsQueue b waiting
    → (left : List Request) × (waiting ++ admitted actions b ≡ (run actions b).0 ++ left)
      × IsQueue (run actions b).1 left
unfolding run admitted
run_fifo [] b waiting q = (waiting, append-nil waiting, q)
run_fifo (insert r ∷ actions) b waiting q =
    elim (Bool-cases (ltb (length waiting) max_session_count)) [
      | inl room ↦
          let (b', eq, q', _) = (insert-room r b waiting q).1 (ground arith) in
          let (left, same, q'') = run_fifo actions b' (waiting ++ stamped r b ∷ []) q' in
          rw (eq, run, admitted)
            (left, sym (append_assoc waiting (stamped r b ∷ []) (admitted actions b')) ∙ same, q'')
      | inr no_room ↦
          let full : length waiting ≡ max_session_count = ground (arith, q.fits) in
          rw ((insert-room r b waiting q).0 full, run, admitted) (run_fifo actions b waiting q)
    ]
run_fifo (take ∷ actions) b [] q =
    let empty : (b.count == 0) ≡ true = ground (arith, q.counted) in
    rw (empty, run, admitted) (run_fifo actions b [] q)
run_fifo (take ∷ actions) b (w ∷ waiting) q =
    let busy : (b.count == 0) ≡ false = ground (arith, q.counted) in
    let (b', eq, q') = retrieve_request_lem b w waiting q in
    let (left, same, q'') = run_fifo actions b' waiting q' in
    rw (busy, eq, run, admitted) (left, ap (λ rs. w ∷ rs) same, q'')
