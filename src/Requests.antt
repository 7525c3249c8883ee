-- ===== src/Requests.antt =====
-- The producer-consumer buffer of src/server/main.c. A function that holds `buffer_mutex` throughout is
-- one step; `int` counters are 32-bit patterns, so that -1 is 2^32 - 1.
pub mod Queue
pub mod Race
pub mod Removal
pub mod Progress
pub mod Waits
use event_management_server.Base.{
  ℕ, ◌+◌, ◌-◌, ◌%◌, Option, none, some, List, [], ◌∷◌, get_elem?, set, length, ltb, ◌==◌,
  if◌then◌else◌, uint_mod,
}

abbrev pub max_session_count : ℕ
max_session_count = 2

-- The paths are arrays of MAX_PATH bytes.
pub record Request : Type 0 where
  pub session_id : ℕ
  pub request_pipe_path : List ℕ
  pub response_pipe_path : List ℕ
  pub server_pipe_path : List ℕ

-- `in` and `out` of the source are `in_index` and `out_index`.
pub record Buffer : Type 0 where
  pub buffer : List Request
  pub in_index : ℕ
  pub out_index : ℕ
  pub count : ℕ
  pub session_counter : ℕ

-- x++ and x-- on an int
abbrev pub increment : ℕ → ℕ
increment n = (n + 1) % uint_mod

abbrev pub decrement : ℕ → ℕ
decrement n = (n + uint_mod - 1) % uint_mod

-- `none`: the buffer is full and the caller waits on `not_full_cond`.
unfoldable pub insert_request : Request → Buffer → Option Buffer
insert_request request b =
    if b.count == max_session_count
    then none
    else some (record {
      buffer = set b.buffer b.in_index (record request { session_id = b.session_counter });
      in_index = (b.in_index + 1) % max_session_count;
      out_index = b.out_index;
      count = increment b.count;
      session_counter = increment b.session_counter;
    })

-- `none`: a read outside the buffer.
unfoldable pub retrieve_request : Buffer → Option (Request × Buffer)
retrieve_request b = elim (get_elem? b.buffer b.out_index) [
  | none ↦ none
  | some request ↦ some (
    request,
    record b { out_index = (b.out_index + 1) % max_session_count; count = decrement b.count },
  )
]

-- The index of the first request of the session, the number of requests if there is none.
unfoldable pub find_session : ℕ → List Request → ℕ
find_session session_id [] = 0
find_session session_id (r ∷ rest) =
    let later = find_session session_id rest + 1 in if r.session_id == session_id then 0 else later

unfoldable pub cleared : Request → Request
cleared r = record {
  session_id = uint_mod - 1;
  request_pipe_path = set r.request_pipe_path 0 0;
  response_pipe_path = set r.response_pipe_path 0 0;
  server_pipe_path = set r.server_pipe_path 0 0;
}

-- `none`: no request has the id, and the write is to the element after the last.
unfoldable pub remove_session : ℕ → Buffer → Option Buffer
unfolding find_session cleared
remove_session session_id b =
    let i = find_session session_id b.buffer in
    elim (get_elem? b.buffer i) [
      | none ↦ none
      | some r ↦ some (record b {
        buffer = set b.buffer i (cleared r);
        count = decrement b.count;
        session_counter = decrement b.session_counter;
      })
    ]
