-- ===== src/Requests/Removal.antt =====
-- `remove_session`.
use event_management_server.Base.{
  get_elem?_middle, set_middle, ℕ, ◌+◌, ◌-◌, ◌%◌, uint_mod, ◌≡◌, refl, ap, ◌∙◌, false, none, some,
  List, [], ◌∷◌, ◌++◌, get_elem?, set, length, arith, ◌==◌, ==_refl,
}
use event_management_server.Io.Descriptor.{Bytes}
use event_management_server.Requests.{
  Request, Buffer, decrement, find_session, cleared, remove_session,
}

-- None of the requests has the id.
abbrev pub Unknown : ℕ → List Request → Type 0
Unknown session_id [] = Unit {0}
Unknown session_id (r ∷ requests) =
    ((r.session_id == session_id) ≡ false) × Unknown session_id requests

find_session_known :
    (session_id : ℕ) (front rest : List Request) (r : Request)
    → Unknown session_id front
    → r.session_id ≡ session_id
    → find_session session_id (front ++ r ∷ rest) ≡ length front
unfolding find_session
find_session_known session_id [] rest r others same = ground (arith, ==_refl session_id)
find_session_known session_id (q ∷ front) rest r others same =
    rw others.0
      (ap (λ n. n + 1) (find_session_known session_id front rest r others.1 same) ∙ omega arith)

find_session-Unknown :
    (session_id : ℕ) (requests : List Request)
    → Unknown session_id requests
    → find_session session_id requests ≡ length requests
unfolding find_session
find_session-Unknown session_id [] others = refl
find_session-Unknown session_id (q ∷ requests) others =
    rw others.0 (ap (λ n. n + 1) (find_session-Unknown session_id requests others.1) ∙ omega arith)

get_behind : (requests : List Request) → get_elem? requests (length requests) ≡ none
get_behind [] = refl
get_behind (q ∷ requests) = get_behind requests

-- `path` with its first byte zero, the text of no bytes.
abbrev pub IsEmptied : Bytes → Bytes → Type 0
IsEmptied [] after = after ≡ []
IsEmptied (b ∷ bs) after = after ≡ 0 ∷ bs

-- The id is -1 and the three paths are empty texts; behind their first byte they are as before.
pub record IsCleared (before after : Request) : Type 0 where
  pub session_id : after.session_id ≡ uint_mod - 1
  pub request_pipe_path : IsEmptied before.request_pipe_path after.request_pipe_path
  pub response_pipe_path : IsEmptied before.response_pipe_path after.response_pipe_path
  pub server_pipe_path : IsEmptied before.server_pipe_path after.server_pipe_path

set-IsEmptied : (path : Bytes) → IsEmptied path (set path 0 0)
set-IsEmptied [] = refl
set-IsEmptied (b ∷ bs) = refl

cleared-IsCleared : (r : Request) → IsCleared r (cleared r)
unfolding cleared
cleared-IsCleared r = record {
  session_id = refl;
  request_pipe_path = set-IsEmptied r.request_pipe_path;
  response_pipe_path = set-IsEmptied r.response_pipe_path;
  server_pipe_path = set-IsEmptied r.server_pipe_path;
}

remove_session-cleared :
    (session_id : ℕ) (b : Buffer) (front rest : List Request) (r : Request)
    → b.buffer ≡ front ++ r ∷ rest
    → Unknown session_id front
    → r.session_id ≡ session_id
    → remove_session session_id b
      ≡ some (record b {
        buffer = front ++ cleared r ∷ rest;
        count = decrement b.count;
        session_counter = decrement b.session_counter;
      })
unfolding remove_session
remove_session-cleared session_id b front rest r whole others same =
    let at : find_session session_id b.buffer ≡ length front =
      ap (λ t. find_session session_id t) whole
      ∙ find_session_known session_id front rest r others same in
    let found : get_elem? b.buffer (find_session session_id b.buffer) ≡ some r =
      ap (λ n. get_elem? b.buffer n) at
      ∙ ap (λ t. get_elem? t (length front)) whole
      ∙ get_elem?_middle front r rest in
    let written : set b.buffer (find_session session_id b.buffer) (cleared r)
        ≡ front ++ cleared r ∷ rest =
      ap (λ n. set b.buffer n (cleared r)) at
      ∙ ap (λ t. set t (length front) (cleared r)) whole
      ∙ set_middle front r (cleared r) rest in
    rw (found, remove_session)
      (ap
        (λ t. some (record b {
          buffer = t;
          count = decrement b.count;
          session_counter = decrement b.session_counter;
        }))
        written)

-- The first request of the session is cleared where it lies: its id is -1 and its three paths are
-- empty. The other requests and both indices stay, and both counters are lowered by one.
pub remove_session_lem :
    (session_id : ℕ) (b : Buffer) (front rest : List Request) (r : Request)
    → b.buffer ≡ front ++ r ∷ rest
    → Unknown session_id front
    → r.session_id ≡ session_id
    → (after : Request) × IsCleared r after
      × (remove_session session_id b
          ≡ some (record {
            buffer = front ++ after ∷ rest;
            in_index = b.in_index;
            out_index = b.out_index;
            count = (b.count + uint_mod - 1) % uint_mod;
            session_counter = (b.session_counter + uint_mod - 1) % uint_mod;
          }))
remove_session_lem session_id b front rest r whole others same = (
  cleared r,
  cleared-IsCleared r,
  remove_session-cleared session_id b front rest r whole others same,
)

-- For a session that no request has, the write is behind the buffer.
pub remove_session-Unknown :
    (session_id : ℕ) (b : Buffer) → Unknown session_id b.buffer → remove_session session_id b ≡ none
unfolding remove_session
remove_session-Unknown session_id b others =
    rw (find_session-Unknown session_id b.buffer others, get_behind b.buffer, remove_session) refl
