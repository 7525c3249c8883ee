-- ===== src/Tests/Requests.antt =====
-- A buffer with one request of two.
use event_management_server.Base.{
  ℕ, zero, suc, ◌+◌, ◌%◌, ◌<◌, ◌≡◌, refl, none, some, List, [], ◌∷◌, ◌++◌, arith, get_elem?, true,
  uint_mod, ◌-◌,
}
use event_management_server.Requests.{Request, Buffer, insert_request, remove_session, find_session}
use event_management_server.Requests.Queue.{IsQueue, Action, insert, take, run, admitted, run_fifo}
use event_management_server.Requests.Removal.{IsCleared, remove_session_lem}
use event_management_server.Requests.Race
use event_management_server.Requests.Progress.{InBounds, Reach-InBounds}
use event_management_server.Requests.Race.{
  waiting, serving, System, first, second, Reach, both_workers_retrieve,
}

abbrev numbered : ℕ → Request
numbered n = record {
  session_id = n;
  request_pipe_path = b'a' ∷ 0 ∷ [];
  response_pipe_path = b'b' ∷ 0 ∷ [];
  server_pipe_path = [];
}

abbrev half_full : Buffer
half_full = record {
  buffer = numbered 2 ∷ numbered 1 ∷ [];
  in_index = 0;
  out_index = 1;
  count = 1;
  session_counter = 3;
}

half_full_slots :
    (k : ℕ)
    → k < 1
    → get_elem? (numbered 2 ∷ numbered 1 ∷ []) ((1 + k) % 2) ≡ get_elem? (numbered 1 ∷ []) k
half_full_slots zero h = refl
half_full_slots (suc k) h = absurd (omega arith)

half_full-IsQueue : IsQueue half_full (numbered 1 ∷ [])
half_full-IsQueue = record {
  size = refl;
  out_bound = omega arith;
  counted = refl;
  fits = omega arith;
  in_place = refl;
  slots = half_full_slots;
}

inserted :
    insert_request (numbered 0) half_full
    ≡ some (record {
      buffer = numbered 3 ∷ numbered 1 ∷ [];
      in_index = 1;
      out_index = 1;
      count = 2;
      session_counter = 4;
    })
unfolding insert_request
inserted = refl

-- An unknown session is looked for up to the end of the buffer and beyond.
unknown_session : remove_session 9 half_full ≡ none
unfolding remove_session find_session
unknown_session = refl

abbrev history : List Action
history = insert (numbered 0) ∷ take ∷ insert (numbered 0) ∷ take ∷ []

run_fifo_example :
    (left : List Request) × (numbered 1 ∷ admitted history half_full
      ≡ (run history half_full).0 ++ left)
    × IsQueue (run history half_full).1 left
run_fifo_example = run_fifo history half_full (numbered 1 ∷ []) half_full-IsQueue

abbrev idle : System
idle = record { queue = half_full; workers = λ _. waiting }

-- A second request is inserted.
abbrev swapped : System
swapped = record idle {
  queue = record {
    buffer = numbered 3 ∷ numbered 1 ∷ [];
    in_index = 1;
    out_index = 1;
    count = 2;
    session_counter = 4;
  };
}

swapped-Reach : Reach (λ _. true) idle swapped
swapped-Reach = Race.next Race.here (Race.insert (numbered 0) swapped.queue inserted refl)

remove_session_lem_example :
    (after : Request) × IsCleared (numbered 1) after
    × (remove_session 1 half_full
        ≡ some (record {
          buffer = numbered 2 ∷ after ∷ [];
          in_index = 0;
          out_index = 1;
          count = 0;
          session_counter = 2;
        }))
remove_session_lem_example =
    remove_session_lem 1 half_full (numbered 2 ∷ []) [] (numbered 1) refl (refl, tt) refl

both_workers_retrieve_example :
    (t : System) × (stale : Request) × Reach (λ _. true) idle t
    × (t.workers first ≡ serving (numbered 1))
    × (t.workers second ≡ serving stale)
    × (get_elem? half_full.buffer ((1 + 1) % 2) ≡ some stale)
    × (t.queue.count ≡ uint_mod - 1)
both_workers_retrieve_example =
    both_workers_retrieve (λ _. true) idle (numbered 1) half_full-IsQueue refl refl

Reach-InBounds_example : InBounds swapped.queue
Reach-InBounds_example =
    Reach-InBounds (λ _. true) idle swapped swapped-Reach
      (record { size = refl; in_bound = omega arith; out_bound = omega arith })
