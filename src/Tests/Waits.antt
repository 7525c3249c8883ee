-- ===== src/Tests/Waits.antt =====
-- Two workers that have started, and a request that comes while both sleep.
use event_management_server.Base.{◌≡◌, ◌⊎◌, refl, true, some, [], ◌∷◌, arith}
use event_management_server.Requests.{Buffer, insert_request}
use event_management_server.Requests.Race.{Worker, first, second, set_phase}
use event_management_server.Requests.Waits.{
  Activity, testing, asleep, leaving, Threads, wakes, insert, sleep, Runs, here, then_moves,
}
use event_management_server.Requests.Waits.Wakeups.{IsStart, no_lost_wakeup}
use event_management_server.Tests.Server.{blank, empty_buffer}

abbrev started : Threads
started = record { queue = empty_buffer; workers = λ _. testing }

started-IsStart : IsStart started
started-IsStart = record { none_wait = refl; both_test = λ w. refl }

abbrev both_asleep : Worker → Activity
both_asleep = set_phase (set_phase (λ _. testing) first asleep) second asleep

abbrev one_waits : Buffer
one_waits = record {
  buffer = blank ∷ blank ∷ [];
  in_index = 1;
  out_index = 0;
  count = 1;
  session_counter = 1;
}

abbrev woken : Threads
woken = record { queue = one_waits; workers = set_phase both_asleep first testing }

one_inserted : insert_request blank empty_buffer ≡ some one_waits
unfolding insert_request
one_inserted = refl

woken-Runs : Runs (λ _. true) started woken
woken-Runs =
    then_moves
      (then_moves (then_moves here (sleep first refl refl refl)) (sleep second refl refl refl))
      (insert blank one_waits (set_phase both_asleep first testing) one_inserted
        (wakes first refl refl) refl)

no_lost_wakeup_example : (w : Worker) × ((woken.workers w ≡ testing) ⊎ (woken.workers w ≡ leaving))
no_lost_wakeup_example =
    no_lost_wakeup (λ _. true) started woken second started-IsStart woken-Runs refl (omega arith)
      (omega arith)
