-- ===== src/Tests/Server.antt =====
-- The main thread and its set-up of a session.
use event_management_server.Base.{
  ℕ, ◌+◌, ◌%◌, ◌<◌, ◌≡◌, refl, Bool, Bool-cases, inl, inr, ◌==◌, if◌then◌else◌, true, false, [],
  ◌∷◌, ◌++◌, arith, length, replicate, get_elem?,
}
use event_management_server.Memory.Returns.{Returns}
use event_management_server.Io.Descriptor.{Bytes, file}
use event_management_server.Io.Deliver.{sink}
use event_management_server.Requests.{Request, Buffer}
use event_management_server.Requests.Queue.{IsQueue}
use event_management_server.Api.Connection.{Session}
use event_management_server.Server.{sigusr1, sigusr1_handler, after_signals}
use event_management_server.Server.Extract.{Main, goes_on, Round, extract_round, extract_requests}
use event_management_server.Server.Paths.{IsPath, path_bytes}
use event_management_server.Server.Connect.{setup_bytes}
use event_management_server.Server.Setup.{Enqueued, extract_round-setup}
use event_management_server.Server.Dropped.{AllQuiet, Lost, setup_when_flagged}
use event_management_server.Server.Start.{ServerCalls, server_main}
use event_management_server.Server.Start.First.{AllStart, HasStarted, server_main_lem}
use event_management_server.Memory.{State, null}
use event_management_server.Number.Print.{decimal_text}
use event_management_server.Tests.Seats.{concert-IsValid}
use event_management_server.Tests.Memory.{running, running-Lists, calls}
use event_management_server.Tests.Sessions.{stale, stale_size, file-IsFlowing, contents-file}
use event_management_server.Tests.Whole.{concert-HasTypes, rounds}

-- The paths of the client's pipes and of the server's.
abbrev pub r_path : Bytes
r_path = b'r' ∷ []

abbrev pub a_path : Bytes
a_path = b'a' ∷ []

abbrev pub s_path : Bytes
s_path = b's' ∷ []

pub r-IsPath : IsPath r_path
r-IsPath = record { nonzero = (λ e. absurd (omega (arith, e)), tt); short = omega arith }

pub a-IsPath : IsPath a_path
a-IsPath = record { nonzero = (λ e. absurd (omega (arith, e)), tt); short = omega arith }

pub s-IsPath : IsPath s_path
s-IsPath = record { nonzero = (λ e. absurd (omega (arith, e)), tt); short = omega arith }

abbrev pub fresh_session : Session
fresh_session = record { session_id = 0; req_pipe_path = []; resp_pipe_path = [] }

abbrev pub blank : Request
blank = record {
  session_id = 0;
  request_pipe_path = [];
  response_pipe_path = [];
  server_pipe_path = [];
}

abbrev pub empty_buffer : Buffer
empty_buffer = record {
  buffer = blank ∷ blank ∷ [];
  in_index = 0;
  out_index = 0;
  count = 0;
  session_counter = 0;
}

no_slots :
    (k : ℕ) → k < 0 → get_elem? (blank ∷ blank ∷ []) ((0 + k) % 2) ≡ get_elem? {A = Request} [] k
no_slots k h = absurd (omega (arith, h))

pub empty-IsQueue : IsQueue empty_buffer []
empty-IsQueue = record {
  size = refl;
  out_bound = omega arith;
  counted = refl;
  fits = omega arith;
  in_place = refl;
  slots = no_slots;
}

abbrev pub waiting_main : Main
waiting_main = record {
  server_pipe = file (setup_bytes r_path a_path ++ []);
  print_flag = 0;
  queue = empty_buffer;
  stdout = sink [] [];
}

abbrev pub quiet_round : Round
quiet_round = record { signals = 1 ∷ []; created = true; joined = true; calls = rounds; old = [] }

abbrev flagged_round : Round
flagged_round = record {
  signals = sigusr1 ∷ [];
  created = true;
  joined = true;
  calls = rounds;
  old = [];
}

pub quiet : after_signals (1 ∷ []) 0 ≡ 0
unfolding after_signals sigusr1_handler
quiet = refl

flag : after_signals (sigusr1 ∷ []) 0 ≡ 1
unfolding after_signals sigusr1_handler
flag = refl

extract_round-setup_example :
    Returns
      (λ after s'.
        (s' ≡ running)
        × (main' : Main) × (after ≡ goes_on main')
        × Enqueued r_path a_path [] [] 0 main')
      (extract_round stale (path_bytes s_path) 1 1 quiet_round waiting_main running)
extract_round-setup_example =
    extract_round-setup stale stale_size 1 1 quiet_round s_path r_path a_path [] [] waiting_main
      refl refl quiet r-IsPath a-IsPath s-IsPath empty-IsQueue (omega arith)
      (file-IsFlowing (setup_bytes r_path a_path ++ []))
      (contents-file (setup_bytes r_path a_path ++ []))

abbrev no_ones : Bytes → Bool
no_ones [] = true
no_ones (b ∷ bs) = if b == 1 then false else no_ones bs

all_quiet : (bs : Bytes) → no_ones bs ≡ true → AllQuiet (replicate (length bs) quiet_round) bs
unfolding after_signals sigusr1_handler
all_quiet [] h = tt
all_quiet (b ∷ bs) h = elim (Bool-cases (b == 1)) [
  | inl one ↦ absurd (ground (arith, one, h))
  | inr other ↦ (refl, ground (arith, other), all_quiet bs (ground (arith, other, h)))
]

skipping : AllQuiet (replicate 80 quiet_round) (path_bytes r_path ++ path_bytes a_path)
unfolding path_bytes
skipping = all_quiet (path_bytes r_path ++ path_bytes a_path) refl

setup_when_flagged_example :
    Returns
      (λ after s'. (s' ≡ running) × Lost empty_buffer [] after)
      (extract_requests stale s_path 1 1
        (flagged_round ∷ replicate 80 quiet_round)
        waiting_main
        running)
setup_when_flagged_example =
    setup_when_flagged stale s_path 1 1 flagged_round (replicate 80 quiet_round) r_path a_path [] []
      waiting_main running-Lists (concert-IsValid, tt) (concert-HasTypes, tt) (omega arith)
      (omega arith) flag skipping refl (file-IsFlowing (setup_bytes r_path a_path ++ []))
      (contents-file (setup_bytes r_path a_path ++ []))

abbrev server_calls : ServerCalls
server_calls = record {
  init = calls;
  mkfifo = true;
  open_pipe = true;
  threads_start = true;
  workers_end = true;
  close_pipe = true;
  unlink = true;
  unlink_again = false;
  terminate = calls;
}

-- No list yet.
abbrev before : State
before = record running { event_list = null }

server_calls-AllStart : AllStart server_calls
server_calls-AllStart = record { list = refl; fifo = refl; pipe = refl; threads = refl }

server_main_lem_example : Returns (HasStarted r_path a_path [] 500 0) (
    server_main server_calls 1 stale 1
      (quiet_round ∷ [])
      []
      waiting_main
      (s_path ∷ decimal_text 500 ∷ [])
      before)
server_main_lem_example =
    server_main_lem server_calls 1 1 stale stale_size before quiet_round [] s_path r_path a_path []
      500 waiting_main server_calls-AllStart refl (omega arith) refl refl quiet r-IsPath a-IsPath
      s-IsPath empty-IsQueue (file-IsFlowing (setup_bytes r_path a_path ++ []))
      (contents-file (setup_bytes r_path a_path ++ []))
