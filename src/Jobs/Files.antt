-- ===== src/Jobs/Files.antt =====
-- .jobs files of documented lines.
use event_management_server.Base.{
  ℕ, suc, ◌<◌, ◌≡◌, refl, true, false, List, [], ◌∷◌, ◌++◌, length, arith, ltb, if◌then◌else◌, ◌==◌,
  uint_mod,
}
use event_management_server.Seats.{Seat}
use event_management_server.Io.Descriptor.{Bytes, Source, file}
use event_management_server.Number.Print.{decimal_text}
use event_management_server.Parser.{
  cmd_create, cmd_reserve, cmd_show, cmd_list_events, cmd_wait, cmd_help, cmd_empty,
}
use event_management_server.Parser.Text.{after_line}
use event_management_server.Parser.Words.{word, get_next_lem, get_next-comment, get_next-end}
use event_management_server.Parser.Lines.{
  create_line, reserve_line, Small, parse_create_lem, parse_reserve_lem, parse_show_lem,
  parse_wait_lem,
}
use event_management_server.Jobs.{
  Call, ems_create, ems_reserve, ems_show, ems_list_events, sleep, ems_quit, parsed_args, command,
  run_jobs,
}

-- The lines of a file; a reservation has a first seat and more.
pub data Job : Type 0 where
  create : (event_id num_rows num_cols : ℕ) → Job
  reserve : (event_id : ℕ) → Seat → List Seat → Job
  show : (event_id : ℕ) → Job
  list help empty : Job
  wait : (delay : ℕ) → Job
  comment : Bytes → Job

unfoldable pub line_of : Job → Bytes → Bytes
unfolding word create_line reserve_line
line_of (create event_id num_rows num_cols) rest =
    word cmd_create ++ create_line event_id num_rows num_cols rest
line_of (reserve event_id seat seats) rest =
    word cmd_reserve ++ reserve_line event_id (seat ∷ seats) rest
line_of (show event_id) rest = word cmd_show ++ (decimal_text event_id ++ b'\n' ∷ rest)
line_of list rest = word cmd_list_events ++ rest
line_of help rest = word cmd_help ++ rest
line_of empty rest = word cmd_empty ++ rest
line_of (wait delay) rest = word cmd_wait ++ (decimal_text delay ++ b'\n' ∷ rest)
line_of (comment text) rest = b'#' ∷ (text ++ b'\n' ∷ rest)

unfoldable pub file_of : List Job → Bytes
unfolding line_of
file_of [] = []
file_of (job ∷ jobs) = line_of job (file_of jobs)

abbrev pub OneLine : Bytes → Type 0
OneLine [] = Unit {0}
OneLine (c ∷ text) = ((c == b'\n') ≡ false) × OneLine text

after_line_comment : (text rest : Bytes) → OneLine text → after_line (text ++ b'\n' ∷ rest) ≡ rest
unfolding after_line
after_line_comment [] rest h = refl
after_line_comment (c ∷ text) rest h = rw h.0 (after_line_comment text rest h.1)

-- Numbers of 32 bits, fewer than 256 seats, comments of one line.
unfoldable pub Fits : Job → Type 0
Fits (create event_id num_rows num_cols) =
    (event_id < uint_mod) × (num_rows < uint_mod) × (num_cols < uint_mod)
Fits (reserve event_id seat seats) =
    (event_id < uint_mod) × (length (seat ∷ seats) < 256) × Small (seat ∷ seats)
Fits (show event_id) = event_id < uint_mod
Fits list = Unit {0}
Fits help = Unit {0}
Fits empty = Unit {0}
Fits (wait delay) = delay < uint_mod
Fits (comment text) = OneLine text

abbrev pub AllFit : List Job → Type 0
AllFit [] = Unit {0}
AllFit (job ∷ jobs) = Fits job × AllFit jobs

unfoldable pub calls_of : List Job → List Call
calls_of [] = []
calls_of (create event_id num_rows num_cols ∷ jobs) =
    ems_create event_id num_rows num_cols ∷ calls_of jobs
calls_of (reserve event_id seat seats ∷ jobs) = ems_reserve event_id (seat ∷ seats) ∷ calls_of jobs
calls_of (show event_id ∷ jobs) = ems_show event_id ∷ calls_of jobs
calls_of (list ∷ jobs) = ems_list_events ∷ calls_of jobs
calls_of (help ∷ jobs) = calls_of jobs
calls_of (empty ∷ jobs) = calls_of jobs
calls_of (wait delay ∷ jobs) = (if ltb 0 delay then sleep delay ∷ [] else []) ++ calls_of jobs
calls_of (comment text ∷ jobs) = calls_of jobs

module _ (stack : Source → Bytes) (size : (src : Source) → length (stack src) ≡ 16)
    (stale : Source → ℕ) where
  -- A file of documented lines makes the client call what they say, in their order, and then quit;
  -- one round for each line and one for the end of the file are enough.
  pub run_jobs_lem :
      (jobs : List Job)
      → AllFit jobs
      → run_jobs stack stale (suc (length jobs)) (file (file_of jobs)) ≡ (calls_of jobs, ems_quit)
  unfolding run_jobs command parsed_args file_of line_of Fits calls_of
  run_jobs_lem [] fits = rw (get_next-end (stale [])) refl
  run_jobs_lem (create id rows cols ∷ jobs) (fits, later) =
      rw
        (
          get_next_lem (stale _) cmd_create (create_line id rows cols (file_of jobs)) refl,
          parse_create_lem stack size id rows cols (file_of jobs) fits.0 fits.1 fits.2,
          run_jobs_lem jobs later,
        )
        refl
  run_jobs_lem (reserve id seat seats ∷ jobs) (fits, later) =
      let fewer : ltb (suc (length seats)) 256 ≡ true = ground (arith, fits.1) in
      rw
        (
          get_next_lem (stale _) cmd_reserve (reserve_line id (seat ∷ seats) (file_of jobs)) refl,
          parse_reserve_lem stack size 256 id seat seats (file_of jobs) fits.0 fits.2,
          fewer,
          run_jobs_lem jobs later,
        )
        refl
  run_jobs_lem (show id ∷ jobs) (fits, later) =
      rw
        (
          get_next_lem (stale _) cmd_show (decimal_text id ++ b'\n' ∷ file_of jobs) refl,
          parse_show_lem stack size id (file_of jobs) fits,
          run_jobs_lem jobs later,
        )
        refl
  run_jobs_lem (list ∷ jobs) (fits, later) =
      rw (get_next_lem (stale _) cmd_list_events (file_of jobs) refl, run_jobs_lem jobs later) refl
  run_jobs_lem (help ∷ jobs) (fits, later) =
      rw (get_next_lem (stale _) cmd_help (file_of jobs) refl, run_jobs_lem jobs later) refl
  run_jobs_lem (empty ∷ jobs) (fits, later) =
      rw (get_next_lem (stale _) cmd_empty (file_of jobs) refl, run_jobs_lem jobs later) refl
  run_jobs_lem (wait delay ∷ jobs) (fits, later) =
      rw
        (
          get_next_lem (stale _) cmd_wait (decimal_text delay ++ b'\n' ∷ file_of jobs) refl,
          (parse_wait_lem stack size false delay 0 (file_of jobs) fits (omega arith)).0,
          run_jobs_lem jobs later,
        )
        refl
  run_jobs_lem (comment text ∷ jobs) (fits, later) =
      rw
        (
          get_next-comment (stale _) (text ++ b'\n' ∷ file_of jobs),
          after_line_comment text (file_of jobs) fits,
          run_jobs_lem jobs later,
        )
        refl
