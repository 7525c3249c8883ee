-- ===== src/Jobs/Start.antt =====
-- `main` of src/client/main.c as a whole: the checks of its arguments, the names of its files, and the
-- end of the command loop. What its calls return is an argument; messages are not modelled.
use event_management_server.Base.{
  ℕ, Bool, true, false, not, ◌&&◌, Option, none, some, List, [], ◌∷◌, ◌++◌, length, ltb, leb, ◌==◌,
  if◌then◌else◌,
}
use event_management_server.Io.Descriptor.{Bytes, Source}
use event_management_server.Jobs.{Call, ems_quit, crashed, out_of_fuel, Trace, run_jobs}

abbrev pub max_job_file_name_size : ℕ
max_job_file_name_size = 256

-- ".jobs" and ".out"
abbrev pub jobs_suffix : Bytes
jobs_suffix = b'.' ∷ b'j' ∷ b'o' ∷ b'b' ∷ b's' ∷ []

abbrev pub out_suffix : Bytes
out_suffix = b'.' ∷ b'o' ∷ b'u' ∷ b't' ∷ []

-- strrchr(path, '.'): what stands in front of the last dot, and the text from the dot on.
unfoldable pub last_dot : Bytes → Option (Bytes × Bytes)
last_dot [] = none
last_dot (c ∷ cs) =
    let later = last_dot cs in
    elim later [
      | none ↦ if c == b'.' then some ([], c ∷ cs) else none
      | some (front, dot) ↦ some (c ∷ front, dot)
    ]

-- strcmp(a, b) == 0
unfoldable pub same_text : Bytes → Bytes → Bool
same_text [] [] = true
same_text [] (b ∷ bs) = false
same_text (a ∷ as') [] = false
same_text (a ∷ as') (b ∷ bs) = a == b && same_text as' bs

abbrev pub is_empty : Bytes → Bool
is_empty [] = true
is_empty (b ∷ bs) = false

-- The test of the name of the .jobs file.
unfoldable pub valid_path : Bytes → Bool
unfolding last_dot same_text
valid_path path = elim (last_dot path) [
  | none ↦ false
  | some (front, dot) ↦
      not (is_empty front)
      && length dot == 5
      && same_text dot jobs_suffix
      && leb (length path) max_job_file_name_size
]

-- The name of the output file, in an array of 256 bytes; `none` is a write outside of it, or NULL.
unfoldable pub out_path : Bytes → Option Bytes
unfolding last_dot
out_path path =
    if ltb (length path) max_job_file_name_size
    then elim (last_dot path) [ none ↦ none | some (front, dot) ↦ some (front ++ out_suffix) ]
    else none

-- `true`: the call succeeds; the codes are those of `ems_setup` and `ems_quit`.
pub record MainCalls : Type 0 where
  pub setup : ℕ
  pub open_input : Bool
  pub open_output : Bool
  pub close_input : Bool
  pub close_output : Bool
  pub quit : ℕ

-- The return value, `none` for an access outside an array or a loop that is not over; the file that
-- is written, and what was called between `ems_setup` and `ems_quit`.
pub record Ended : Type 0 where
  pub code : Option ℕ
  pub written : Option Bytes
  pub called : List Call

module _ (calls : MainCalls) where
  early : ℕ → Ended
  early code = record { code = some code; written = none; called = [] }

  unfoldable pub after_loop : Bytes → Trace → Ended
  after_loop path (called, ems_quit) = record {
    code =
        if calls.close_input
        then (if calls.close_output then (if calls.quit == 0 then some 0 else some 1) else some 1)
        else some 1;
    written = some path;
    called = called;
  }
  after_loop path (called, crashed) = record { code = none; written = some path; called = called }
  after_loop path (called, out_of_fuel) = record {
    code = none;
    written = some path;
    called = called;
  }

  module _ (stack : Source → Bytes) (stale : Source → ℕ) (fuel : ℕ) (input : Source) where
    -- From the copy of the name on.
    unfoldable pub main_files : Bytes → Ended
    unfolding early after_loop run_jobs out_path
    main_files path = elim (out_path path) [
      | none ↦ record { code = none; written = none; called = [] }
      | some output ↦
          if calls.open_input
          then (if calls.open_output
              then after_loop output (run_jobs stack stale fuel input)
              else early 1)
          else early 1
    ]

    -- The arguments behind the name of the program.
    unfoldable pub main : List Bytes → Ended
    unfolding early valid_path main_files
    main (request ∷ response ∷ server ∷ path ∷ more) =
        if calls.setup == 0 then (if valid_path path then main_files path else early 1) else early 1
    main [] = early 1
    main (a ∷ []) = early 1
    main (a ∷ b ∷ []) = early 1
    main (a ∷ b ∷ c ∷ []) = early 1
