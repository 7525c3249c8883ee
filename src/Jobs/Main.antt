-- ===== src/Jobs/Main.antt =====
-- `main` of src/client/main.c on names that end in .jobs.
use event_management_server.Base.{
  ℕ, suc, ◌+◌, ◌<◌, ◌≤◌, ◌≡◌, refl, true, false, none, some, List, [], ◌∷◌, ◌++◌, arith, length,
  length-append, ltb, leb,
}
use event_management_server.Io.Descriptor.{Bytes, Source, file}
use event_management_server.Jobs.Files.{Job, file_of, AllFit, calls_of, run_jobs_lem}
use event_management_server.Jobs.Start.{
  jobs_suffix, out_suffix, max_job_file_name_size, last_dot, same_text, valid_path, out_path,
  is_empty, MainCalls, main_files, main, after_loop,
}

last_dot-append : (stem : Bytes) → last_dot (stem ++ jobs_suffix) ≡ some (stem, jobs_suffix)
unfolding last_dot
last_dot-append [] = refl
last_dot-append (c ∷ cs) = rw (last_dot-append cs, last_dot) refl

-- A name of at most 256 bytes that ends in .jobs, with something in front, is accepted.
valid_path-jobs :
    (stem : Bytes)
    → is_empty stem ≡ false
    → length stem + 5 ≤ max_job_file_name_size
    → valid_path (stem ++ jobs_suffix) ≡ true
unfolding valid_path same_text
valid_path-jobs stem named short =
    let fits : leb (length (stem ++ jobs_suffix)) max_job_file_name_size ≡ true =
      ground (arith, length-append stem jobs_suffix) in
    rw (last_dot-append stem, valid_path, named, fits) refl

out_path-jobs :
    (stem : Bytes)
    → length stem + 5 < max_job_file_name_size
    → out_path (stem ++ jobs_suffix) ≡ some (stem ++ out_suffix)
unfolding out_path
out_path-jobs stem short =
    let fits : ltb (length (stem ++ jobs_suffix)) max_job_file_name_size ≡ true =
      ground (arith, length-append stem jobs_suffix) in
    rw (fits, last_dot-append stem, out_path) refl

out_path-long :
    (stem : Bytes)
    → length stem + 5 ≡ max_job_file_name_size
    → out_path (stem ++ jobs_suffix) ≡ none
unfolding out_path
out_path-long stem long =
    let over : ltb (length (stem ++ jobs_suffix)) max_job_file_name_size ≡ false =
      ground (arith, length-append stem jobs_suffix) in
    rw over refl

abbrev pub all_succeed : MainCalls
all_succeed = record {
  setup = 0;
  open_input = true;
  open_output = true;
  close_input = true;
  close_output = true;
  quit = 0;
}

module _ (stack : Source → Bytes) (size : (src : Source) → length (stack src) ≡ 16)
    (stale : Source → ℕ) where
  -- The client on a file of documented lines, with a name of fewer than 256 bytes that ends in .jobs:
  -- it writes to the file with the suffix .out instead, calls what the lines say, in their order,
  -- quits, and returns 0. All its calls succeed.
  pub main_lem :
      (stem request response server : Bytes) (jobs : List Job)
      → is_empty stem ≡ false
      → length stem + 5 < max_job_file_name_size
      → AllFit jobs
      → main all_succeed stack stale
          (suc (length jobs))
          (file (file_of jobs))
          (request ∷ response ∷ server ∷ (stem ++ jobs_suffix) ∷ [])
        ≡ record { code = some 0; written = some (stem ++ out_suffix); called = calls_of jobs }
  unfolding main main_files after_loop
  main_lem stem request response server jobs named short fits =
      rw
        (
          valid_path-jobs stem named (omega arith),
          out_path-jobs stem short,
          main_files,
          run_jobs_lem stack size stale jobs fits,
        )
        refl

  -- A name of exactly 256 bytes passes the test of its length, and the copy of it, with its zero
  -- byte, is longer than the array.
  pub main_overrun :
      (stem request response server : Bytes) (fuel : ℕ) (input : Source)
      → is_empty stem ≡ false
      → length stem + 5 ≡ max_job_file_name_size
      → (valid_path (stem ++ jobs_suffix) ≡ true)
        × ((main all_succeed stack stale fuel input
              (request ∷ response ∷ server ∷ (stem ++ jobs_suffix) ∷ [])).code
            ≡ none)
  unfolding main main_files
  main_overrun stem request response server fuel input named long =
      let accepted = valid_path-jobs stem named (omega arith) in
      (accepted, rw (accepted, out_path-long stem long, main_files) refl)
