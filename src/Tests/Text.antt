-- ===== src/Tests/Text.antt =====
-- Numbers and lines of .jobs files.
use event_management_server.Base.{
  List, ◌≡◌, refl, true, none, some, [], ◌∷◌, ◌++◌, arith, length, replicate, ltb, if◌then◌else◌,
}
use event_management_server.Io.Descriptor.{Bytes, Source, chunk, signal, file}
use event_management_server.Number.{parsed, overrun, parse_uint}
use event_management_server.Number.Print.{decimal, IsDecimal}
use event_management_server.Number.Parse.{parse-print_uint}
use event_management_server.Number.Limits.{parse_uint_overrun}
use event_management_server.Parser.{ok, failed, parse_reserve}
use event_management_server.Jobs.{run_jobs}
use event_management_server.Jobs.Ends.{HasEnded, run_jobs-HasEnded}
use event_management_server.Jobs.Files.{
  Job, create, reserve, wait, comment, list, file_of, calls_of, Fits, AllFit,
}
use event_management_server.Jobs.Start.{jobs_suffix, out_suffix, valid_path, main}
use event_management_server.Jobs.Main.{all_succeed, main_lem, main_overrun}
use event_management_server.Parser.Lines.{reserve_line, parse_reserve_lem}

abbrev stack : Bytes
stack = b'7' ∷ b'7' ∷ b'7' ∷ 0 ∷ 0 ∷ 0 ∷ 0 ∷ 0 ∷ 0 ∷ 0 ∷ 0 ∷ 0 ∷ 0 ∷ 0 ∷ 0 ∷ 0 ∷ []

abbrev ten_digits : Bytes
ten_digits = b'4' ∷ b'2' ∷ b'9' ∷ b'4' ∷ b'9' ∷ b'6' ∷ b'7' ∷ b'2' ∷ b'9' ∷ b'5' ∷ []

abbrev sixteen : Bytes
sixteen =
    b'0' ∷ b'0' ∷ b'0' ∷ b'0' ∷ b'0' ∷ b'0' ∷ b'0' ∷ b'0' ∷ b'0' ∷ b'0' ∷ b'0' ∷ b'0' ∷ b'0' ∷ b'0'
    ∷ b'0' ∷ b'1' ∷ []

abbrev line : Bytes
line = b'S' ∷ b'H' ∷ []

stack_size : (src : Source) → length stack ≡ 16
stack_size src = refl

ten_digits-IsDecimal : IsDecimal 4294967295 ten_digits
unfolding decimal
ten_digits-IsDecimal = record {
  decimal_value = refl;
  all_digits = (refl, (refl, (refl, (refl, (refl, (refl, (refl, (refl, (refl, (refl, tt))))))))));
  short = omega arith;
  not_empty = omega arith;
}

parse-print_uint_example :
    parse_uint stack (file (ten_digits ++ b' ' ∷ line)) ≡ (parsed 4294967295 b' ', file line)
parse-print_uint_example =
    parse-print_uint stack 4294967295 b' ' ten_digits line refl (omega arith) ten_digits-IsDecimal
      refl

parse_uint_overrun_example : (parse_uint stack (file (sixteen ++ line))).0 ≡ overrun
parse_uint_overrun_example =
    parse_uint_overrun stack sixteen line refl
      (
        refl,
        (
          refl,
          (
            refl,
            (
              refl,
              (
                refl,
                (
                  refl,
                  (
                    refl,
                    (refl, (refl, (refl, (refl, (refl, (refl, (refl, (refl, (refl, tt))))))))),
                  ),
                ),
              ),
            ),
          ),
        ),
      )
      refl

parse_reserve_lem_example :
    parse_reserve (λ _. stack) 2 (file (reserve_line 7 ((1, 1) ∷ (2, 3) ∷ []) line))
    ≡ ((if ltb 2 2 then ok (7, (1, 1) ∷ (2, 3) ∷ []) else failed), file line)
parse_reserve_lem_example =
    parse_reserve_lem (λ _. stack) stack_size 2 7 (1, 1) ((2, 3) ∷ []) line (omega arith)
      (omega arith, omega arith, (omega arith, omega arith, tt))

abbrev morning : List Job
morning = comment (b'a' ∷ []) ∷ create 7 2 3 ∷ reserve 7 (1, 1) ((2, 3) ∷ []) ∷ wait 10 ∷ list ∷ []

morning-AllFit : AllFit morning
unfolding Fits
morning-AllFit = (
  (refl, tt),
  (
    (omega arith, omega arith, omega arith),
    (
      (omega arith, omega arith, (omega arith, omega arith, (omega arith, omega arith, tt))),
      (omega arith, (tt, tt)),
    ),
  ),
)

-- a.jobs
main_lem_example :
    main all_succeed
      (λ _. stack)
      (λ _. 0)
      6
      (file (file_of morning))
      ((b'r' ∷ []) ∷ (b'a' ∷ []) ∷ (b's' ∷ []) ∷ ((b'a' ∷ []) ++ jobs_suffix) ∷ [])
    ≡ record {
      code = some 0;
      written = some ((b'a' ∷ []) ++ out_suffix);
      called = calls_of morning;
    }
main_lem_example =
    main_lem (λ _. stack) stack_size (λ _. 0) (b'a' ∷ []) (b'r' ∷ []) (b'a' ∷ []) (b's' ∷ [])
      morning refl (omega arith) morning-AllFit

abbrev long_stem : Bytes
long_stem = replicate 251 b'a'

main_overrun_example :
    (valid_path (long_stem ++ jobs_suffix) ≡ true)
    × ((main all_succeed
          (λ _. stack)
          (λ _. 0)
          1
          []
          ((b'r' ∷ []) ∷ (b'a' ∷ []) ∷ (b's' ∷ []) ∷ (long_stem ++ jobs_suffix) ∷ [])).code
        ≡ none)
main_overrun_example =
    main_overrun (λ _. stack) stack_size (λ _. 0) long_stem (b'r' ∷ []) (b'a' ∷ []) (b's' ∷ []) 1 []
      refl refl

-- A file that breaks off in a word, after a signal has interrupted a read.
abbrev torn_file : Source
torn_file = chunk line ∷ signal ∷ chunk (b'O' ∷ []) ∷ []

run_jobs-HasEnded_example : HasEnded (run_jobs (λ _. stack) (λ _. 0) 4 torn_file)
run_jobs-HasEnded_example = run_jobs-HasEnded (λ _. stack) (λ _. 0) 4 torn_file (omega arith)
