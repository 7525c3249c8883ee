-- ===== src/Jobs/Ends.antt =====
-- The end of the command loop of src/client/main.c, for every file.
use event_management_server.Base.{
  ℕ, zero, suc, ◌<◌, ◌≡◌, refl, ap, inl, inr, false, List, [], ◌∷◌, arith, ltb, if◌then◌else◌,
}
use event_management_server.Io.Descriptor.{Bytes, Source}
use event_management_server.Io.Left.{left, Within}
use event_management_server.Sessions.{max_reservation_size}
use event_management_server.Parser.{
  Command, cmd_create, cmd_reserve, cmd_show, cmd_list_events, cmd_wait, cmd_help, cmd_empty,
  cmd_invalid, eoc, Outcome, ok, failed, overrun, get_next, parse_create, parse_reserve, parse_show,
  parse_wait,
}
use event_management_server.Parser.Left.{
  parse_create-Within, parse_reserve-Within, parse_show-Within, parse_wait-Within, get_next-left,
}
use event_management_server.Jobs.{
  Call, ems_create, ems_reserve, ems_show, ems_list_events, sleep, ems_quit, crashed, Trace,
  then_calls, parsed_args, command, run_jobs,
}

-- The loop has come to `ems_quit`, or to an access outside a buffer of the parser.
pub data HasEnded (t : Trace) : Type 0 where
  quits : t.1 ≡ ems_quit → HasEnded t
  crashes : t.1 ≡ crashed → HasEnded t

then_calls-HasEnded : (calls : List Call) (t : Trace) → HasEnded t → HasEnded (then_calls calls t)
then_calls-HasEnded calls (later, end) (quits e) = quits e
then_calls-HasEnded calls (later, end) (crashes e) = crashes e

module _ (n : ℕ) (again : Source → Trace)
    (ends : (src : Source) → left src < n → HasEnded (again src)) where
  parsed_args-HasEnded :
      {A : Type 0} (m : ℕ) (calls : A → List Call) (out : Outcome A × Source)
      → m < n
      → Within m out
      → HasEnded (parsed_args again calls out)
  unfolding parsed_args
  parsed_args-HasEnded m calls (ok a, src) small h =
      then_calls-HasEnded (calls a) (again src) (ends src (omega (arith, small, h.bound)))
  parsed_args-HasEnded m calls (failed, src) small h = ends src (omega (arith, small, h.bound))
  parsed_args-HasEnded m calls (overrun, src) small h = crashes refl

  command-HasEnded :
      (stack : Source → Bytes) (stale : Source → ℕ) (out : Command × Source)
      → left out.1 < n
      → HasEnded (command stack stale again out)
  unfolding command
  command-HasEnded stack stale (cmd_create, src) small =
      parsed_args-HasEnded (left src) (λ (id, rows, cols). ems_create id rows cols ∷ [])
        (parse_create stack src) small (parse_create-Within (left src) stack src (omega arith))
  command-HasEnded stack stale (cmd_reserve, src) small =
      parsed_args-HasEnded (left src) (λ (id, seats). ems_reserve id seats ∷ [])
        (parse_reserve stack max_reservation_size src) small
        (parse_reserve-Within (left src) stack max_reservation_size src (omega arith))
  command-HasEnded stack stale (cmd_show, src) small =
      parsed_args-HasEnded (left src) (λ id. ems_show id ∷ []) (parse_show stack src) small
        (parse_show-Within (left src) stack src (omega arith))
  command-HasEnded stack stale (cmd_list_events, src) small =
      then_calls-HasEnded (ems_list_events ∷ []) (again src) (ends src small)
  command-HasEnded stack stale (cmd_wait, src) small =
      parsed_args-HasEnded (left src)
        (λ (delay, thread_id). if ltb 0 delay then sleep delay ∷ [] else [])
        (parse_wait stack false src) small
        (parse_wait-Within (left src) stack false src (omega arith))
  command-HasEnded stack stale (cmd_invalid, src) small = ends src small
  command-HasEnded stack stale (cmd_help, src) small = ends src small
  command-HasEnded stack stale (cmd_empty, src) small = ends src small
  command-HasEnded stack stale (eoc, src) small = quits refl

command-eoc :
    (stack : Source → Bytes) (stale : Source → ℕ) (again : Source → Trace) (out : Command × Source)
    → out.0 ≡ eoc
    → command stack stale again out ≡ ([], ems_quit)
unfolding command
command-eoc stack stale again (c, src) e = ap (λ c'. command stack stale again (c', src)) e

-- For every file, and whatever its reads answer, the loop over the commands ends within one round for
-- each byte of the file and one more: it comes to `ems_quit`, or to an access outside a buffer.
pub run_jobs-HasEnded :
    (stack : Source → Bytes) (stale : Source → ℕ) (fuel : ℕ) (src : Source)
    → left src < fuel
    → HasEnded (run_jobs stack stale fuel src)
unfolding run_jobs
run_jobs-HasEnded stack stale zero src enough = absurd (omega arith)
run_jobs-HasEnded stack stale (suc fuel) src enough = elim (get_next-left (stale src) src) [
  | inl last ↦ quits (
      ap (λ t. t.1)
        (command-eoc stack stale (run_jobs stack stale fuel) (get_next (stale src) src) last))
  | inr shorter ↦
      command-HasEnded (left src) (run_jobs stack stale fuel)
        (λ src' h. run_jobs-HasEnded stack stale fuel src' (omega arith)) stack stale
        (get_next (stale src) src) shorter
]
