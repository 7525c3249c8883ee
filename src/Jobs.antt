-- ===== src/Jobs.antt =====
-- The command loop of src/client/main.c: what it calls, in order. What the server answers only decides
-- on messages, so it has no part in the loop.
pub mod Files
pub mod Ends
pub mod Start
pub mod Main
use event_management_server.Base.{
  ℕ, zero, suc, Bool, true, false, Option, none, some, List, [], ◌∷◌, ◌++◌, ltb, if◌then◌else◌,
}
use event_management_server.Seats.{Seat}
use event_management_server.Io.Descriptor.{Bytes, Source}
use event_management_server.Sessions.{max_reservation_size}
use event_management_server.Parser.{
  Command, cmd_create, cmd_reserve, cmd_show, cmd_list_events, cmd_wait, cmd_help, cmd_empty,
  cmd_invalid, eoc, Outcome, ok, failed, overrun, get_next, parse_create, parse_reserve, parse_show,
  parse_wait,
}

-- The calls of the API, and `sleep`.
pub data Call : Type 0 where
  ems_create : (event_id num_rows num_cols : ℕ) → Call
  ems_reserve : (event_id : ℕ) → List Seat → Call
  ems_show : (event_id : ℕ) → Call
  ems_list_events : Call
  sleep : (delay : ℕ) → Call

-- The loop ends with `ems_quit`, or in an access outside a buffer of the parser.
pub data End : Type 0 where
  ems_quit crashed out_of_fuel : End

abbrev pub Trace : Type 0
Trace = List Call × End

abbrev pub then_calls : List Call → Trace → Trace
then_calls calls (later, end) = (calls ++ later, end)

-- What follows a parse function: `continue` where it failed.
parsed_args : {A : Type 0} → (again : Source → Trace) → (A → List Call) → Outcome A × Source → Trace
parsed_args again calls (ok a, src) = then_calls (calls a) (again src)
parsed_args again calls (failed, src) = again src
parsed_args again calls (overrun, src) = ([], crashed)

module _ (stack : Source → Bytes) (stale : Source → ℕ) where
  -- The switch.
  command : (again : Source → Trace) → Command × Source → Trace
  unfolding parsed_args
  command again (cmd_create, src) =
      parsed_args again (λ (id, rows, cols). ems_create id rows cols ∷ []) (parse_create stack src)
  command again (cmd_reserve, src) =
      parsed_args again (λ (id, seats). ems_reserve id seats ∷ [])
        (parse_reserve stack max_reservation_size src)
  command again (cmd_show, src) = parsed_args again (λ id. ems_show id ∷ []) (parse_show stack src)
  command again (cmd_list_events, src) = then_calls (ems_list_events ∷ []) (again src)
  command again (cmd_wait, src) =
      parsed_args again (λ (delay, thread_id). if ltb 0 delay then sleep delay ∷ [] else [])
        (parse_wait stack false src)
  command again (cmd_invalid, src) = again src
  command again (cmd_help, src) = again src
  command again (cmd_empty, src) = again src
  command again (eoc, src) = ([], ems_quit)

  -- The loop, with one round for each command that it reads.
  unfoldable pub run_jobs : ℕ → Source → Trace
  unfolding command
  run_jobs zero src = ([], out_of_fuel)
  run_jobs (suc fuel) src = command (run_jobs fuel) (get_next (stale src) src)
