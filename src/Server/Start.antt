-- ===== src/Server/Start.antt =====
-- `main` of src/server/main.c: the delay, the start of the server, and what follows the loop of
-- `extract_requests`. What its calls return is an argument.
pub mod Delay
pub mod First
use event_management_server.Base.{
  ℕ, zero, suc, ◌+◌, ◌-◌, ◌*◌, ◌%◌, Bool, true, false, Option, none, some, List, [], ◌∷◌, ◌++◌, ltb,
  ◌==◌, if◌then◌else◌, uint_mod, size_mod,
}
use event_management_server.Memory.{Cmd, pure, fault, ◌>>=◌, ◌>>◌}
use event_management_server.Io.Descriptor.{Bytes, Source, Sink}
use event_management_server.Number.{is_digit, after_spaces}
use event_management_server.Operations.{Calls, ems_init, ems_terminate}
use event_management_server.Server.Extract.{
  Round, Main, After, goes_on, breaks, waits, snprintf_path, extract_requests,
}

-- The digits at the front, behind the value of the digits before, and what follows them.
unfoldable pub digits_from : ℕ → Bytes → ℕ × Bytes
digits_from acc [] = (acc, [])
digits_from acc (c ∷ cs) =
    let more = digits_from (acc * 10 + (c - b'0')) cs in if is_digit c then more else (acc, c ∷ cs)

-- A number beyond ULONG_MAX is ULONG_MAX, whatever its sign.
signed_value : (negative : Bool) → ℕ → ℕ
signed_value negative n =
    if ltb (size_mod - 1) n then size_mod - 1 else if negative then (size_mod - n) % size_mod else n

-- With no digit, nothing of the text is read.
number_from : (text : Bytes) (negative : Bool) → Bytes → ℕ × Bytes
unfolding digits_from signed_value
number_from text negative [] = (0, text)
number_from text negative (c ∷ cs) =
    let (n, rest) = digits_from 0 (c ∷ cs) in
    if is_digit c then (signed_value negative n, rest) else (0, text)

signed_number : Bytes → Bytes → ℕ × Bytes
unfolding number_from
signed_number text [] = (0, text)
signed_number text (c ∷ cs) =
    if c == b'-'
    then number_from text true cs
    else if c == b'+'
    then number_from text false cs
    else number_from text false (c ∷ cs)

-- strtoul(text, &endptr, 10): the value, and the text from `endptr` on.
unfoldable pub strtoul_text : Bytes → ℕ × Bytes
unfolding signed_number after_spaces
strtoul_text text = signed_number text (after_spaces text)

abbrev pub default_delay_us : ℕ
default_delay_us = 500000

read_to_end : ℕ × Bytes → Option ℕ
read_to_end (delay, []) = if ltb (uint_mod - 1) delay then none else some delay
read_to_end (delay, c ∷ rest) = none

-- The optional argument; `none`: it is not the text of a number up to UINT_MAX.
unfoldable pub delay_of : Bytes → Option ℕ
unfolding strtoul_text read_to_end
delay_of text = read_to_end (strtoul_text text)

-- `true`: the call succeeds.
pub record ServerCalls : Type 0 where
  pub init : Calls
  pub mkfifo : Bool
  pub open_pipe : Bool
  pub threads_start : Bool
  pub workers_end : Bool
  pub close_pipe : Bool
  pub unlink : Bool
  pub unlink_again : Bool
  pub terminate : Calls

-- The return value; or the main thread is still in its loop, or waits for room in the buffer or for
-- the workers.
pub data Result : Type 0 where
  returned : ℕ → Result
  still_running : Main → Result
  waits_for_workers : Result

module _ (calls : ServerCalls) (size : ℕ) where
  failing : Cmd Result
  failing = do ems_terminate calls.terminate size; pure (returned 1)

  -- What follows the loop.
  unfoldable pub shut_down : Cmd Result
  unfolding failing
  shut_down =
      if calls.workers_end
      then (if calls.close_pipe
          then (if calls.unlink
              then (if calls.unlink_again
                  then (do ems_terminate calls.terminate size; pure (returned 0))
                  else failing)
              else failing)
          else failing)
      else pure waits_for_workers

  after_loop : After → Cmd Result
  unfolding shut_down
  after_loop (goes_on main) = pure (still_running main)
  after_loop (waits request main) = pure (still_running main)
  after_loop (breaks main) = shut_down

  module _ (stale : ℕ → Source → Bytes) (fuel : ℕ) (rounds : List Round) (old : Bytes)
      (main : Main) where
    -- From `mkfifo` on, with the text of the path, which a zero byte ends.
    unfoldable pub start_server : Bytes → Cmd Result
    unfolding failing after_loop
    start_server pipe_path =
        if calls.mkfifo
        then (if calls.open_pipe
            then elim (snprintf_path old (pipe_path ++ 0 ∷ [])) [
              | none ↦ λ _. fault
              | some server_path ↦
                  if calls.threads_start
                  then (do
                    after ← extract_requests stale server_path size fuel rounds main
                    after_loop after)
                  else pure (returned 1)
            ]
            else failing)
        else failing

    with_delay : Bytes → Option ℕ → Cmd Result
    unfolding start_server
    with_delay pipe_path none = pure (returned 1)
    with_delay pipe_path (some delay) = do
      failed ← ems_init calls.init delay
      if failed == 0 then start_server pipe_path else pure (returned 1)

    -- The texts of the arguments behind the name of the program.
    unfoldable pub server_main : List Bytes → Cmd Result
    unfolding with_delay delay_of
    server_main [] = pure (returned 1)
    server_main (pipe_path ∷ []) = with_delay pipe_path (some default_delay_us)
    server_main (pipe_path ∷ delay ∷ []) = with_delay pipe_path (delay_of delay)
    server_main (pipe_path ∷ delay ∷ other ∷ more) = pure (returned 1)
