-- ===== src/Sessions/Start.antt =====
-- `handle_client` of src/server/main.c as a whole: the opening of the pipes, the session's id, and the
-- loop. Its argument is a local variable of `worker_function`, so that each `free` of it is a fault.
use event_management_server.Base.{ℕ, Bool, if◌then◌else◌}
use event_management_server.Memory.{Cmd, fault}
use event_management_server.Io.{my_write}
use event_management_server.Io.Descriptor.{Bytes, Source}
use event_management_server.Wire.{int_size, encode, failed}
use event_management_server.Operations.{Calls}
use event_management_server.Sessions.{Link, session_loop}

-- `true`: the pipe opens.
pub record Opens : Type 0 where
  pub server_pipe : Bool
  pub request_pipe : Bool
  pub response_pipe : Bool

module _ (opens : Opens) (stale : ℕ → Source → Bytes) (calls : ℕ → Calls) (fuel : ℕ) where
  unfoldable pub greet : (rounds session_id : ℕ) → Link → Cmd Link
  unfolding session_loop
  greet rounds session_id link =
      let (code, response) = my_write (encode int_size session_id) link.response in
      if failed code
      then (λ _. fault)
      else session_loop stale calls fuel rounds (record link { response = response })

  unfoldable pub handle_client : (rounds session_id : ℕ) → Link → Cmd Link
  unfolding greet
  handle_client rounds session_id link =
      if opens.server_pipe
      then (if opens.request_pipe
          then (if opens.response_pipe then greet rounds session_id link else (λ _. fault))
          else (λ _. fault))
      else (λ _. fault)
