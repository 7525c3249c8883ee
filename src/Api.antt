-- ===== src/Api.antt =====
-- src/client/api.c: the requests of a session and the reading of their answers. Which calls of `open`
-- and `close` succeed, what the variables hold before they are read, and what has arrived in the
-- response pipe once the request is written, are arguments.
pub mod Output
pub mod Show
pub mod ListEvents
pub mod Keeps
pub mod Printing
pub mod Grid
pub mod EventLines
pub mod Answers
pub mod Requests
pub mod Exchange
pub mod Reports
pub mod Connection
pub mod Farewell
pub mod Success
use event_management_server.Base.{
  ℕ, zero, suc, ◌+◌, ◌-◌, ◌%◌, Bool, true, false, Option, none, some, List, [], ◌∷◌, length, take,
  ltb, ◌==◌, if◌then◌else◌, size_mod,
}
use event_management_server.Io.{my_write}
use event_management_server.Io.Descriptor.{Bytes, Source, Sink}
use event_management_server.Wire.{int_size, size_size, array_bytes, encode, failed, read_value}
use event_management_server.Number.{print_uint, print_str}

-- `true`: the call succeeds.
pub record Pipes : Type 0 where
  pub open_request : Bool
  pub open_response : Bool
  pub close_request : Bool
  pub close_response : Bool

-- The return value, and the request pipe, the response pipe and the output file afterwards. `none`
-- stands for an access outside an array.
pub record Outcome : Type 0 where
  pub code : Option ℕ
  pub requests : Sink
  pub responses : Source
  pub output : Sink

module _ (pipes : Pipes) (stale : ℕ → Source → Bytes) (answers : Sink → Source) where
  -- A part of a request; where it cannot be written the return value is 1.
  unfoldable pub send : Bytes → (Sink → Outcome) → Sink → Sink → Outcome
  send bs next output requests =
      let (code, requests') = my_write bs requests in
      if failed code
      then record {
        code = some 1;
        requests = requests';
        responses = answers requests';
        output = output;
      }
      else next requests'

  unfoldable pub closed : ℕ → Outcome → Outcome
  closed result o = record o {
    code =
        if pipes.close_request
        then (if pipes.close_response then some result else some 1)
        else some 1;
  }

  -- `int result` from the response pipe, and what follows where it is not 1.
  result_read : (next : ℕ → Outcome → Outcome) → Sink → Sink → Bool × ℕ × Source → Outcome
  result_read next output requests (bad, result, src) =
      let o : Outcome = record {
        code = some 1;
        requests = requests;
        responses = src;
        output = output;
      } in
      if bad then o else if result == 1 then o else next result o

  unfoldable pub await_result : (next : ℕ → Outcome → Outcome) → Sink → Sink → Outcome
  unfolding result_read
  await_result next output requests =
      if pipes.open_response
      then result_read next output requests
          (read_value int_size (stale int_size (answers requests)) (answers requests))
      else record {
        code = some 1;
        requests = requests;
        responses = answers requests;
        output = output;
      }

  -- The operation code, the session and the rest of a request, where the request pipe opens.
  unfoldable pub start : ℕ → ℕ → (Sink → Outcome) → Sink → Sink → Outcome
  unfolding send
  start op_code session_id next output requests =
      if pipes.open_request
      then send (op_code ∷ []) (send (encode int_size session_id) next output) output requests
      else record {
        code = some 1;
        requests = requests;
        responses = answers requests;
        output = output;
      }

  unfoldable pub ems_create : (session_id event_id num_rows num_cols : ℕ) → Sink → Sink → Outcome
  unfolding start await_result closed
  ems_create session_id event_id num_rows num_cols output =
      start 3 session_id
        (send (encode int_size event_id)
          (send (encode size_size num_rows)
            (send (encode size_size num_cols) (await_result closed output) output) output)
          output)
        output

  -- The first elements of an array; to write more than it has is an access outside of it.
  unfoldable pub send_array : ℕ → List ℕ → (Sink → Outcome) → Sink → Sink → Outcome
  unfolding send
  send_array n values next output requests =
      if ltb (length values) n
      then record {
        code = none;
        requests = requests;
        responses = answers requests;
        output = output;
      }
      else send (array_bytes (take n values)) next output requests

  unfoldable pub ems_reserve :
      (session_id event_id num_seats : ℕ) → (xs ys : List ℕ) → Sink → Sink → Outcome
  unfolding start send_array await_result closed
  ems_reserve session_id event_id num_seats xs ys output =
      start 4 session_id
        (send (encode int_size event_id)
          (send (encode size_size num_seats)
            (send_array num_seats xs (send_array num_seats ys (await_result closed output) output)
              output)
            output)
          output)
        output
