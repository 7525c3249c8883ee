-- ===== src/Server/Extract.antt =====
-- `extract_requests` of src/server/main.c. The server pipe is open for reading and writing, so that a read
-- of it never meets an end of file: a source that is used up stands for nothing that the server does.
use event_management_server.Base.{
  ℕ, ◌-◌, Bool, Option, none, some, List, [], ◌∷◌, ◌++◌, take, ◌==◌, if◌then◌else◌, uint_mod,
}
use event_management_server.Memory.{fault, Cmd, pure, ◌>>=◌}
use event_management_server.Io.{Received, my_read}
use event_management_server.Io.Descriptor.{Bytes, Source, Sink}
use event_management_server.Wire.{failed, decode, overlay}
use event_management_server.Operations.{Calls}
use event_management_server.Requests.{Request, Buffer, insert_request}
use event_management_server.Api.Connection.{max_path}
use event_management_server.Server.{after_signals, print_events}

-- The text in an array, up to its zero byte; `none`: it has none.
unfoldable pub c_string : Bytes → Option Bytes
c_string [] = none
c_string (b ∷ bs) =
    let rest = c_string bs in
    if b == 0 then some [] else elim rest [ none ↦ none | some text ↦ some (b ∷ text) ]

-- snprintf(array, MAX_PATH, "%s", path) into an array that held `old`; `none`: a read behind `path`.
unfoldable pub snprintf_path : (old path : Bytes) → Option Bytes
unfolding c_string overlay
snprintf_path old path = elim (c_string path) [
  | none ↦ none
  | some text ↦ some (overlay (take (max_path - 1) text ++ 0 ∷ []) old)
]

-- What the calls of one round return, the signals that arrive before its test of the flag, and
-- what its three arrays of a request hold at first.
pub record Round : Type 0 where
  pub signals : List ℕ
  pub created : Bool
  pub joined : Bool
  pub calls : ℕ → Calls
  pub old : Bytes

-- The variables of the main thread.
pub record Main : Type 0 where
  pub server_pipe : Source
  pub print_flag : ℕ
  pub queue : Buffer
  pub stdout : Sink

-- After a round: the next one, or the end of the loop, or a wait for room in the buffer.
pub data After : Type 0 where
  goes_on breaks : Main → After
  waits : Request → Main → After

unfoldable pub inserted : Round → Request → Main → Option Buffer → Cmd After
inserted round request main none = pure (waits request main)
inserted round request main (some queue) =
    let main' : Main = record main { queue = queue } in
    if round.joined then pure (goes_on main') else pure (breaks main')

unfoldable pub insert : Round → Request → Main → Cmd After
unfolding inserted
insert round request main =
    if round.created
    then inserted round request main (insert_request request main.queue)
    else pure (breaks main)

module _ (stale : ℕ → Source → Bytes) (server_path : Bytes) (size fuel : ℕ) where
  unfoldable pub path_received :
      (Bytes → Main → Cmd After) → Bytes → Main → Received × Source → Cmd After
  unfolding overlay
  path_received next old main (r, src) =
      let main' : Main = record main { server_pipe = src } in
      if failed r.code then pure (breaks main') else next (overlay r.bytes old) main'

  -- `my_read` of a path.
  unfoldable pub read_path : (Bytes → Main → Cmd After) → Main → Cmd After
  unfolding path_received
  read_path next main =
      path_received next (stale max_path main.server_pipe) main (my_read max_path main.server_pipe)

  -- The request for the two paths.
  unfoldable pub new_request : Round → (request_path response_path : Bytes) → Main → Cmd After
  unfolding snprintf_path insert
  new_request round request_path response_path main = elim (snprintf_path round.old request_path) [
    | none ↦ λ _. fault
    | some request ↦ elim (snprintf_path round.old response_path) [
      | none ↦ λ _. fault
      | some response ↦ elim (snprintf_path round.old server_path) [
        | none ↦ λ _. fault
        | some server ↦
            insert round
              (record {
                session_id = uint_mod - 1;
                request_pipe_path = request;
                response_pipe_path = response;
                server_pipe_path = server;
              })
              main
      ]
    ]
  ]

  -- What follows the test of the flag.
  unfoldable pub serve_op_code : Round → ℕ → Main → Cmd After
  unfolding read_path new_request
  serve_op_code round op_code main =
      if op_code == 1
      then read_path
          (λ request_path.
            read_path (λ response_path. new_request round request_path response_path))
          main
      else pure (goes_on main)

  unfoldable pub flagged : Round → Main → Cmd After
  flagged round main = do
    out ← print_events round.calls size fuel main.stdout
    pure (goes_on (record main { print_flag = 0; stdout = out.1 }))

  unfoldable pub round_received : Round → Main → Received × Source → Cmd After
  unfolding flagged serve_op_code overlay decode
  round_received round main (r, src) =
      let main' : Main = record main {
        server_pipe = src;
        print_flag = after_signals round.signals main.print_flag;
      } in
      if failed r.code
      then pure (breaks main')
      else if main'.print_flag == 1
      then flagged round main'
      else serve_op_code round (decode (overlay r.bytes (0 ∷ []))) main'

  unfoldable pub extract_round : Round → Main → Cmd After
  unfolding round_received
  extract_round round main = round_received round main (my_read 1 main.server_pipe)

  unfoldable pub loop_on : (again : Main → Cmd After) → After → Cmd After
  loop_on again (goes_on main) = again main
  loop_on again (breaks main) = pure (breaks main)
  loop_on again (waits request main) = pure (waits request main)

  -- The loop, for as many rounds as are given.
  unfoldable pub extract_requests : List Round → Main → Cmd After
  unfolding extract_round loop_on
  extract_requests [] main = pure (goes_on main)
  extract_requests (round ∷ rounds) main = do
    after ← extract_round round main
    loop_on (extract_requests rounds) after
