-- ===== src/Api/Connection.antt =====
-- `ems_setup` and `ems_quit` of src/client/api.c. Which calls succeed, what has arrived in the response
-- pipe once the request is written, and what the session's id was before, are arguments.
use event_management_server.Base.{
  ℕ, ◌-◌, Bool, Option, none, some, List, [], ◌∷◌, ◌++◌, length, replicate, ltb, if◌then◌else◌,
}
use event_management_server.Io.{my_write}
use event_management_server.Io.Descriptor.{Bytes, Source, Sink}
use event_management_server.Wire.{int_size, encode, failed, read_value}

abbrev pub max_path : ℕ
max_path = 40

-- `memset` and `strcpy` into an array of MAX_PATH bytes; `none`: the text with its zero byte is
-- longer than the array.
unfoldable pub path_buffer : Bytes → Option Bytes
path_buffer path =
    if ltb (length path) max_path then some (path ++ replicate (max_path - length path) 0) else none

pub record Session : Type 0 where
  pub session_id : ℕ
  pub req_pipe_path : Bytes
  pub resp_pipe_path : Bytes

-- `true`: the call succeeds. The calls that follow one another with no effect between them are
-- told apart all the same.
pub record SetupCalls : Type 0 where
  pub mkfifo_response : Bool
  pub mkfifo_request : Bool
  pub open_server : Bool
  pub open_request : Bool
  pub open_response : Bool
  pub close_server : Bool
  pub close_response : Bool

-- The return value (`none`: a write outside an array), the server pipe and the session afterwards.
pub record Connection : Type 0 where
  pub code : Option ℕ
  pub server : Sink
  pub session : Session

module _ (calls : SetupCalls) (stale : ℕ → Source → Bytes) (answers : Sink → Source) where
  -- return 1
  failure : Sink → Session → Connection
  failure server session = record { code = some 1; server = server; session = session }

  unfoldable pub closed_setup : Sink → Session → Connection
  unfolding failure
  closed_setup server session =
      if calls.close_server
      then (if calls.close_response
          then record { code = some 0; server = server; session = session }
          else failure server session)
      else failure server session

  -- From the opening of the client's own pipes on.
  unfoldable pub session_started :
      (request_path response_path : Bytes) → Session → Sink → Connection
  unfolding failure closed_setup
  session_started request_path response_path session server =
      if calls.open_request
      then (if calls.open_response
          then (let (bad, id, src) =
                read_value int_size (stale int_size (answers server)) (answers server) in
              if bad
              then failure server (record session { session_id = id })
              else closed_setup server (record {
                session_id = id;
                req_pipe_path = request_path;
                resp_pipe_path = response_path;
              }))
          else failure server session)
      else failure server session

  -- One `my_write` to the server pipe.
  unfoldable pub tell : Bytes → Session → (Sink → Connection) → Sink → Connection
  unfolding failure
  tell bs session next server =
      let (code, server') = my_write bs server in
      if failed code then failure server' session else next server'

  -- From the first `mkfifo` on, with the paths in their buffers.
  unfoldable pub connect : (request_path response_path : Bytes) → Session → Sink → Connection
  unfolding failure session_started tell
  connect request_path response_path session server =
      if calls.mkfifo_response
      then (if calls.mkfifo_request
          then (if calls.open_server
              then tell (1 ∷ []) session
                  (tell request_path session (
                    tell response_path session
                      (session_started request_path response_path session)))
                  server
              else failure server session)
          else failure server session)
      else failure server session

  unfoldable pub ems_setup :
      (req_pipe_p resp_pipe_p server_pipe_p : Bytes) → Session → Sink → Connection
  unfolding path_buffer connect
  ems_setup req_pipe_p resp_pipe_p server_pipe_p session server =
      let overrun : Connection = record { code = none; server = server; session = session } in
      elim (path_buffer server_pipe_p) [
        | none ↦ overrun
        | some server_path ↦ elim (path_buffer resp_pipe_p) [
          | none ↦ overrun
          | some response_path ↦ elim (path_buffer req_pipe_p) [
            | none ↦ overrun
            | some request_path ↦ connect request_path response_path session server
          ]
        ]
      ]

-- `true`: the call succeeds.
pub record QuitCalls : Type 0 where
  pub open_request : Bool
  pub close_request : Bool
  pub open_response : Bool
  pub close_response : Bool

-- The return value, the request pipe, and the paths that are unlinked.
pub record Farewell : Type 0 where
  pub code : ℕ
  pub requests : Sink
  pub unlinked : List Bytes

module _ (calls : QuitCalls) where
  unfoldable pub staying : Sink → Farewell
  staying requests = record { code = 1; requests = requests; unlinked = [] }

  unfoldable pub leave : Session → Sink → Farewell
  leave session requests = record {
    code = 0;
    requests = requests;
    unlinked = session.req_pipe_path ∷ session.resp_pipe_path ∷ [];
  }

  -- From the first `close` on.
  unfoldable pub close_and_unlink : Session → Sink → Farewell
  unfolding staying leave
  close_and_unlink session requests =
      if calls.close_request
      then (if calls.open_response
          then (if calls.close_response then leave session requests else staying requests)
          else leave session requests)
      else staying requests

  unfoldable pub farewell : Bytes → (Sink → Farewell) → Sink → Farewell
  unfolding staying
  farewell bs next requests =
      let (code, requests') = my_write bs requests in
      if failed code then staying requests' else next requests'

  unfoldable pub ems_quit : Session → Sink → Farewell
  unfolding staying farewell close_and_unlink
  ems_quit session requests =
      if calls.open_request
      then farewell (2 ∷ [])
          (farewell (encode int_size session.session_id) (close_and_unlink session)) requests
      else staying requests
