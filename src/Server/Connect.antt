-- ===== src/Server/Connect.antt =====
-- What `ems_setup` of src/client/api.c writes to the server pipe, and the session that it begins.
use event_management_server.Base.{ℕ, ◌<◌, ◌≡◌, refl, true, some, [], ◌∷◌, ◌++◌, length, uint_mod}
use event_management_server.Io.Descriptor.{Bytes, Source, Sink}
use event_management_server.Io.Deliver.{sink, my_write_open}
use event_management_server.Io.Transfer.{contents, IsFlowing}
use event_management_server.Wire.{int_size, encode}
use event_management_server.Wire.Values.{read_value-encode}
use event_management_server.Api.Connection.{
  SetupCalls, Session, ems_setup, connect, tell, session_started, closed_setup,
}
use event_management_server.Server.Paths.{IsPath, path_bytes, path_buffer-path_bytes}

-- All calls of `ems_setup` succeed.
abbrev pub connected : SetupCalls
connected = record {
  mkfifo_response = true;
  mkfifo_request = true;
  open_server = true;
  open_request = true;
  open_response = true;
  close_server = true;
  close_response = true;
}

-- The message that begins a session.
unfoldable pub setup_bytes : (request_path response_path : Bytes) → Bytes
setup_bytes request_path response_path = 1 ∷ (path_bytes request_path ++ path_bytes response_path)

-- The session of a client whose id is `id`.
abbrev pub session_of : ℕ → (request_path response_path : Bytes) → Session
session_of id request_path response_path = record {
  session_id = id;
  req_pipe_path = path_bytes request_path;
  resp_pipe_path = path_bytes response_path;
}

module _ (stale : ℕ → Source → Bytes) (sized : (n : ℕ) (src : Source) → length (stale n src) ≡ n)
    (answers : Sink → Source) (request_path response_path rest : Bytes) (session : Session) (id : ℕ)
    (small : id < uint_mod)
    (flow : IsFlowing (answers (sink [] (setup_bytes request_path response_path))))
    (coming : contents (answers (sink [] (setup_bytes request_path response_path)))
      ≡ encode int_size id ++ rest) where
  session_started_lem :
      session_started connected stale answers
        (path_bytes request_path)
        (path_bytes response_path)
        session
        (sink [] (setup_bytes request_path response_path))
      ≡ record {
        code = some 0;
        server = sink [] (setup_bytes request_path response_path);
        session = session_of id request_path response_path;
      }
  unfolding session_started closed_setup
  session_started_lem =
      let message = sink [] (setup_bytes request_path response_path) in
      let got =
        read_value-encode int_size id (stale int_size (answers message)) rest (answers message)
          small (sized int_size (answers message)) flow coming in
      rw (got.succeeded, got.value_read) refl

  connect_lem :
      connect connected stale answers
        (path_bytes request_path)
        (path_bytes response_path)
        session
        (sink [] [])
      ≡ record {
        code = some 0;
        server = sink [] (setup_bytes request_path response_path);
        session = session_of id request_path response_path;
      }
  unfolding connect tell setup_bytes
  connect_lem =
      rw
        (
          my_write_open (1 ∷ []) [],
          my_write_open (path_bytes request_path) (1 ∷ []),
          my_write_open (path_bytes response_path) (1 ∷ path_bytes request_path),
        )
        session_started_lem

  -- `ems_setup` with an answer that holds an id: the message is written, the id is the session's,
  -- and the return value is 0.
  pub ems_setup_lem :
      (server_path : Bytes)
      → IsPath request_path
      → IsPath response_path
      → IsPath server_path
      → ems_setup connected stale answers request_path response_path server_path session
          (sink [] [])
        ≡ record {
          code = some 0;
          server = sink [] (setup_bytes request_path response_path);
          session = session_of id request_path response_path;
        }
  unfolding ems_setup
  ems_setup_lem server_path p q r =
      rw
        (
          path_buffer-path_bytes server_path r,
          ems_setup,
          path_buffer-path_bytes response_path q,
          ems_setup,
          path_buffer-path_bytes request_path p,
          ems_setup,
        )
        connect_lem
