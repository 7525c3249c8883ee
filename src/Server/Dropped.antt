-- ===== src/Server/Dropped.antt =====
-- A message of a client that comes when `print_flag` is set.
use event_management_server.Base.{
  ℕ, ◌≤◌, ◌≡◌, ◌≢◌, refl, false, List, [], ◌∷◌, ◌++◌, arith, length, ◌==◌,
}
use event_management_server.Seats.{Event}
use event_management_server.Seats.Types.{AllTypes}
use event_management_server.Memory.{State}
use event_management_server.Memory.Returns.{Returns, returns, Returns-done}
use event_management_server.Io.Descriptor.{Bytes, Source}
use event_management_server.Io.Deliver.{sink}
use event_management_server.Io.Transfer.{contents, IsFlowing, my_read-Full}
use event_management_server.Wire.{decode, overlay}
use event_management_server.Operations.View.{Lists}
use event_management_server.Operations.Reserve.{AllValid}
use event_management_server.Requests.{Buffer}
use event_management_server.Server.{after_signals}
use event_management_server.Server.Extract.{
  Main, After, goes_on, Round, extract_round, round_received, serve_op_code, flagged, loop_on,
  extract_requests,
}
use event_management_server.Server.Paths.{path_bytes}
use event_management_server.Server.Connect.{setup_bytes}
use event_management_server.Server.Events.{print_events_lem}

-- One round for each byte, with no SIGUSR1, and no byte that is the operation code of a set-up.
abbrev pub AllQuiet : List Round → Bytes → Type 0
AllQuiet [] [] = Unit {0}
AllQuiet [] (b ∷ bs) = ⊥
AllQuiet (r ∷ rounds) [] = ⊥
AllQuiet (r ∷ rounds) (b ∷ bs) = (after_signals r.signals 0 ≡ 0) × (b ≢ 1) × AllQuiet rounds bs

-- The loop goes on with the same requests in the buffer, a clear flag, and `rest` to read.
pub record Lost (queue : Buffer) (rest : Bytes) (after : After) : Type 0 where
  pub main : Main
  pub going : after ≡ goes_on main
  pub same : main.queue ≡ queue
  pub clear : main.print_flag ≡ 0
  pub flowing : IsFlowing main.server_pipe
  pub left : contents main.server_pipe ≡ rest

other_code : (b : ℕ) → b ≢ 1 → (decode (overlay (b ∷ []) (0 ∷ [])) == 1) ≡ false
unfolding decode overlay
other_code b ne = ground arith

module _ (stale : ℕ → Source → Bytes) (server_path : Bytes) (size fuel : ℕ) where
  -- Each byte is read as an operation code that is none.
  skip_lem :
      (rounds : List Round) (bs : Bytes) {s : State} (rest : Bytes) (main : Main)
      → AllQuiet rounds bs
      → main.print_flag ≡ 0
      → IsFlowing main.server_pipe
      → contents main.server_pipe ≡ bs ++ rest
      → Returns
          (λ after s'. (s' ≡ s) × Lost main.queue rest after)
          (extract_requests stale server_path size fuel rounds main s)
  unfolding extract_requests extract_round round_received serve_op_code loop_on
  skip_lem [] [] rest main quiet clear flow coming = returns (
    refl,
    record { main = main; going = refl; same = refl; clear = clear; flowing = flow; left = coming },
  )
  skip_lem [] (b ∷ bs) rest main quiet clear flow coming = absurd quiet
  skip_lem (r ∷ rounds) [] rest main quiet clear flow coming = absurd quiet
  skip_lem (r ∷ rounds) (b ∷ bs) rest main quiet clear flow coming =
      let got = my_read-Full (b ∷ []) (bs ++ rest) main.server_pipe flow coming in
      rw (got.result, clear, quiet.0, other_code b quiet.1)
        (skip_lem rounds bs rest _ quiet.2 refl got.flowing got.left)

  -- A message of `ems_setup` that comes when the flag is set is lost: the round prints the events and
  -- drops the operation code, and the rounds after it, one for each byte of the two paths, skip
  -- them. The buffer is as it was, so that no request of the client waits there. No byte of the
  -- paths is 1, no signal comes in those rounds, and the standard output takes everything.
  pub setup_when_flagged :
      {s : State} {es : List Event} (first : Round) (rounds : List Round)
      (request_path response_path written rest : Bytes) (main : Main)
      → Lists s es
      → AllValid es
      → AllTypes es
      → length es ≤ size
      → length es ≤ fuel
      → after_signals first.signals main.print_flag ≡ 1
      → AllQuiet rounds (path_bytes request_path ++ path_bytes response_path)
      → main.stdout ≡ sink [] written
      → IsFlowing main.server_pipe
      → contents main.server_pipe ≡ setup_bytes request_path response_path ++ rest
      → Returns
          (λ after s'. (s' ≡ s) × Lost main.queue rest after)
          (extract_requests stale server_path size fuel (first ∷ rounds) main s)
  unfolding extract_requests extract_round round_received flagged loop_on setup_bytes
  setup_when_flagged {s} first rounds request_path response_path written rest main l valid types
        enough few flag quiet open_output flow coming =
      let paths = path_bytes request_path ++ path_bytes response_path in
      let got = my_read-Full (1 ∷ []) (paths ++ rest) main.server_pipe flow coming in
      let (out, s', printed, p) =
        Returns-done (print_events_lem first.calls size fuel written l valid types enough few) in
      rw (got.result, flag, open_output, printed, p.0)
        (skip_lem rounds paths rest _ quiet refl got.flowing got.left)
