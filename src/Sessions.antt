-- ===== src/Sessions.antt =====
-- `handle_client` of src/server/main.c: the requests that a client sends through its pipe. What the
-- variables hold before they are read is an argument, by their size and by what is left to read.
pub mod Requests
pub mod Messages
pub mod Serve
pub mod Loop
pub mod Start
pub mod Frame
pub mod Left
pub mod Ends
pub mod Many
pub mod Whole
pub mod Client
use event_management_server.Base.{
  ℕ, zero, suc, ◌+◌, ◌*◌, ◌/◌, ◌%◌, size_mod, Bool, true, false, ◌||◌, Option, none, some, List, [],
  ◌∷◌, length, take, drop, ltb, ◌==◌, if◌then◌else◌,
}
use event_management_server.Seats.{Seat}
use event_management_server.Memory.{State, Cmd, done, fault, out_of_fuel, pure, ◌>>=◌, ◌>>◌}
use event_management_server.Io.{Code, count, minus_one, minus_two, Received, my_read, my_write}
use event_management_server.Io
use event_management_server.Io.Descriptor.{Bytes, Source, Sink}
use event_management_server.Wire.{int_size, size_size, encode, decode, failed, overlay, read_value}
use event_management_server.Operations.{Calls, ems_create, ems_reserve, ems_reserve_overrun}
use event_management_server.Operations.Answer.{ems_show, ems_list_events}

abbrev pub max_reservation_size : ℕ
max_reservation_size = 256

-- The two pipes of a session, as the server sees them.
pub record Link : Type 0 where
  pub request : Source
  pub response : Sink

-- An answer of one int; what `my_write` returns only matters for a message.
unfoldable pub reply : ℕ → Link → Cmd Link
reply result link =
    pure (record link { response = (my_write (encode int_size result) link.response).1 })

unfoldable pub answered : Link → ℕ × Sink → Cmd Link
answered link (r, sink) = pure (record link { response = sink })

pub zip : List ℕ → List ℕ → List Seat
zip [] ys = []
zip (x ∷ xs) [] = []
zip (x ∷ xs) (y ∷ ys) = (x, y) ∷ zip xs ys

-- The first elements of an array of size_t.
elements : ℕ → Bytes → List ℕ
unfolding decode
elements zero bs = []
elements (suc n) bs = decode (take size_size bs) ∷ elements n (drop size_size bs)

-- num_seats * sizeof(size_t), as `my_read` takes it: with the highest bit it is negative as an
-- ssize_t, and nothing is read.
unfoldable pub array_size : ℕ → ℕ
array_size num_seats =
    let size = num_seats * size_size % size_mod in if ltb size (size_mod / 2) then size else 0

module _ (stale : ℕ → Source → Bytes) (calls : Calls) (fuel : ℕ) where
  -- `my_read` of one variable; where it fails the answer is 1 and the request is over.
  unfoldable pub field : ℕ → (ℕ → Link → Cmd Link) → Link → Cmd Link
  unfolding reply
  field size next link =
      let (bad, value, src) = read_value size (stale size link.request) link.request in
      if bad
      then reply 1 (record link { request = src })
      else next value (record link { request = src })

  -- An array has 256 elements: a fault where more bytes came than it holds.
  array_read : ℕ → Bytes → (List ℕ → Link → Cmd Link) → Sink → Received × Source → Cmd Link
  unfolding reply elements overlay
  array_read num_seats old next response (r, src) =
      if ltb (max_reservation_size * size_size) (length r.bytes)
      then (λ _. fault)
      else if failed r.code
      then reply 1 (record { request = src; response = response })
      else next
          (elements (if ltb max_reservation_size num_seats then max_reservation_size else num_seats)
            (overlay r.bytes old))
          (record { request = src; response = response })

  unfoldable pub array_field : ℕ → (List ℕ → Link → Cmd Link) → Link → Cmd Link
  unfolding array_read array_size
  array_field num_seats next link =
      array_read num_seats (stale (max_reservation_size * size_size) link.request) next
        link.response (my_read (array_size num_seats) link.request)

  unfoldable pub run_create : (event_id num_rows num_cols : ℕ) → Link → Cmd Link
  unfolding reply
  run_create event_id num_rows num_cols link = do
    result ← ems_create calls fuel event_id num_rows num_cols
    reply result link

  unfoldable pub create_request : Link → Cmd Link
  unfolding field run_create
  create_request = field int_size λ session_id. field int_size λ event_id.
      field size_size λ num_rows. field size_size λ num_cols. run_create event_id num_rows num_cols

  unfoldable pub run_reserve : (event_id num_seats : ℕ) → (xs ys : List ℕ) → Link → Cmd Link
  unfolding reply zip
  run_reserve event_id num_seats xs ys link = do
    result ←
        (if ltb max_reservation_size num_seats
          then ems_reserve_overrun calls fuel event_id (zip xs ys)
          else ems_reserve calls fuel event_id (zip xs ys))
    reply result link

  unfoldable pub reserve_request : Link → Cmd Link
  unfolding field array_field run_reserve
  reserve_request = field int_size λ session_id. field int_size λ event_id.
      field size_size λ num_seats.
        array_field num_seats λ xs. array_field num_seats λ ys. run_reserve event_id num_seats xs ys

  unfoldable pub run_show : ℕ → Link → Cmd Link
  unfolding answered
  run_show event_id link = do out ← ems_show calls fuel event_id link.response; answered link out

  unfoldable pub show_request : Link → Cmd Link
  unfolding field run_show
  show_request = field int_size λ session_id. field int_size λ event_id. run_show event_id

  unfoldable pub run_list : Link → Cmd Link
  unfolding answered
  run_list link = do out ← ems_list_events calls fuel link.response; answered link out

  unfoldable pub list_request : Link → Cmd Link
  unfolding field run_list
  list_request = field int_size λ session_id. run_list

  -- The switch; the loop does not enter it with operation code 2.
  unfoldable pub serve_request : ℕ → Link → Cmd Link
  unfolding create_request reserve_request show_request list_request
  serve_request op_code link =
      if op_code == 3
      then create_request link
      else if op_code == 4
      then reserve_request link
      else if op_code == 5
      then show_request link
      else if op_code == 6
      then list_request link
      else pure link

-- The operation code, where `my_read` returned a positive number.
op_code_of : Code → Bytes → Option ℕ
op_code_of (count n) [] = none
op_code_of (count n) (op_code ∷ bytes) = some op_code
op_code_of minus_one bytes = none
op_code_of minus_two bytes = none
op_code_of Io.out_of_fuel bytes = none

module _ (stale : ℕ → Source → Bytes) (calls : ℕ → Calls) (fuel : ℕ) where
  -- What follows `my_read(request_pipe, &op_code, sizeof(char)) > 0 && op_code != 2`.
  session_round : (again : Link → Cmd Link) → Calls → Link → Option ℕ → Cmd Link
  unfolding serve_request
  session_round again c link none = pure link
  session_round again c link (some op_code) =
      if op_code == 2
      then pure link
      else do link' ← serve_request stale c fuel op_code link; again link'

  -- The loop, on fuel: `calls` is what libc and pthread return in each round.
  unfoldable pub session_loop : ℕ → Link → Cmd Link
  unfolding session_round op_code_of
  session_loop zero link = λ _. out_of_fuel
  session_loop (suc rounds) link =
      let (r, src) = my_read 1 link.request in
      session_round (session_loop rounds) (calls rounds) (record link { request = src })
        (op_code_of r.code r.bytes)
