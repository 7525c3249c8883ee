-- ===== src/Sessions/Messages.antt =====
-- The requests of a client, their bytes, and their meaning on the list of events.
use event_management_server.Base.{
  ℕ, suc, ◌<◌, ◌≤◌, ◌≡◌, refl, ap, List, [], ◌∷◌, ◌++◌, length, size_mod, uint_mod,
}
use event_management_server.Seats.{Event, Seat}
use event_management_server.Io.Descriptor.{Bytes}
use event_management_server.Wire.{int_size, size_size, encode, array_bytes}
use event_management_server.Operations.{Calls}
use event_management_server.Operations.CreateSpec.{create_spec}
use event_management_server.Operations.Reserve.{reserve_spec}
use event_management_server.Operations.Show.{show_spec}
use event_management_server.Operations.ListEvents.{list_spec}
use event_management_server.Sessions.{zip}
use event_management_server.Sessions.Requests.{AllSizes}

-- The requests that a client sends, after the operation code.
pub data Request : Type 0 where
  create : (event_id num_rows num_cols : ℕ) → Request
  reserve : (event_id : ℕ) → List Seat → Request
  show : (event_id : ℕ) → Request
  list_events : Request

unfoldable pub op_code : Request → ℕ
op_code (create event_id num_rows num_cols) = 3
op_code (reserve event_id seats) = 4
op_code (show event_id) = 5
op_code list_events = 6

abbrev pub rows_of : List Seat → List ℕ
rows_of [] = []
rows_of ((x, y) ∷ seats) = x ∷ rows_of seats

abbrev pub cols_of : List Seat → List ℕ
cols_of [] = []
cols_of ((x, y) ∷ seats) = y ∷ cols_of seats

-- The bytes behind the operation code and the session's id, in front of `rest`.
unfoldable pub arguments : Request → Bytes → Bytes
arguments (create event_id num_rows num_cols) rest =
    encode int_size event_id ++ (encode size_size num_rows ++ (encode size_size num_cols ++ rest))
arguments (reserve event_id seats) rest =
    encode int_size event_id
    ++ (encode size_size (length seats)
        ++ (array_bytes (rows_of seats) ++ (array_bytes (cols_of seats) ++ rest)))
arguments (show event_id) rest = encode int_size event_id ++ rest
arguments list_events rest = rest

-- The arguments fit their types, and a reservation has 256 seats at most.
unfoldable pub Fits : Request → Type 0
Fits (create event_id num_rows num_cols) =
    (event_id < uint_mod) × (num_rows < size_mod) × (num_cols < size_mod)
Fits (reserve event_id seats) =
    (event_id < uint_mod)
    × (length seats ≤ 256)
    × AllSizes (rows_of seats)
    × AllSizes (cols_of seats)
Fits (show event_id) = event_id < uint_mod
Fits list_events = Unit {0}

-- The answer and the list of events afterwards.
unfoldable pub serve_spec : Calls → Request → List Event → Bytes × List Event
serve_spec calls (create id rows cols) es =
    (encode int_size (create_spec calls id rows cols es).0, (create_spec calls id rows cols es).1)
serve_spec calls (reserve id seats) es =
    (encode int_size (reserve_spec calls id seats es).0, (reserve_spec calls id seats es).1)
serve_spec calls (show id) es = ((show_spec calls id es).1, es)
serve_spec calls list_events es = ((list_spec calls es).1, es)

pub zip-lem : (seats : List Seat) → zip (rows_of seats) (cols_of seats) ≡ seats
unfolding zip
zip-lem [] = refl
zip-lem ((x, y) ∷ seats) = ap (λ t. (x, y) ∷ t) (zip-lem seats)

pub length-rows_of : (seats : List Seat) → length (rows_of seats) ≡ length seats
length-rows_of [] = refl
length-rows_of ((x, y) ∷ seats) = ap suc (length-rows_of seats)

pub length-cols_of : (seats : List Seat) → length (cols_of seats) ≡ length seats
length-cols_of [] = refl
length-cols_of ((x, y) ∷ seats) = ap suc (length-cols_of seats)
