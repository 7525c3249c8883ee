-- ===== src/Sessions/Many.antt =====
-- Sessions of many requests: their bytes, and what they mean on the list of events.
use event_management_server.Base.{
  ℕ, suc, ◌+◌, ◌*◌, ◌<◌, ◌≤◌, List, [], ◌∷◌, ◌++◌, arith, length, size_mod,
}
use event_management_server.Seats.{Event}
use event_management_server.Memory.{State, Run}
use event_management_server.Memory.Returns.{Returns, returns}
use event_management_server.Memory.Keeps.{After}
use event_management_server.Io.Descriptor.{Bytes}
use event_management_server.Wire.{int_size, encode}
use event_management_server.Operations.{Calls}
use event_management_server.Operations.CreateSpec.{Fresh}
use event_management_server.Operations.Reserve.{AllValid}
use event_management_server.Operations.Types.{create_spec-AllValid, reserve_spec-AllValid}
use event_management_server.Operations.Lengths.{length-create_spec, length-reserve_spec}
use event_management_server.Operations.Frame.{Distinct}
use event_management_server.Sessions.Messages.{
  Request, create, reserve, show, list_events, op_code, arguments, Fits, serve_spec,
}

-- The requests one after the other, in front of `tail`.
unfoldable pub requests_bytes : ℕ → List Request → Bytes → Bytes
requests_bytes session_id [] tail = tail
requests_bytes session_id (r ∷ requests) tail =
    op_code r
    ∷ (encode int_size session_id ++ arguments r (requests_bytes session_id requests tail))

-- The answers one after the other, and the list of events at the end. The calls of each round have
-- the number of rounds that are left, the round that ends the session not counted.
unfoldable pub serve_all : (ℕ → Calls) → List Request → List Event → Bytes × List Event
unfolding serve_spec
serve_all calls [] es = ([], es)
serve_all calls (r ∷ requests) es =
    let (answer, es') = serve_spec (calls (suc (length requests))) r es in
    let (answers, es'') = serve_all calls requests es' in (answer ++ answers, es'')

-- The number of seats of an event fits size_t.
unfoldable pub IsSized : Request → Type 0
IsSized (create event_id num_rows num_cols) = num_rows * num_cols < size_mod
IsSized (reserve event_id seats) = Unit {0}
IsSized (show event_id) = Unit {0}
IsSized list_events = Unit {0}

abbrev pub AllFit : List Request → Type 0
AllFit [] = Unit {0}
AllFit (r ∷ requests) = Fits r × IsSized r × AllFit requests

pub serve_spec-AllValid :
    (calls : Calls) (r : Request) (es : List Event)
    → IsSized r
    → AllValid es
    → AllValid (serve_spec calls r es).1
unfolding serve_spec IsSized
serve_spec-AllValid calls (create id rows cols) es sized h =
    create_spec-AllValid calls id rows cols es sized h
serve_spec-AllValid calls (reserve id seats) es sized h = reserve_spec-AllValid calls id seats es h
serve_spec-AllValid calls (show id) es sized h = h
serve_spec-AllValid calls list_events es sized h = h

pub length-serve_spec :
    (calls : Calls) (r : Request) (es : List Event)
    → length (serve_spec calls r es).1 ≤ length es + 1
unfolding serve_spec
length-serve_spec calls (create id rows cols) es = length-create_spec calls id rows cols es
length-serve_spec calls (reserve id seats) es = omega (arith, length-reserve_spec calls id seats es)
length-serve_spec calls (show id) es = omega arith
length-serve_spec calls list_events es = omega arith

-- What `malloc` returns in `n` rounds, from state `s` on: addresses that are unused, and none twice.
pub record Supply (calls : ℕ → Calls) (n : ℕ) (s : State) : Type 0 where
  pub fresh : (k : ℕ) → k ≤ n → Fresh (calls k) s
  pub distinct : (j k : ℕ) → j < k → k ≤ n → Distinct (calls k) (calls j)

-- A run that takes no address of the later rounds leaves their supply.
pub Returns-Supply :
    {A : Type 0} {P : A → State → Type 0} (calls : ℕ → Calls) (n : ℕ) (s : State) (r : Run A)
    → Supply calls (suc n) s
    → ((k : ℕ) → k ≤ n → After (Fresh (calls k)) r)
    → Returns P r
    → Returns (λ a s'. P a s' × Supply calls n s') r
Returns-Supply calls n s r supply kept (returns p) = returns (
  p,
  record { fresh = λ k h. kept k h; distinct = λ j k h h'. supply.distinct j k h (omega arith) },
)
