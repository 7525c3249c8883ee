-- ===== src/Memory/Ensures.antt =====
-- What every result of a program satisfies, runs that fault or run out of fuel set aside.
use event_management_server.Base.{Bool, true, false, if◌then◌else◌}
use event_management_server.Memory.{
  State, Run, done, fault, out_of_fuel, Cmd, pure, ◌>>=◌, and_then,
}

abbrev pub Satisfied : {A : Type 0} → (A → Type 0) → Run A → Type 0
Satisfied P (done a s) = P a
Satisfied P fault = Unit {0}
Satisfied P out_of_fuel = Unit {0}

pub record Ensures {A : Type 0} (P : A → Type 0) (m : Cmd A) : Type 0 where
  pub holds : (s : State) → Satisfied P (m s)

module _ {B : Type 0} {P : B → Type 0} where
  pub Ensures-if :
      (b : Bool) (m n : Cmd B) → Ensures P m → Ensures P n → Ensures P (if b then m else n)
  Ensures-if true m n h h' = h
  Ensures-if false m n h h' = h'

  pub Ensures-pure : (b : B) → P b → Ensures P (pure b)
  Ensures-pure b h = record { holds = λ s. h }

  pub Ensures-fault : Ensures P (λ _. fault)
  Ensures-fault = record { holds = λ s. tt }

  run-Satisfied :
      {A : Type 0} (r : Run A) (k : A → Cmd B)
      → ((a : A) → Ensures P (k a))
      → Satisfied P (and_then r k)
  run-Satisfied (done a s) k next = (next a).holds s
  run-Satisfied fault k next = tt
  run-Satisfied out_of_fuel k next = tt

  pub Ensures-bind :
      {A : Type 0} (m : Cmd A) (k : A → Cmd B) → ((a : A) → Ensures P (k a)) → Ensures P (m >>= k)
  Ensures-bind m k next = record { holds = λ s. run-Satisfied (m s) k next }

pub ruleset ensures_rules = (Ensures-pure, Ensures-fault, Ensures-if, Ensures-bind)
