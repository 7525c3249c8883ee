-- ===== src/Memory/Returns.antt =====
-- Total correctness of a program: no fault, enough fuel, and a postcondition.
use event_management_server.Base.{◌≡◌, refl}
use event_management_server.Memory.{State, Run, done, Cmd, and_then}

pub data Returns {A : Type 0} (P : A → State → Type 0) : Run A → Type 0 where
  returns : {a : A} {s : State} → P a s → Returns P (done a s)

module _ {A : Type 0} {P : A → State → Type 0} where
  pub bind :
      {B : Type 0} {Q : B → State → Type 0} {r : Run A} {k : A → Cmd B}
      → Returns P r
      → ((a : A) (s : State) → P a s → Returns Q (k a s))
      → Returns Q (and_then r k)
  bind (returns p) next = next _ _ p

  pub mono :
      {Q : A → State → Type 0} {r : Run A}
      → Returns P r
      → ((a : A) (s : State) → P a s → Q a s)
      → Returns Q r
  mono (returns p) weaken = returns (weaken _ _ p)

-- The run that a total correctness statement is about.
pub Returns-done :
    {A : Type 0} {P : A → State → Type 0} {r : Run A}
    → Returns P r
    → (a : A) × (s : State) × (r ≡ done a s) × P a s
Returns-done (returns {a} {s} p) = (a, s, refl, p)
