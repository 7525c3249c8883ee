-- ===== src/Memory/Ended.antt =====
-- Runs that end: with a result, or at a fault, and not for want of fuel.
use event_management_server.Base.{Bool, true, false, if◌then◌else◌}
use event_management_server.Memory.{State, Run, done, fault, Cmd, and_then}
use event_management_server.Memory.Returns.{Returns, returns}
use event_management_server.Memory.Keeps.{After}
use event_management_server.Memory.Ensures.{Satisfied}

pub data Ended {A : Type 0} (P : A → State → Type 0) : Run A → Type 0 where
  ends : {a : A} {s : State} → P a s → Ended P (done a s)
  faults : Ended P fault

module _ {A : Type 0} {P : A → State → Type 0} where
  pub Ended-bind :
      {B : Type 0} {Q : B → State → Type 0} {r : Run A} {k : A → Cmd B}
      → Ended P r
      → ((a : A) (s : State) → P a s → Ended Q (k a s))
      → Ended Q (and_then r k)
  Ended-bind (ends p) next = next _ _ p
  Ended-bind faults next = faults

  pub Returns-Ended : {r : Run A} → Returns P r → Ended P r
  Returns-Ended (returns p) = ends p

  pub Ended-if :
      (b : Bool) (m n : Cmd A) (s : State)
      → Ended P (m s)
      → Ended P (n s)
      → Ended P ((if b then m else n) s)
  Ended-if true m n s h h' = h
  Ended-if false m n s h h' = h'

  -- What is known of a result, of the state after it, and of both.
  pub Ended-with :
      {Q : A → Type 0} {I : State → Type 0} {R : A → State → Type 0} {r : Run A}
      → Satisfied Q r
      → After I r
      → Ended P r
      → ((a : A) (s : State) → Q a → I s → P a s → R a s)
      → Ended R r
  Ended-with q i (ends p) all = ends (all _ _ q i p)
  Ended-with q i faults all = faults
