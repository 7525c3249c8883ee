-- ===== src/Memory/Keeps.antt =====
-- What every run of a program keeps, runs that fault or run out of fuel set aside.
use event_management_server.Base.{
  Bool, true, false, Option, Option-cases, inl, inr, ◌==◌, if◌then◌else◌, Bool-cases,
}
use event_management_server.Memory.{
  Ptr, null, State, Run, done, fault, out_of_fuel, Cmd, pure, ◌>>=◌, and_then, deref, gets,
}

abbrev pub After : {A : Type 0} → (State → Type 0) → Run A → Type 0
After I (done a s) = I s
After I fault = Unit {0}
After I out_of_fuel = Unit {0}

pub record Keeps {A : Type 0} (I : State → Type 0) (m : Cmd A) : Type 0 where
  pub holds : (s : State) → I s → After I (m s)

module _ {I : State → Type 0} where
  pub Keeps-if :
      {A : Type 0} (b : Bool) (m n : Cmd A) → Keeps I m → Keeps I n → Keeps I (if b then m else n)
  Keeps-if true m n kept kept' = kept
  Keeps-if false m n kept kept' = kept'

  run-After :
      {A B : Type 0} (r : Run A) (k : A → Cmd B)
      → After I r
      → ((a : A) → Keeps I (k a))
      → After I (and_then r k)
  run-After (done a s) k i next = (next a).holds s i
  run-After fault k i next = tt
  run-After out_of_fuel k i next = tt

  pub Keeps-bind :
      {A B : Type 0} (m : Cmd A) (k : A → Cmd B)
      → Keeps I m
      → ((a : A) → Keeps I (k a))
      → Keeps I (m >>= k)
  Keeps-bind m k kept next = record { holds = λ s i. run-After (m s) k (kept.holds s i) next }

  pub Keeps-pure : {A : Type 0} (a : A) → Keeps I (pure a)
  Keeps-pure a = record { holds = λ s i. i }

  pub Keeps-gets : {A : Type 0} (f : State → A) → Keeps I (gets f)
  Keeps-gets f = record { holds = λ s i. i }

  pub Keeps-fault : {A : Type 0} → Keeps {A = A} I (λ _. fault)
  Keeps-fault = record { holds = λ s i. tt }

  pub Keeps-out_of_fuel : {A : Type 0} → Keeps {A = A} I (λ _. out_of_fuel)
  Keeps-out_of_fuel = record { holds = λ s i. tt }

  -- A read of one address.
  pub Keeps-deref : {V : Type 0} (part : State → Ptr → Option V) (p : Ptr) → Keeps I (deref part p)
  unfolding deref
  Keeps-deref part p = record {
    holds = λ s i. elim (Bool-cases (p == null)) [
      | inl gone ↦ rw gone tt
      | inr there ↦ elim (Option-cases (part s p)) [
        | inl empty ↦ rw (there, deref, empty) tt
        | inr (v, held) ↦ rw (there, deref, held) i
      ]
    ];
  }

pub ruleset keeps_rules =
    (Keeps-pure, Keeps-gets, Keeps-fault, Keeps-out_of_fuel, Keeps-deref, Keeps-if, Keeps-bind)
