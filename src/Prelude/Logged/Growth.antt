-- ===== src/Prelude/Logged/Growth.antt =====
-- How much a run adds to a number that its calls determine.
use mathlib.Core.Path.{◌≡◌, ◌∙◌}
use mathlib.Core.List.{List}
use Prim.Native.Nat.{ℕ, ◌+◌, ◌≤◌}
use native.Mathlib.Omega.{arith}
use agent_exec_engine.Prelude.Errors.{Result, ok, err}
use agent_exec_engine.Prelude.Logged.{Logged, continue, ◌>>=◌}

module _ {C E : Type 0} (measure : List C → ℕ) where
  abbrev pub Keeps : {A : Type 0} → Logged C E A → Type 0
  Keeps run = (calls : List C) → measure (run calls).1 ≡ measure calls

module _ {C E A B : Type 0} (measure : List C → ℕ) where
  continue-Keeps :
      (next : A → Logged C E B) (calls : List C) (outcome : Result E A × List C)
      → measure outcome.1 ≡ measure calls
      → ((a : A) → Keeps measure (next a))
      → measure (continue next outcome).1 ≡ measure calls
  continue-Keeps next calls (err e, later) same rest = same
  continue-Keeps next calls (ok a, later) same rest = rest a later ∙ same

  pub >>=-Keeps :
      (first : Logged C E A) (next : A → Logged C E B)
      → Keeps measure first
      → ((a : A) → Keeps measure (next a))
      → Keeps measure (first >>= next)
  >>=-Keeps first next same rest calls = continue-Keeps next calls (first calls) (same calls) rest

-- A run that spends at most n of what a budgeted state has.
module _ {C E A : Type 0} (state : ℕ → List C → Type 0) where
  abbrev pub Spends : ℕ → Logged C E A → Type 0
  Spends n run = (used : ℕ) (calls : List C) → state used calls → state (used + n) (run calls).1

module _ {C E A B : Type 0} (state : ℕ → List C → Type 0)
    (widen : (m n : ℕ) (calls : List C) → m ≤ n → state m calls → state n calls) where
  continue-Spends :
      (next : A → Logged C E B) (used m n : ℕ) (outcome : Result E A × List C)
      → state (used + m) outcome.1
      → ((a : A) → Spends state n (next a))
      → state (used + (m + n)) (continue next outcome).1
  continue-Spends next used m n (err e, later) spent rest =
      widen (used + m) (used + (m + n)) later (omega arith) spent
  continue-Spends next used m n (ok a, later) spent rest =
      widen (used + m + n) (used + (m + n)) (next a later).1 (omega arith)
        (rest a (used + m) later spent)

  pub >>=-Spends :
      (m n : ℕ) (first : Logged C E A) (next : A → Logged C E B)
      → Spends state m first
      → ((a : A) → Spends state n (next a))
      → Spends state (m + n) (first >>= next)
  >>=-Spends m n first next spent rest used calls before =
      continue-Spends next used m n (first calls) (spent used calls before) rest

-- What a run's value and its error satisfy.
abbrev pub Outcome : {E A : Type 0} → (A → Type 0) → (E → Type 0) → Result E A → Type 0
Outcome good bad (ok a) = good a
Outcome good bad (err e) = bad e

module _ {C E A B : Type 0} (good : A → Type 0) (better : B → Type 0) (bad : E → Type 0) where
  continue-Outcome :
      (next : A → Logged C E B) (outcome : Result E A × List C)
      → Outcome good bad outcome.0
      → ((a : A) → good a → (calls : List C) → Outcome better bad (next a calls).0)
      → Outcome better bad (continue next outcome).0
  continue-Outcome next (err e, calls) first rest = first
  continue-Outcome next (ok a, calls) first rest = rest a first calls

  pub >>=-Outcome :
      (first : Logged C E A) (next : A → Logged C E B)
      → ((calls : List C) → Outcome good bad (first calls).0)
      → ((a : A) → good a → (calls : List C) → Outcome better bad (next a calls).0)
      → (calls : List C) → Outcome better bad ((first >>= next) calls).0
  >>=-Outcome first next holds rest calls = continue-Outcome next (first calls) (holds calls) rest
