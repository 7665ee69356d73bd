-- ===== src/Prelude/Logged.antt =====
-- Code that calls another system and may fail: the calls are kept, newest first, and the other
-- system's answers may depend on them.
pub mod Growth
use mathlib.Core.List.{List, [], ◌∷◌}
use agent_exec_engine.Prelude.Errors.{Result, ok, err}

abbrev pub Logged {ℓ} : Type 0 → Type 0 → Type ℓ → Type ℓ
Logged C E A = List C → Result E A × List C

module _ {ℓ κ} {C E : Type 0} {A : Type ℓ} {B : Type κ} where
  abbrev pub continue : (A → Logged C E B) → Result E A × List C → Result E B × List C
  continue next (err e, calls) = (err e, calls)
  continue next (ok a, calls) = next a calls

  infixl 5 ◌>>=◌
  abbrev pub ◌>>=◌ : Logged C E A → (A → Logged C E B) → Logged C E B
  (first >>= next) calls = continue next (first calls)

module _ {ℓ} {C E : Type 0} {A : Type ℓ} where
  infixl 5 ◌>>◌
  abbrev pub ◌>>◌ : Logged C E (Unit {0}) → Logged C E A → Logged C E A
  first >> second = first >>= λ _. second

  abbrev pub return : A → Logged C E A
  return a calls = (ok a, calls)

  -- A step that calls nothing.
  abbrev pub lift : Result E A → Logged C E A
  lift r calls = (r, calls)
