-- ===== src/Prelude/Errors.antt =====
-- A value, or the error that Go returns in its place.
use mathlib.Core.Path.{◌≡◌, refl}
use mathlib.Core.Bool.{Bool, true, false}
use mathlib.Core.Logic.{◌⊎◌, inl, inr}

pub data Result {ℓ} (E : Type 0) (A : Type ℓ) : Type ℓ where
  ok : A → Result E A
  err : E → Result E A

module _ {ℓ κ} {E : Type 0} {A : Type ℓ} {B : Type κ} where
  infixl 5 ◌>>=◌
  abbrev pub ◌>>=◌ : Result E A → (A → Result E B) → Result E B
  ◌>>=◌ (err failure) next = err failure
  ◌>>=◌ (ok value) next = next value

  -- A chain that succeeds has a first step that does.
  pub >>=-eq-ok :
      (first : Result E A) (next : A → Result E B) {final : B}
      → (first >>= next) ≡ ok final
      → (value : A) × (first ≡ ok value) × (next value ≡ ok final)
  >>=-eq-ok (err failure) next same = cc
  >>=-eq-ok (ok value) next same = (value, refl, same)

module _ {ℓ} {E : Type 0} {A : Type ℓ} where
  infixl 5 ◌>>◌
  abbrev pub ◌>>◌ : Result E (Unit {0}) → Result E A → Result E A
  first >> then = first >>= λ _. then

  abbrev is_ok : Result E A → Bool
  is_ok (err failure) = false
  is_ok (ok value) = true

  pub ok-injective : {a b : A} → ◌≡◌ {A = Result E A} (ok a) (ok b) → a ≡ b
  ok-injective same = cc

-- An error under another name, `fmt.Errorf("...: %w", err)`.
abbrev pub with_error : {D E A : Type 0} → (D → E) → Result D A → Result E A
with_error wrap (ok value) = ok value
with_error wrap (err failure) = err (wrap failure)

-- An `if` that returns an error when its test holds.
abbrev pub fail_if : {E : Type 0} → Bool → E → Result E (Unit {0})
fail_if true failure = err failure
fail_if false failure = ok tt

pub Result-cases {ℓ} :
    {E : Type 0} {A : Type ℓ} (r : Result E A) → ((e : E) × (r ≡ err e)) ⊎ ((a : A) × (r ≡ ok a))
Result-cases (err e) = inl (e, refl)
Result-cases (ok a) = inr (a, refl)
