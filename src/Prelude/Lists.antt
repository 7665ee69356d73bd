-- ===== src/Prelude/Lists.antt =====
-- Lists measured by native numbers, and lists of texts.
use Prim.Native.Nat.{ℕ, zero, suc, ◌+◌, ◌≤◌, ◌<◌}
use Prim.Native.String.{String}
use mathlib.Core.Path.{◌≡◌, refl}
use mathlib.Core.Bool.{Bool, true, false}
use mathlib.Core.Option.{Option, none, some}
use mathlib.Core.List.{List, [], ◌∷◌, ◌++◌}
use native.Mathlib.Omega.{arith}
use native.Mathlib.Decide.{ℕ_discrete}
use text.Mathlib.Text.{◌==◌}
use text.Mathlib.TextEquality.{eq_iff}
use text.Mathlib.TextPositions.{eq_refl}
use agent_exec_engine.Prelude.Tests.{if◌then◌else◌, eqb, is_some}

module _ {ℓ} {A : Type ℓ} where
  abbrev pub length : List A → ℕ
  length [] = 0
  length (x ∷ xs) = suc (length xs)

  pub length-append : (xs ys : List A) → length (xs ++ ys) ≡ length xs + length ys
  length-append [] ys = omega arith
  length-append (x ∷ xs) ys = omega (arith, length-append xs ys)

  -- A write out of bounds changes nothing.
  unfoldable pub set : List A → ℕ → A → List A
  set [] place new = []
  set (old ∷ others) zero new = new ∷ others
  set (old ∷ others) (suc place) new = old ∷ set others place new

  -- A read out of bounds gives none.
  unfoldable pub get_elem? : List A → ℕ → Option A
  get_elem? [] place = none
  get_elem? (first ∷ others) zero = some first
  get_elem? (first ∷ others) (suc place) = get_elem? others place

  pub get_elem?-set :
      (xs : List A) (place other : ℕ) (new : A)
      → get_elem? (set xs place new) other ≡ (
          if eqb place other
          then (if is_some (get_elem? xs other) then some new else none)
          else get_elem? xs other)
  unfolding get_elem? set
  get_elem?-set [] place other new = ground arith
  get_elem?-set (old ∷ others) zero zero new = refl
  get_elem?-set (old ∷ others) zero (suc other) new = ground arith
  get_elem?-set (old ∷ others) (suc place) zero new = ground arith
  get_elem?-set (old ∷ others) (suc place) (suc other) new =
      ground (arith, get_elem?-set others place other new)

  -- What holds of each element, as a tuple.
  abbrev pub All {κ} : (A → Type κ) → List A → Type κ
  All Holds [] = Unit
  All Holds (first ∷ others) = Holds first × All Holds others

-- How often a text stands in a list.
unfoldable pub count : String → List String → ℕ
count k [] = 0
count k (x ∷ xs) = if x == k then suc (count k xs) else count k xs

-- The scan for a text (the source's `contains`, which takes the list first).
unfoldable pub contains : List String → String → Bool
contains [] k = false
contains (x ∷ xs) k = if x == k then true else contains xs k

pub count-append : (k : String) (xs ys : List String) → count k (xs ++ ys) ≡ count k xs + count k ys
unfolding count
count-append k [] ys = omega arith
count-append k (x ∷ xs) ys = ground (arith, count-append k xs ys)

pub contains-count : (xs : List String) (k : String) → contains xs k ≡ true → 0 < count k xs
unfolding count contains
contains-count [] k h = ground arith
contains-count (x ∷ xs) k h = ground (arith, contains-count xs k)

pub count-contains : (xs : List String) (k : String) → 0 < count k xs → contains xs k ≡ true
unfolding count contains
count-contains [] k h = ground arith
count-contains (x ∷ xs) k h = ground (arith, count-contains xs k)

pub contains-append :
    (xs ys : List String) (k : String)
    → contains (xs ++ ys) k ≡ (if contains xs k then true else contains ys k)
unfolding contains
contains-append [] ys k = refl
contains-append (x ∷ xs) ys k = ground (arith, contains-append xs ys k)

-- The first occurrence of a text is taken out.
unfoldable pub erase : String → List String → List String
erase k [] = []
erase k (x ∷ xs) = if x == k then xs else x ∷ erase k xs

count-erase :
    (k j : String) (xs : List String)
    → 0 < count k xs
    → count j xs ≡ (if k == j then 1 else 0) + count j (erase k xs)
unfolding count erase
count-erase k j [] h = absurd (omega arith)
count-erase k j (x ∷ xs) h = ground (arith, eq_iff x k, eq_iff k j, eq_iff x j, count-erase k j xs)

length-erase :
    (k : String) (xs : List String) → 0 < count k xs → length xs ≡ suc (length (erase k xs))
unfolding count erase
length-erase k [] h = absurd (omega arith)
length-erase k (x ∷ xs) h = ground (arith, length-erase k xs)

-- A list whose texts all come at least as often in another is no longer than that.
pub length_le_of_counts :
    (xs ys : List String) → ((k : String) → count k xs ≤ count k ys) → length xs ≤ length ys
unfolding count
length_le_of_counts [] ys h = omega arith
length_le_of_counts (x ∷ xs) ys h =
    let there : 0 < count x ys = ground (arith, h x, eq_refl x) in
    let shorter =
      length_le_of_counts xs (erase x ys) (λ k. ground (arith, h k, count-erase x k ys there)) in
    omega (arith, shorter, length-erase x ys there)

-- If it is as long, then they hold the same texts, as often.
pub counts_eq_of_length :
    (xs ys : List String)
    → ((k : String) → count k xs ≤ count k ys)
    → length ys ≤ length xs
    → (k : String) → count k xs ≡ count k ys
unfolding count
counts_eq_of_length xs ys h l k = elim (ℕ_discrete (count k xs) (count k ys)) [
  | yes same ↦ same
  | no differ ↦
      absurd
        (omega (arith, length_le_of_counts (k ∷ xs) ys (λ j. ground (arith, h j, eq_iff k j, h k))))
]
