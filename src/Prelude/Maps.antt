-- ===== src/Prelude/Maps.antt =====
-- A Go map with texts for keys, as an association list. `insert` replaces the value of a key that
-- is there, so that the keys stay distinct; a read of a missing key is `none`.
use Prim.Native.Nat.{suc, ◌≤◌}
use Prim.Native.String.{String}
use mathlib.Core.Path.{◌≡◌, refl}
use mathlib.Core.Bool.{true}
use mathlib.Core.Option.{Option, none, some}
use mathlib.Core.List.{List, [], ◌∷◌}
use native.Mathlib.Omega.{arith}
use text.Mathlib.Text.{◌==◌}
use text.Mathlib.TextEquality.{eq_iff}
use agent_exec_engine.Prelude.Tests.{if◌then◌else◌, is_some}
use agent_exec_engine.Prelude.Lists.{length, count}

abbrev pub Map {ℓ} : Type ℓ → Type ℓ
Map V = List (String × V)

-- The order in which Go visits a map's entries: each entry comes once, wherever it comes.
pub record IsOrder (range : List String → List String) : Type 0 where
  pub counts : (xs : List String) (k : String) → count k (range xs) ≡ count k xs

module _ {ℓ} {V : Type ℓ} where
  unfoldable pub lookup : String → Map V → Option V
  lookup name [] = none
  lookup name ((entry, value) ∷ rest) = if entry == name then some value else lookup name rest

  -- A write replaces the entry, or adds one at the end.
  unfoldable pub insert : String → V → Map V → Map V
  insert name new [] = (name, new) ∷ []
  insert name new ((entry, old) ∷ rest) =
      let written = insert name new rest in
      if entry == name then (entry, new) ∷ rest else (entry, old) ∷ written

  unfoldable pub delete : String → Map V → Map V
  delete k [] = []
  delete k ((j, w) ∷ m) = if j == k then delete k m else (j, w) ∷ delete k m

  unfoldable pub keys : Map V → List String
  keys [] = []
  keys ((j, w) ∷ m) = j ∷ keys m

  pub lookup-insert :
      (name other : String) (new : V) (m : Map V)
      → lookup other (insert name new m) ≡ (if name == other then some new else lookup other m)
  unfolding insert lookup
  lookup-insert name other new [] = refl
  lookup-insert name other new ((entry, old) ∷ rest) =
      let ih = lookup-insert name other new rest in
      ground (arith, ih, eq_iff entry other, eq_iff name other, eq_iff entry name)

  pub lookup-delete :
      (k j : String) (m : Map V) → lookup j (delete k m) ≡ (if k == j then none else lookup j m)
  unfolding lookup delete
  lookup-delete k j [] = ground arith
  lookup-delete k j ((i, w) ∷ m) =
      ground (arith, eq_iff k j, eq_iff i k, eq_iff i j, lookup-delete k j m)

  pub count-keys-insert :
      (k j : String) (v : V) (m : Map V)
      → count j (keys (insert k v m)) ≡ (
          if k == j
          then (if is_some (lookup k m) then count j (keys m) else suc (count j (keys m)))
          else count j (keys m))
  unfolding lookup insert keys count
  count-keys-insert k j v [] = ground arith
  count-keys-insert k j v ((i, w) ∷ m) =
      ground (arith, eq_iff k j, eq_iff i k, eq_iff i j, count-keys-insert k j v m)

  pub length-insert :
      (k : String) (v : V) (m : Map V)
      → length (insert k v m) ≡ (if is_some (lookup k m) then length m else suc (length m))
  unfolding lookup insert
  length-insert k v [] = refl
  length-insert k v ((i, w) ∷ m) = ground (arith, length-insert k v m)

  pub length-keys : (m : Map V) → length (keys m) ≡ length m
  unfolding keys
  length-keys [] = refl
  length-keys ((j, w) ∷ m) = ground (arith, length-keys m)

  pub lookup-keys : (k : String) (m : Map V) → is_some (lookup k m) ≡ true → 1 ≤ count k (keys m)
  unfolding lookup keys count
  lookup-keys k [] h = ground arith
  lookup-keys k ((j, w) ∷ m) h = ground (arith, lookup-keys k m)

  pub keys-lookup : (k : String) (m : Map V) → 1 ≤ count k (keys m) → is_some (lookup k m) ≡ true
  unfolding lookup keys count
  keys-lookup k [] h = ground arith
  keys-lookup k ((j, w) ∷ m) h = ground (arith, keys-lookup k m)

  pub count-keys-delete :
      (k j : String) (m : Map V) → count j (keys (delete k m)) ≤ count j (keys m)
  unfolding delete keys count
  count-keys-delete k j [] = ground arith
  count-keys-delete k j ((i, w) ∷ m) = ground (arith, count-keys-delete k j m)
