-- ===== src/Dag/Graph/Degrees.antt =====
-- How the loops over a step's downstream steps change the degrees.
use agent_exec_engine.Prelude.{
  ℕ, ◌+◌, String, ◌≡◌, refl, ◌⊎◌, List, [], ◌∷◌, ◌++◌, none, some, true, false, ◌&&◌, arith,
  if◌then◌else◌, count, count-append, eq_iff, Map, lookup, insert, lookup-insert, count-keys-insert,
  keys, is_some, eqb, ltb,
}
use agent_exec_engine.Prelude.Int.{ℤ, pos, decrement, is_zero}
use agent_exec_engine.Types.{StepStatus}
use agent_exec_engine.Dag.Graph.{degree_of, relax, release_one, release}

-- Of `c` edges into `k` the last one brings its degree to 0, if it brings it to 0 at all.
abbrev pub arrives : ℕ → ℕ → ℕ
arrives c n = if ltb 0 c && eqb n 0 then 1 else 0

-- `relax` takes the number of edges into a step off its degree, and queues it when it gets to 0.
pub relax_lem :
    (es : List String) (m : Map ℤ) (queue : List String) (k : String) (n : ℕ)
    → lookup k m ≡ some (pos (count k es + n))
    → (lookup k (relax es m queue).0 ≡ some (pos n))
      × (count k (relax es m queue).1 ≡ count k queue + arrives (count k es) n)
unfolding relax count
relax_lem [] m queue k n h = ground arith
relax_lem (e ∷ es) m queue k n h =
    let d = decrement (degree_of e m) in
    let queue' = if is_zero d then queue ++ e ∷ [] else queue in
    ground (
      arith,
      eq_iff e k,
      lookup-insert e k d m,
      count-append k queue (e ∷ []),
      relax_lem es (insert e d m) queue' k n,
    )

-- A step that no edge enters keeps its degree and is not queued.
pub relax_other :
    (es : List String) (m : Map ℤ) (queue : List String) (k : String)
    → count k es ≡ 0
    → (lookup k (relax es m queue).0 ≡ lookup k m) × (count k (relax es m queue).1 ≡ count k queue)
unfolding relax count
relax_other [] m queue k h = (refl, refl)
relax_other (e ∷ es) m queue k h =
    let d = decrement (degree_of e m) in
    let queue' = if is_zero d then queue ++ e ∷ [] else queue in
    ground (
      arith,
      eq_iff e k,
      lookup-insert e k d m,
      count-append k queue (e ∷ []),
      relax_other es (insert e d m) queue' k,
    )

-- `release` does the same for the steps that are not resolved.
pub release_lem :
    (resolved : Map StepStatus) (es : List String) (m : Map ℤ) (ready : List String) (k : String)
    (n : ℕ)
    → is_some (lookup k resolved) ≡ false
    → lookup k m ≡ some (pos (count k es + n))
    → (lookup k (release resolved es (m, ready)).0 ≡ some (pos n))
      × (count k (release resolved es (m, ready)).1 ≡ count k ready + arrives (count k es) n)
unfolding release count
release_lem resolved [] m ready k n u h = ground arith
release_lem resolved (e ∷ es) m ready k n u h =
    let d = decrement (degree_of e m) in
    let s = release_one resolved e (m, ready) in
    ground (
      arith,
      eq_iff e k,
      lookup-insert e k d m,
      count-append k ready (e ∷ []),
      release_lem resolved es s.0 s.1 k n u,
    )

-- It leaves alone what is resolved and what has no degree.
pub release_other :
    (resolved : Map StepStatus) (es : List String) (m : Map ℤ) (ready : List String) (k : String)
    → is_some (lookup k resolved) ≡ true ⊎ (lookup k m ≡ none) ⊎ (count k es ≡ 0)
    → (lookup k (release resolved es (m, ready)).0 ≡ lookup k m)
      × (count k (release resolved es (m, ready)).1 ≡ count k ready)
unfolding release count
release_other resolved [] m ready k h = (refl, refl)
release_other resolved (e ∷ es) m ready k h =
    let s = release_one resolved e (m, ready) in
    ground (
      arith,
      eq_iff e k,
      lookup-insert e k (decrement (degree_of e m)) m,
      count-append k ready (e ∷ []),
      release_other resolved es s.0 s.1 k,
    )

-- It gives no step a degree that had none.
pub release-keys :
    (resolved : Map StepStatus) (es : List String) (m : Map ℤ) (ready : List String) (k : String)
    → count k (keys (release resolved es (m, ready)).0) ≡ count k (keys m)
unfolding release
release-keys resolved [] m ready k = refl
release-keys resolved (e ∷ es) m ready k =
    let s = release_one resolved e (m, ready) in
    ground (
      arith,
      count-keys-insert e k (decrement (degree_of e m)) m,
      release-keys resolved es s.0 s.1 k,
    )
