-- ===== src/Dag/Graph/Kahn.antt =====
-- The invariant of the loop of `validateAcyclic` over a graph that was just built.
use agent_exec_engine.Prelude.{
  ℕ, ◌+◌, ◌<◌, String, ◌≡◌, refl, ap, ◌∙◌, true, false, ◌&&◌, List, [], ◌∷◌, none, some, arith,
  if◌then◌else◌, count, contains, eqb, Map, lookup, eq_iff, eq_refl, inl, inr, contains-count,
  Bool-cases,
}
use agent_exec_engine.Prelude.Int.{ℤ, pos}
use agent_exec_engine.Types.{Step}
use agent_exec_engine.Dag.Graph.{Graph, edges_of, relax}
use agent_exec_engine.Dag.Graph.Degrees.{arrives, relax_lem, relax_other}
use agent_exec_engine.Dag.Graph.Wellformed.{deps_in, ids}
use agent_exec_engine.Dag.Graph.Built.{IsBuilt}

-- How many of a list of dependencies have not been visited.
unfoldable pub waiting : List String → List String → ℕ
waiting popped [] = 0
waiting popped (d ∷ ds) = (if contains popped d then 0 else 1) + waiting popped ds

-- Visiting one more step takes its occurrences off.
waiting-cons :
    (popped : List String) (c : String) (ds : List String)
    → contains popped c ≡ false
    → waiting popped ds ≡ count c ds + waiting (c ∷ popped) ds
unfolding waiting count contains
waiting-cons popped c [] h = refl
waiting-cons popped c (d ∷ ds) h =
    ground (arith, eq_iff c d, eq_iff d c, waiting-cons popped c ds h)

pub waiting-pos :
    (popped : List String) (d : String) (ds : List String)
    → 0 < count d ds
    → contains popped d ≡ false
    → 0 < waiting popped ds
unfolding waiting count
waiting-pos popped d [] h n = absurd (omega arith)
waiting-pos popped d (e ∷ ds) h n = ground (arith, eq_iff e d, waiting-pos popped d ds)

-- A list of dependencies that is visited in full.
pub waiting-zero :
    (popped ds : List String)
    → ((d : String) → 0 < count d ds → contains popped d ≡ true)
    → waiting popped ds ≡ 0
unfolding waiting count
waiting-zero popped [] h = refl
waiting-zero popped (d ∷ ds) h =
    ground (arith, h d, eq_refl d, waiting-zero popped ds (λ e p. ground (arith, h e)))

module _ (steps : List Step) (g : Graph) (b : IsBuilt steps g) where
  -- The degree of a step counts the dependencies not visited yet; a step is visited or queued,
  -- once, exactly when its degree is 0.
  pub record IsKahn (popped queue : List String) (m : Map ℤ) : Type 0 where
    pub degrees :
        (k : String)
        → contains (ids steps) k ≡ true
        → lookup k m ≡ some (pos (waiting popped (deps_in steps k)))
    pub once :
        (k : String)
        → count k popped + count k queue
          ≡ (if contains (ids steps) k && eqb (waiting popped (deps_in steps k)) 0 then 1 else 0)
    pub others : (k : String) → contains (ids steps) k ≡ false → lookup k m ≡ none

  module _ (popped : List String) (c : String) (queue : List String) (m : Map ℤ)
      (w : IsKahn popped (c ∷ queue) m) where
    current-new : contains popped c ≡ false
    unfolding count
    current-new = ground (arith, eq_refl c, contains-count popped c, w.once c)

    into : (k : String) → count k (edges_of c g.edges) ≡ count c (deps_in steps k)
    into k = b.wf.links c k ∙ ap (count c) (b.deps k)

    into-unknown : (k : String) → contains (ids steps) k ≡ false → count k (edges_of c g.edges) ≡ 0
    unfolding count
    into-unknown k h = ground (arith, b.has k, b.wf.links c k)

    relax-known :
        (k : String)
        → contains (ids steps) k ≡ true
        → (lookup k (relax (edges_of c g.edges) m queue).0
            ≡ some (pos (waiting (c ∷ popped) (deps_in steps k))))
          × (count k (relax (edges_of c g.edges) m queue).1
              ≡ count k queue
                + arrives (count c (deps_in steps k)) (waiting (c ∷ popped) (deps_in steps k)))
    relax-known k h =
        let e : lookup k m
            ≡ some (pos (count k (edges_of c g.edges) + waiting (c ∷ popped) (deps_in steps k))) =
          ground
            (arith, w.degrees k h, waiting-cons popped c (deps_in steps k) current-new, into k) in
        ground (
          arith,
          into k,
          relax_lem (edges_of c g.edges) m queue k (waiting (c ∷ popped) (deps_in steps k)) e,
        )

    pub IsKahn-step :
        IsKahn
          (c ∷ popped)
          (relax (edges_of c g.edges) m queue).1
          (relax (edges_of c g.edges) m queue).0
    unfolding count
    IsKahn-step = record {
      degrees = λ k h. (relax-known k h).0;
      once = λ k. elim (Bool-cases (contains (ids steps) k)) [
        | inl h ↦
            ground (
              arith,
              w.once k,
              relax-known k h,
              waiting-cons popped c (deps_in steps k) current-new,
            )
        | inr h ↦
            ground (arith, w.once k, relax_other (edges_of c g.edges) m queue k (into-unknown k h))
      ];
      others =
          λ k h. (relax_other (edges_of c g.edges) m queue k (into-unknown k h)).0 ∙ w.others k h;
    }
