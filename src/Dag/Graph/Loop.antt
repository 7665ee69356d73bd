-- ===== src/Dag/Graph/Loop.antt =====
-- The loop of `validateAcyclic`, under an invariant that bounds what is visited or queued.
use agent_exec_engine.Prelude.{
  ℕ, zero, suc, ◌+◌, ◌≤◌, String, ◌≡◌, refl, List, [], ◌∷◌, some, arith, length, Map,
}
use agent_exec_engine.Prelude.Int.{ℤ}
use agent_exec_engine.Dag.Graph.{edges_of, relax, kahn}

-- With an invariant over the steps visited so far, which bounds them and the queue by `total`, the
-- loop ends within `total` rounds, and its result is the number of steps that it visited.
pub kahn_rule {κ} :
    (edges : Map (List String)) (P : List String → List String → Map ℤ → Type κ) (total : ℕ)
    → ((popped : List String) (c : String) (queue : List String) (m : Map ℤ)
        → P popped (c ∷ queue) m
        → P (c ∷ popped) (relax (edges_of c edges) m queue).1 (relax (edges_of c edges) m queue).0)
    → ((popped queue : List String) (m : Map ℤ)
        → P popped queue m
        → length popped + length queue ≤ total)
    → (fuel : ℕ) (popped queue : List String) (m : Map ℤ) → P popped queue m
    → total ≤ fuel + length popped
    → (done : List String) × (m' : Map ℤ) × P done [] m'
      × (kahn fuel edges queue m (length popped) ≡ some (length done))
unfolding kahn
kahn_rule edges P total keep bound fuel popped [] m p h = (popped, m, p, refl)
kahn_rule edges P total keep bound zero popped (c ∷ queue) m p h =
    absurd (omega (arith, bound popped (c ∷ queue) m p))
kahn_rule edges P total keep bound (suc fuel) popped (c ∷ queue) m p h =
    kahn_rule edges P total keep bound fuel (c ∷ popped) (relax (edges_of c edges) m queue).1
      (relax (edges_of c edges) m queue).0 (keep popped c queue m p) (omega arith)
