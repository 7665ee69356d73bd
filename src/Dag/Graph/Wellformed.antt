-- ===== src/Dag/Graph/Wellformed.antt =====
-- What holds of a graph between two calls, and which steps it counts as ready.
use agent_exec_engine.Prelude.{
  ℕ, ◌+◌, ◌≤◌, String, ◌≡◌, Bool, true, not, ◌&&◌, List, [], ◌∷◌, ◌++◌, Option, none, some, arith,
  if◌then◌else◌, count, eqb, is_some, Map, lookup, insert, keys, lookup-insert, eq_iff, ◌==◌,
}
use agent_exec_engine.Prelude.Int.{pos}
use agent_exec_engine.Types.{StepStatus, Step}
use agent_exec_engine.Dag.Graph.{Graph, edges_of}

abbrev deps_from : Option Step → List String
deps_from none = []
deps_from (some step) = step.depends_on

-- The dependencies of a step, none for an unknown one.
abbrev pub deps_of : String → Map Step → List String
deps_of id steps = deps_from (lookup id steps)

abbrev pub ids : List Step → List String
ids [] = []
ids (step ∷ rest) = step.id ∷ ids rest

-- All dependencies that the steps with an id list.
unfoldable pub deps_in : List Step → String → List String
deps_in [] id = []
deps_in (step ∷ rest) id =
    if step.id == id then step.depends_on ++ deps_in rest id else deps_in rest id

-- How many of a list of dependencies are not resolved.
unfoldable pub unresolved : Map StepStatus → List String → ℕ
unresolved resolved [] = 0
unresolved resolved (d ∷ ds) =
    (if is_some (lookup d resolved) then 0 else 1) + unresolved resolved ds

-- A step that the graph has and that is not resolved yet.
abbrev pub is_open : Graph → String → Bool
is_open g id = is_some (lookup id g.steps) && not (is_some (lookup id g.resolved))

-- A step is ready when it is open and all that it depends on is resolved.
abbrev pub is_ready : Graph → String → Bool
is_ready g id = is_open g id && eqb (unresolved g.resolved (deps_of id g.steps)) 0

pub record IsWf (g : Graph) : Type 0 where
  -- The degree of an open step counts its unresolved dependencies; no other step has a degree.
  pub degrees :
      (id : String)
      → lookup id g.in_degree
        ≡ (if is_open g id then some (pos (unresolved g.resolved (deps_of id g.steps))) else none)
  -- The edges are the dependencies turned round, as often as they are listed.
  pub links : (dep id : String) → count id (edges_of dep g.edges) ≡ count dep (deps_of id g.steps)
  pub known :
      (id : String) → is_some (lookup id g.resolved) ≡ true → is_some (lookup id g.steps) ≡ true
  pub distinct : (id : String) → count id (keys g.in_degree) ≤ 1

-- Resolving one more step takes its occurrences off.
pub unresolved-insert :
    (id : String) (status : StepStatus) (resolved : Map StepStatus) (ds : List String)
    → lookup id resolved ≡ none
    → count id ds + unresolved (insert id status resolved) ds ≡ unresolved resolved ds
unfolding unresolved count
unresolved-insert id status resolved [] h = omega arith
unresolved-insert id status resolved (d ∷ ds) h = ground (
  arith,
  eq_iff d id,
  eq_iff id d,
  lookup-insert id d status resolved,
  unresolved-insert id status resolved ds h,
)
