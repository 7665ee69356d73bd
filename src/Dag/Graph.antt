-- ===== src/Dag/Graph.antt =====
-- internal/dag/graph.go: the graph of a workflow's steps. The read-write lock makes every method
-- atomic, so a method is a function of the graph.
pub mod Loop
pub mod Degrees
pub mod Wellformed
pub mod Index
pub mod Link
pub mod Build
pub mod Built
pub mod Kahn
pub mod Cycles
pub mod New
pub mod Resolve
pub mod Ready
pub mod Commute
use agent_exec_engine.Prelude.{
  ℕ, zero, suc, String, Bool, not, ◌&&◌, ◌||◌, List, [], ◌∷◌, ◌++◌, Option, none, some, eqb,
  if◌then◌else◌, is_some, get_or, length, Map, lookup, insert, delete, keys, Result, ok, err, ◌>>=◌,
  ◌>>◌, fail_if,
}
use agent_exec_engine.Prelude.Int.{ℤ, pos, increment, decrement, is_zero}
use agent_exec_engine.Types.{StepStatus, success, skipped, Step}

pub record Graph : Type 0 where
  pub steps : Map Step
  pub edges : Map (List String)
  pub in_degree : Map ℤ
  pub resolved : Map StepStatus

-- The errors of `NewGraph`. `unfinished` stands for a loop that is cut off; it never comes up
-- (Dag/Graph/Kahn.antt).
pub data GraphError : Type 0 where
  duplicate_step : String → GraphError
  unknown_dependency : String → String → GraphError
  cycle : ℕ → ℕ → GraphError
  unfinished : GraphError

abbrev pub empty : Graph
empty = record { steps = []; edges = []; in_degree = []; resolved = [] }

-- A read of a missing entry gives the zero value.
abbrev pub edges_of : String → Map (List String) → List String
edges_of id edges = get_or [] (lookup id edges)

abbrev pub degree_of : String → Map ℤ → ℤ
degree_of id degrees = get_or (pos 0) (lookup id degrees)

unfoldable pub index_steps : List Step → Graph → Result GraphError Graph
index_steps [] g = ok g
index_steps (step ∷ rest) g =
    fail_if (is_some (lookup step.id g.steps)) (duplicate_step step.id)
    >> index_steps rest (record g {
      steps = insert step.id step g.steps;
      in_degree = insert step.id (pos 0) g.in_degree;
    })

-- g.edges[depID] = append(g.edges[depID], step.ID); g.inDegree[step.ID]++
unfoldable pub add_edge : String → String → Graph → Graph
add_edge dep id g = record g {
  edges = insert dep (edges_of dep g.edges ++ id ∷ []) g.edges;
  in_degree = insert id (increment (degree_of id g.in_degree)) g.in_degree;
}

-- The inner loop of `buildEdges`.
unfoldable pub link_all : String → List String → Graph → Result GraphError Graph
unfolding add_edge
link_all id [] g = ok g
link_all id (dep ∷ deps) g =
    fail_if (not (is_some (lookup dep g.steps))) (unknown_dependency id dep)
    >> link_all id deps (add_edge dep id g)

unfoldable pub build_edges : List Step → Graph → Result GraphError Graph
unfolding link_all
build_edges [] g = ok g
build_edges (step ∷ rest) g = link_all step.id step.depends_on g >>= λ g'. build_edges rest g'

-- The ids that a loop over the degrees meets, with degree 0.
unfoldable pub zero_degree : Map ℤ → List String → List String
zero_degree degrees [] = []
zero_degree degrees (id ∷ ids) =
    if is_zero (degree_of id degrees) then id ∷ zero_degree degrees ids else zero_degree degrees ids

-- The inner loop of `validateAcyclic`: the new degrees and the new queue.
unfoldable pub relax : List String → Map ℤ → List String → Map ℤ × List String
relax [] degrees queue = (degrees, queue)
relax (downstream ∷ rest) degrees queue =
    let degree = decrement (degree_of downstream degrees) in
    relax rest (insert downstream degree degrees)
      (if is_zero degree then queue ++ downstream ∷ [] else queue)

-- The outer loop: how many steps were visited, or `none` if the fuel ran out.
unfoldable pub kahn : ℕ → Map (List String) → List String → Map ℤ → ℕ → Option ℕ
unfolding relax
kahn fuel edges [] degrees visited = some visited
kahn zero edges (current ∷ queue) degrees visited = none
kahn (suc fuel) edges (current ∷ queue) degrees visited =
    let (degrees', queue') = relax (edges_of current edges) degrees queue in
    kahn fuel edges queue' degrees' (suc visited)

unfoldable check_visited : Option ℕ → ℕ → Result GraphError (Unit {0})
check_visited none total = err unfinished
check_visited (some visited) total = if eqb visited total then ok tt else err (cycle visited total)

unfoldable resolved_test : String → Map StepStatus → Bool
resolved_test id resolved = is_some (lookup id resolved)

-- One round of the loop of `resolveStep`: the degrees and the steps that became ready.
unfoldable pub release_one : Map StepStatus → String → Map ℤ × List String → Map ℤ × List String
release_one resolved downstream (degrees, ready) =
    if is_some (lookup downstream resolved)
    then (degrees, ready)
    else elim (lookup downstream degrees) [
      | none ↦ (degrees, ready)
      | some degree ↦ (
        insert downstream (decrement degree) degrees,
        if is_zero (decrement degree) then ready ++ downstream ∷ [] else ready,
      )
    ]

unfoldable pub release : Map StepStatus → List String → Map ℤ × List String → Map ℤ × List String
unfolding release_one
release resolved [] s = s
release resolved (downstream ∷ rest) s = release resolved rest (release_one resolved downstream s)

-- The new graph, and the steps that became ready.
unfoldable pub resolve_step : String → StepStatus → Graph → Graph × List String
unfolding release
resolve_step id status g =
    if not (is_some (lookup id g.steps)) || is_some (lookup id g.resolved)
    then (g, [])
    else let resolved = insert id status g.resolved in
      let (degrees, ready) = release resolved (edges_of id g.edges) (delete id g.in_degree, []) in
      (record g { in_degree = degrees; resolved = resolved }, ready)

unfoldable pub mark_complete : String → Graph → Graph × List String
unfolding resolve_step
mark_complete id g = resolve_step id success g

unfoldable pub skip_step : String → Graph → Graph × List String
unfolding resolve_step
skip_step id g = resolve_step id skipped g

unfoldable pub step_count : Graph → ℕ
step_count g = length g.steps

-- The loop of `ReadySteps` over the degrees.
unfoldable pub ready_among : Graph → List String → List String
ready_among g [] = []
ready_among g (id ∷ ids) =
    if is_zero (degree_of id g.in_degree) && not (is_some (lookup id g.resolved))
    then id ∷ ready_among g ids
    else ready_among g ids

-- Go visits the entries of a map in an order of its own: `range` puts the keys in that order.
module _ (range : List String → List String) where
  unfoldable pub validate_acyclic : Graph → Result GraphError (Unit {0})
  unfolding zero_degree kahn check_visited
  validate_acyclic g =
      let queue = zero_degree g.in_degree (range (keys g.in_degree)) in
      check_visited (kahn (length g.in_degree) g.edges queue g.in_degree 0) (length g.steps)

  unfoldable pub new_graph : List Step → Result GraphError Graph
  unfolding index_steps build_edges validate_acyclic
  new_graph steps = do
    g ← index_steps steps empty
    g' ← build_edges steps g
    validate_acyclic g'
    ok g'

  unfoldable pub ready_steps : Graph → List String
  unfolding ready_among
  ready_steps g = ready_among g (range (keys g.in_degree))
