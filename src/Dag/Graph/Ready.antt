-- ===== src/Dag/Graph/Ready.antt =====
-- `ReadySteps`, and that a workflow never gets stuck.
use agent_exec_engine.Prelude.{
  IsOrder, ◌<◌, String, ◌≡◌, refl, List, [], ◌∷◌, true, false, not, ◌&&◌, arith, count, contains,
  is_some, Map, lookup, keys, lookup-keys, keys-lookup, eq_iff, eq_refl, if◌then◌else◌,
  contains-count, count-contains, ok,
}
use agent_exec_engine.Prelude.Int.{is_zero}
use agent_exec_engine.Types.{StepStatus, Step}
use agent_exec_engine.Dag.Graph.{
  Graph, degree_of, ready_among, ready_steps, resolve_step, new_graph,
}
use agent_exec_engine.Dag.Graph.Wellformed.{deps_of, deps_in, ids, unresolved, is_ready, IsWf}
use agent_exec_engine.Dag.Graph.Cycles.{DepsFirst}
use agent_exec_engine.Dag.Graph.New.{IsAcyclic, new_graph-IsBuilt}
use agent_exec_engine.Dag.Graph.Resolve.{resolve_step-IsWf, resolve_step-frame}

count-ready_among :
    (g : Graph) (ks : List String) (k : String)
    → count k (ready_among g ks) ≡ (
        if is_zero (degree_of k g.in_degree) && not (is_some (lookup k g.resolved))
        then count k ks
        else 0)
unfolding ready_among count
count-ready_among g [] k = ground arith
count-ready_among g (j ∷ ks) k = ground (arith, eq_iff j k, count-ready_among g ks k)

-- In a well-formed graph, and in whatever order Go visits the map, `ReadySteps` lists exactly the
-- unresolved steps whose dependencies are all resolved, each of them once.
pub ready_steps-is_ready :
    (range : List String → List String)
    → IsOrder range
    → (g : Graph) → IsWf g
    → (k : String) → count k (ready_steps range g) ≡ (if is_ready g k then 1 else 0)
unfolding ready_steps
ready_steps-is_ready range ordered g w k = ground (
  arith,
  count-ready_among g (range (keys g.in_degree)) k,
  ordered.counts (keys g.in_degree) k,
  w.distinct k,
  w.degrees k,
  lookup-keys k g.in_degree,
  keys-lookup k g.in_degree,
)

-- The graphs that a workflow's graph can become.
pub data Reached (range : List String → List String) (steps : List Step) : Graph → Type 0 where
  built : (g : Graph) → new_graph range steps ≡ ok g → Reached range steps g
  resolve :
      (id : String) (status : StepStatus) {g : Graph}
      → Reached range steps g
      → Reached range steps (resolve_step id status g).0

-- What stays true of them.
record Keeps (steps : List Step) (g : Graph) : Type 0 where
  wf : IsWf g
  deps : (id : String) → deps_of id g.steps ≡ deps_in steps id
  has : (id : String) → is_some (lookup id g.steps) ≡ contains (ids steps) id
  acyclic : IsAcyclic steps

pub unresolved-zero :
    (resolved : Map StepStatus) (ds : List String)
    → ((d : String) → 0 < count d ds → is_some (lookup d resolved) ≡ true)
    → unresolved resolved ds ≡ 0
unfolding unresolved count
unresolved-zero resolved [] h = refl
unresolved-zero resolved (d ∷ ds) h =
    ground (arith, h d, eq_refl d, unresolved-zero resolved ds (λ e p. ground (arith, h e)))

module _ (range : List String → List String) (ordered : IsOrder range) (steps : List Step) where
  Reached-Keeps : {g : Graph} → Reached range steps g → Keeps steps g
  Reached-Keeps (built g e) =
      let (b, a) = new_graph-IsBuilt range ordered steps e in
      record { wf = b.wf; deps = b.deps; has = b.has; acyclic = a }
  Reached-Keeps (resolve id status {g = g} r) =
      let k = Reached-Keeps r in
      let same = resolve_step-frame id status g in
      record {
        wf = resolve_step-IsWf id status g k.wf;
        deps = λ i. ground (arith, same, k.deps i);
        has = λ i. ground (arith, same, k.has i);
        acyclic = k.acyclic;
      }

  -- Along a runnable order, if no step is ready then all are resolved.
  all_resolved :
      (g : Graph) (order : List String)
      → Keeps steps g
      → ((k : String) → is_ready g k ≡ false)
      → DepsFirst steps order
      → ((k : String) → contains order k ≡ true → contains (ids steps) k ≡ true)
      → (k : String) → contains order k ≡ true
      → is_some (lookup k g.resolved) ≡ true
  unfolding contains
  all_resolved g [] w stuck f known k h = ground arith
  all_resolved g (j ∷ earlier) w stuck f known k h =
      let rest = all_resolved g earlier w stuck f.1 (λ i p. known i (ground (arith, p))) in
      let none_left = unresolved-zero g.resolved (deps_in steps j) (λ d p. rest d (f.0 d p)) in
      ground (arith, eq_iff j k, eq_refl j, known j, stuck j, w.has j, w.deps j, none_left, rest k)

  ready_steps-nil :
      {g : Graph}
      → Reached range steps g
      → ready_steps range g ≡ []
      → (k : String) → is_some (lookup k g.steps) ≡ true
      → is_some (lookup k g.resolved) ≡ true
  unfolding count
  ready_steps-nil {g} r e k h =
      let w = Reached-Keeps r in
      let order = w.acyclic.order in
      let once = w.acyclic.runnable.all_once in
      all_resolved g order w (λ i. ground (arith, e, ready_steps-is_ready range ordered g w.wf i))
        w.acyclic.runnable.deps_first
        (λ i p. count-contains (ids steps) i (omega (arith, once i, contains-count order i p))) k
        (count-contains order k (ground (arith, w.has k, once k, contains-count (ids steps) k)))

-- A workflow's graph never stalls: from a graph that `NewGraph` returned, after any steps were
-- resolved in any order, `ReadySteps` is empty only when every step is resolved.
pub ready_steps-progress :
    (range : List String → List String)
    → IsOrder range
    → (steps : List Step) (g : Graph) → Reached range steps g
    → ready_steps range g ≡ []
    → (k : String) → is_some (lookup k g.steps) ≡ true
    → is_some (lookup k g.resolved) ≡ true
ready_steps-progress range ordered steps g r = ready_steps-nil range ordered steps r
