-- ===== src/Dag/Graph/Resolve.antt =====
-- Resolving a step: the graph stays well formed, and the steps that are reported are exactly those
-- that became ready.
use agent_exec_engine.Prelude.{
  ◌+◌, ◌≤◌, String, ◌≡◌, List, [], true, false, not, ◌&&◌, arith, count, lookup, insert, delete,
  keys, lookup-insert, lookup-delete, count-keys-delete, some, none, eq_iff, if◌then◌else◌,
  Bool-cases, inl, inr,
}
use agent_exec_engine.Prelude.Int.{pos}
use agent_exec_engine.Types.{StepStatus}
use agent_exec_engine.Dag.Graph.{Graph, edges_of, resolve_step}
use agent_exec_engine.Dag.Graph.Degrees.{arrives, release-keys, release_lem, release_other}
use agent_exec_engine.Dag.Graph.Wellformed.{
  deps_of, unresolved, unresolved-insert, is_open, is_ready, IsWf,
}

module _ (id : String) (status : StepStatus) (g : Graph) (w : IsWf g)
    (opened : is_open g id ≡ true) where
  abbrev after : Graph × List String
  after = resolve_step id status g

  after-steps :
      (after.0.steps ≡ g.steps)
      × (after.0.edges ≡ g.edges)
      × (after.0.resolved ≡ insert id status g.resolved)
  unfolding resolve_step
  after-steps = ground arith

  unresolved-after :
      (k : String)
      → count k (edges_of id g.edges) + unresolved (insert id status g.resolved) (deps_of k g.steps)
        ≡ unresolved g.resolved (deps_of k g.steps)
  unresolved-after k =
      ground (arith, w.links id k, unresolved-insert id status g.resolved (deps_of k g.steps))

  -- An open step's degree goes down to what is still unresolved of its dependencies.
  after-open :
      (k : String)
      → is_open after.0 k ≡ true
      → (lookup k after.0.in_degree
          ≡ some (pos (unresolved (insert id status g.resolved) (deps_of k g.steps))))
        × (count k after.1
            ≡ arrives
                (count k (edges_of id g.edges))
                (unresolved (insert id status g.resolved) (deps_of k g.steps)))
  unfolding resolve_step count
  after-open k h = ground (
    arith,
    lookup-insert id k status g.resolved,
    lookup-delete id k g.in_degree,
    w.degrees k,
    unresolved-after k,
    release_lem (insert id status g.resolved) (edges_of id g.edges) (delete id g.in_degree) [] k
        (unresolved (insert id status g.resolved) (deps_of k g.steps)),
  )

  after-shut :
      (k : String)
      → is_open after.0 k ≡ false
      → (lookup k after.0.in_degree ≡ none) × (count k after.1 ≡ 0)
  unfolding resolve_step count
  after-shut k h = ground (
    arith,
    lookup-insert id k status g.resolved,
    lookup-delete id k g.in_degree,
    w.degrees k,
    release_other (insert id status g.resolved) (edges_of id g.edges) (delete id g.in_degree) [] k,
  )

  after-keys : (k : String) → count k (keys after.0.in_degree) ≤ 1
  unfolding resolve_step
  after-keys k = ground (
    arith,
    w.distinct k,
    count-keys-delete id k g.in_degree,
    release-keys (insert id status g.resolved) (edges_of id g.edges) (delete id g.in_degree) [] k,
  )

  after-IsWf : IsWf after.0
  after-IsWf = record {
    degrees = λ k. elim (Bool-cases (is_open after.0 k)) [
      | inl h ↦ ground (arith, after-steps, after-open k h)
      | inr h ↦ ground (arith, after-steps, after-shut k h)
    ];
    links = λ dep k. ground (arith, after-steps, w.links dep k);
    known = λ k h.
        ground (arith, after-steps, eq_iff id k, lookup-insert id k status g.resolved, w.known k);
    distinct = after-keys;
  }

  after-ready :
      (k : String) → count k after.1 ≡ (if is_ready after.0 k && not (is_ready g k) then 1 else 0)
  after-ready k = elim (Bool-cases (is_open after.0 k)) [
    | inl h ↦ ground (
      arith,
      after-steps,
      eq_iff id k,
      lookup-insert id k status g.resolved,
      after-open k h,
      unresolved-after k,
    )
    | inr h ↦ ground (arith, after-shut k h)
  ]

-- A call for a step that is unknown or resolved changes nothing.
resolve_step-shut :
    (id : String) (status : StepStatus) (g : Graph)
    → is_open g id ≡ false
    → resolve_step id status g ≡ (g, [])
unfolding resolve_step
resolve_step-shut id status g h = ground arith

-- Resolving any step, known or not, resolved or not, keeps the graph well formed.
pub resolve_step-IsWf :
    (id : String) (status : StepStatus) (g : Graph) → IsWf g → IsWf (resolve_step id status g).0
resolve_step-IsWf id status g w = elim (Bool-cases (is_open g id)) [
  | inl h ↦ after-IsWf id status g w h
  | inr h ↦ rw (resolve_step-shut id status g h) w
]

-- In a well-formed graph, resolving a step reports exactly the steps that were not ready before and
-- are ready after, each of them once.
pub resolve_step-ready :
    (id : String) (status : StepStatus) (g : Graph)
    → IsWf g
    → (k : String)
    → count k (resolve_step id status g).1
      ≡ (if is_ready (resolve_step id status g).0 k && not (is_ready g k) then 1 else 0)
unfolding count
resolve_step-ready id status g w k = elim (Bool-cases (is_open g id)) [
  | inl h ↦ after-ready id status g w h k
  | inr h ↦ rw (resolve_step-shut id status g h) (ground arith)
]

-- Resolving touches neither the steps nor the edges.
pub resolve_step-frame :
    (id : String) (status : StepStatus) (g : Graph)
    → ((resolve_step id status g).0.steps ≡ g.steps)
      × ((resolve_step id status g).0.edges ≡ g.edges)
unfolding resolve_step
resolve_step-frame id status g = ground arith
