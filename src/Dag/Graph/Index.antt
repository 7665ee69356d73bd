-- ===== src/Dag/Graph/Index.antt =====
-- The loop of `indexSteps`.
use agent_exec_engine.Prelude.{
  ◌+◌, ◌≤◌, String, ◌≡◌, refl, true, List, [], ◌∷◌, none, some, arith, if◌then◌else◌, count,
  is_some, length, All, lookup, insert, keys, lookup-insert, keys-lookup, length-insert,
  count-keys-insert, eq_iff, eq_refl, contains, ok, append-nil, subst, ok-injective,
}
use agent_exec_engine.Prelude.Int.{pos}
use agent_exec_engine.Types.{Step}
use agent_exec_engine.Dag.Graph.{Graph, index_steps}
use agent_exec_engine.Dag.Graph.Wellformed.{deps_of, deps_in, ids}

-- Between indexing and linking, each step has degree 0.
pub record IsIndexed (g : Graph) : Type 0 where
  pub degrees :
      (id : String)
      → lookup id g.in_degree ≡ (if is_some (lookup id g.steps) then some (pos 0) else none)
  pub distinct : (id : String) → count id (keys g.in_degree) ≤ 1
  pub sizes : length g.in_degree ≡ length g.steps
  pub no_edges : g.edges ≡ []
  pub none_resolved : g.resolved ≡ []

-- The state after one round of `indexSteps`.
abbrev pub index_one : Step → Graph → Graph
index_one step g = record g {
  steps = insert step.id step g.steps;
  in_degree = insert step.id (pos 0) g.in_degree;
}

index_one-IsIndexed :
    (step : Step) (g : Graph)
    → lookup step.id g.steps ≡ none
    → IsIndexed g
    → IsIndexed (index_one step g)
index_one-IsIndexed step g fresh w = record {
  degrees = λ id. ground (
    arith,
    lookup-insert step.id id (pos 0) g.in_degree,
    lookup-insert step.id id step g.steps,
    w.degrees id,
  );
  distinct = λ id. ground (
    arith,
    count-keys-insert step.id id (pos 0) g.in_degree,
    w.distinct id,
    w.degrees step.id,
    eq_iff step.id id,
    keys-lookup step.id g.in_degree,
  );
  sizes = ground (
    arith,
    length-insert step.id (pos 0) g.in_degree,
    length-insert step.id step g.steps,
    w.degrees step.id,
    w.sizes,
  );
  no_edges = w.no_edges;
  none_resolved = w.none_resolved;
}

pub index_steps-cons :
    (step : Step) (rest : List Step) (g : Graph) {g' : Graph}
    → index_steps (step ∷ rest) g ≡ ok g'
    → (lookup step.id g.steps ≡ none) × (index_steps rest (index_one step g) ≡ ok g')
unfolding index_steps
index_steps-cons step rest g e = ground arith

-- Indexing leaves every step with degree 0.
pub index_steps-IsIndexed :
    (steps : List Step) (g : Graph) {g' : Graph}
    → IsIndexed g
    → index_steps steps g ≡ ok g'
    → IsIndexed g'
unfolding index_steps
index_steps-IsIndexed [] g w e = subst IsIndexed (ok-injective e) w
index_steps-IsIndexed (step ∷ rest) g w e =
    let (fresh, e') = index_steps-cons step rest g e in
    index_steps-IsIndexed rest (index_one step g) (index_one-IsIndexed step g fresh w) e'

-- After indexing, a step depends on what the steps of the list with its id list.
pub index_steps-deps :
    (steps : List Step) (g : Graph) {g' : Graph} (id : String)
    → index_steps steps g ≡ ok g'
    → (deps_of id g'.steps
        ≡ (if is_some (lookup id g.steps) then deps_of id g.steps else deps_in steps id))
      × (is_some (lookup id g.steps) ≡ true → deps_in steps id ≡ [])
unfolding index_steps deps_in
index_steps-deps [] g id e = ground arith
index_steps-deps (step ∷ rest) g id e =
    let (fresh, e') = index_steps-cons step rest g e in
    ground (
      arith,
      append-nil step.depends_on,
      eq_iff step.id id,
      lookup-insert step.id id step g.steps,
      index_steps-deps rest (index_one step g) id e',
    )

-- Indexing keeps the steps that are there.
index_steps-keep :
    (steps : List Step) (g : Graph) {g' : Graph} (id : String)
    → index_steps steps g ≡ ok g'
    → is_some (lookup id g.steps) ≡ true
    → lookup id g'.steps ≡ lookup id g.steps
unfolding index_steps
index_steps-keep [] g id e h = ground arith
index_steps-keep (step ∷ rest) g id e h =
    let (fresh, e') = index_steps-cons step rest g e in
    ground (
      arith,
      eq_iff step.id id,
      lookup-insert step.id id step g.steps,
      index_steps-keep rest (index_one step g) id e',
    )

-- Each step of the list is found under its id.
pub index_steps-found :
    (steps : List Step) (g : Graph) {g' : Graph}
    → index_steps steps g ≡ ok g'
    → All (λ step. lookup step.id g'.steps ≡ some step) steps
unfolding index_steps
index_steps-found [] g e = tt
index_steps-found (step ∷ rest) g e =
    let (fresh, e') = index_steps-cons step rest g e in
    let there = index_steps-keep rest (index_one step g) step.id e' in
    (
      ground (arith, eq_refl step.id, lookup-insert step.id step.id step g.steps, there),
      index_steps-found rest (index_one step g) e',
    )

-- A step that is found was there before, or is one of the list.
pub index_steps-origin :
    (steps : List Step) (g : Graph) {g' : Graph} (id : String)
    → index_steps steps g ≡ ok g'
    → is_some (lookup id g'.steps)
      ≡ (if is_some (lookup id g.steps) then true else contains (ids steps) id)
unfolding index_steps contains
index_steps-origin [] g id e = ground arith
index_steps-origin (step ∷ rest) g id e =
    let (fresh, e') = index_steps-cons step rest g e in
    ground (
      arith,
      eq_iff step.id id,
      lookup-insert step.id id step g.steps,
      index_steps-origin rest (index_one step g) id e',
    )

-- Indexing succeeds exactly when no id is there already or comes twice.
pub index_steps-distinct :
    (steps : List Step) (g : Graph) {g' : Graph} (id : String)
    → index_steps steps g ≡ ok g'
    → (if is_some (lookup id g.steps) then 1 else 0) + count id (ids steps) ≤ 1
unfolding index_steps count
index_steps-distinct [] g id e = ground arith
index_steps-distinct (step ∷ rest) g id e =
    let (fresh, e') = index_steps-cons step rest g e in
    ground (
      arith,
      eq_iff step.id id,
      lookup-insert step.id id step g.steps,
      index_steps-distinct rest (index_one step g) id e',
    )

-- The premise is at every id, and each round takes one id from the list to the graph.
pub index_steps_total :
    (steps : List Step) (g : Graph)
    → ((id : String) → (if is_some (lookup id g.steps) then 1 else 0) + count id (ids steps) ≤ 1)
    → (g' : Graph) × (index_steps steps g ≡ ok g')
unfolding index_steps count
index_steps_total [] g h = (g, refl)
index_steps_total (step ∷ rest) g h =
    let fresh : lookup step.id g.steps ≡ none = ground (arith, h step.id, eq_refl step.id) in
    let (g', e) =
      index_steps_total rest (index_one step g)
        (λ id. ground (arith, h id, eq_iff step.id id, lookup-insert step.id id step g.steps)) in
    (g', ground (arith, e))
