-- ===== src/Dag/Graph/Built.antt =====
-- What `NewGraph` hands to its cycle check.
use agent_exec_engine.Prelude.{
  ◌≤◌, ◌<◌, String, ◌≡◌, refl, ◌∙◌, true, List, [], ◌∷◌, none, some, arith, if◌then◌else◌, count,
  contains, is_some, length, All, Map, lookup, keys, Result, ok, >>=-eq-ok, ◌>>=◌,
}
use agent_exec_engine.Prelude.Int.{pos}
use agent_exec_engine.Types.{Step}
use agent_exec_engine.Dag.Graph.{Graph, GraphError, empty, edges_of, index_steps, build_edges}
use agent_exec_engine.Dag.Graph.Wellformed.{deps_of, deps_in, ids, unresolved, is_open, IsWf}
use agent_exec_engine.Dag.Graph.Index.{
  IsIndexed, index_steps-IsIndexed, index_steps-deps, index_steps-origin, index_steps-found,
  index_steps-distinct,
}
use agent_exec_engine.Dag.Graph.Build.{
  Present, build_edges-frame, build_edges-edges, build_edges-degree, build_edges-keys,
  build_edges-known,
}

-- The first two loops of `NewGraph`.
abbrev pub linked : List Step → Result GraphError Graph
linked steps = index_steps steps empty >>= build_edges steps

pub record IsBuilt (steps : List Step) (g : Graph) : Type 0 where
  pub deps : (id : String) → deps_of id g.steps ≡ deps_in steps id
  pub none_resolved : g.resolved ≡ []
  pub sizes : length g.in_degree ≡ length g.steps
  pub has : (id : String) → is_some (lookup id g.steps) ≡ contains (ids steps) id
  pub all_known : (d id : String) → 0 < count d (deps_in steps id) → contains (ids steps) d ≡ true
  pub distinct_ids : (id : String) → count id (ids steps) ≤ 1
  pub wf : IsWf g

empty-IsIndexed : IsIndexed empty
unfolding lookup keys count
empty-IsIndexed = record {
  degrees = λ id. refl;
  distinct = λ id. omega arith;
  sizes = refl;
  no_edges = refl;
  none_resolved = refl;
}

unresolved-nil : (ds : List String) → unresolved [] ds ≡ length ds
unfolding unresolved lookup
unresolved-nil [] = refl
unresolved-nil (d ∷ ds) = ground (arith, unresolved-nil ds)

pub lookup-of-nil {ℓ} : {V : Type ℓ} (m : Map V) (id : String) → m ≡ [] → lookup id m ≡ none
unfolding lookup
lookup-of-nil m id h = rw h refl

Present-of :
    (steps : List Step) (g : Graph)
    → IsIndexed g
    → All (λ step. lookup step.id g.steps ≡ some step) steps
    → Present steps g
Present-of [] g w f = tt
Present-of (step ∷ rest) g w f = (ground (arith, w.degrees step.id, f.0), Present-of rest g w f.1)

module _ (steps : List Step) {g g' : Graph} (indexed : index_steps steps empty ≡ ok g)
    (built : build_edges steps g ≡ ok g') where
  w : IsIndexed g
  w = index_steps-IsIndexed steps empty empty-IsIndexed indexed

  present : Present steps g
  present = Present-of steps g w (index_steps-found steps empty indexed)

  deps_exact : (id : String) → deps_of id g.steps ≡ deps_in steps id
  unfolding lookup
  deps_exact id = ground (arith, index_steps-deps steps empty id indexed)

  has_exact : (id : String) → is_some (lookup id g.steps) ≡ contains (ids steps) id
  unfolding lookup
  has_exact id = ground (arith, index_steps-origin steps empty id indexed)

  frame : (g'.steps ≡ g.steps) × (g'.resolved ≡ g.resolved)
  frame = build_edges-frame steps g present built

  resolved' : g'.resolved ≡ []
  resolved' = frame.1 ∙ w.none_resolved

  degrees_exact :
      (id : String)
      → lookup id g'.in_degree ≡ (
          if is_open g' id then some (pos (unresolved g'.resolved (deps_of id g'.steps))) else none)
  degrees_exact id = ground (
    arith,
    frame,
    resolved',
    unresolved-nil (deps_of id g'.steps),
    lookup-of-nil g'.resolved id resolved',
    deps_exact id,
    w.degrees id,
    λ (h : lookup id g.in_degree ≡ some (pos 0)). build_edges-degree steps g id 0 present h built,
    build_edges-keys steps g id present built,
  )

  links_exact :
      (dep id : String) → count id (edges_of dep g'.edges) ≡ count dep (deps_of id g'.steps)
  unfolding count
  links_exact dep id = ground (
    arith,
    frame,
    deps_exact id,
    lookup-of-nil g.edges dep w.no_edges,
    build_edges-edges steps g dep id present built,
  )

  build_edges-IsWf : IsWf g'
  build_edges-IsWf = record {
    degrees = degrees_exact;
    links = links_exact;
    known = λ id h. ground (arith, lookup-of-nil g'.resolved id resolved');
    distinct = λ id. ground (arith, build_edges-keys steps g id present built, w.distinct id);
  }

  build_edges-IsBuilt : IsBuilt steps g'
  unfolding lookup count
  build_edges-IsBuilt = record {
    deps = λ id. ground (arith, frame, deps_exact id);
    none_resolved = resolved';
    sizes = ground (arith, frame, build_edges-keys steps g "" present built, w.sizes);
    has = λ id. ground (arith, frame, has_exact id);
    all_known =
        λ d id h. ground (arith, has_exact d, build_edges-known steps g d id present built h);
    distinct_ids = λ id. omega (arith, index_steps-distinct steps empty id indexed);
    wf = build_edges-IsWf;
  }

-- What the first two loops build is a well-formed graph of the steps in the list.
pub linked-IsBuilt : (steps : List Step) {g : Graph} → linked steps ≡ ok g → IsBuilt steps g
linked-IsBuilt steps e =
    let (g₀, indexed, built) = >>=-eq-ok (index_steps steps empty) (build_edges steps) e in
    build_edges-IsBuilt steps indexed built
