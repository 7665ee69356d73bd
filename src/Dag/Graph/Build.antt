-- ===== src/Dag/Graph/Build.antt =====
-- `NewGraph` up to its cycle check: what it builds is well formed, and has a step for every
-- dependency.
use agent_exec_engine.Prelude.{
  ℕ, ◌+◌, ◌<◌, String, ◌≡◌, refl, ◌∙◌, true, List, [], ◌∷◌, some, arith, if◌then◌else◌, count,
  count-append, is_some, length, length-append, All, lookup, keys, eq_refl, ◌==◌, ok, >>=-eq-ok,
}
use agent_exec_engine.Prelude.Int.{pos}
use agent_exec_engine.Types.{Step}
use agent_exec_engine.Dag.Graph.{Graph, edges_of, link_all, build_edges}
use agent_exec_engine.Dag.Graph.Wellformed.{deps_in}
use agent_exec_engine.Dag.Graph.Link.{
  link_all-frame, link_all-edges, link_all-degree, link_all-keys, link_all-known, link_all_total,
}

-- Every step of the list has a degree.
abbrev pub Present : List Step → Graph → Type 0
Present steps g = All (λ step. is_some (lookup step.id g.in_degree) ≡ true) steps

Present-keep :
    (steps : List Step) (g g' : Graph)
    → ((k : String) → is_some (lookup k g'.in_degree) ≡ is_some (lookup k g.in_degree))
    → Present steps g
    → Present steps g'
Present-keep [] g g' same p = tt
Present-keep (step ∷ rest) g g' same p = (same step.id ∙ p.0, Present-keep rest g g' same p.1)

-- What linking the first step gives, and the rest of the loop.
build_edges-cons :
    (step : Step) (rest : List Step) (g : Graph) {g' : Graph}
    → Present (step ∷ rest) g
    → build_edges (step ∷ rest) g ≡ ok g'
    → (g₁ : Graph) × (link_all step.id step.depends_on g ≡ ok g₁)
      × Present rest g₁
      × (build_edges rest g₁ ≡ ok g')
unfolding build_edges
build_edges-cons step rest g p e =
    let (g₁, linked, later) = >>=-eq-ok (link_all step.id step.depends_on g) (build_edges rest) e in
    (
      g₁,
      linked,
      Present-keep rest g g₁ (λ k. (link_all-keys step.id step.depends_on g k p.0 linked).0) p.1,
      later,
    )

pub build_edges-frame :
    (steps : List Step) (g : Graph) {g' : Graph}
    → Present steps g
    → build_edges steps g ≡ ok g'
    → (g'.steps ≡ g.steps) × (g'.resolved ≡ g.resolved)
unfolding build_edges
build_edges-frame [] g p e = ground arith
build_edges-frame (step ∷ rest) g p e =
    let (g₁, linked, p₁, later) = build_edges-cons step rest g p e in
    ground
      (arith, link_all-frame step.id step.depends_on g linked, build_edges-frame rest g₁ p₁ later)

-- The edges are the dependencies of the steps in the list.
pub build_edges-edges :
    (steps : List Step) (g : Graph) {g' : Graph} (d k : String)
    → Present steps g
    → build_edges steps g ≡ ok g'
    → count k (edges_of d g'.edges) ≡ count k (edges_of d g.edges) + count d (deps_in steps k)
unfolding build_edges deps_in count
build_edges-edges [] g d k p e = ground arith
build_edges-edges (step ∷ rest) g d k p e =
    let (g₁, linked, p₁, later) = build_edges-cons step rest g p e in
    ground (
      arith,
      link_all-edges step.id step.depends_on g d k linked,
      count-append d step.depends_on (deps_in rest k),
      build_edges-edges rest g₁ d k p₁ later,
    )

pub build_edges-degree :
    (steps : List Step) (g : Graph) {g' : Graph} (k : String) (n : ℕ)
    → Present steps g
    → lookup k g.in_degree ≡ some (pos n)
    → build_edges steps g ≡ ok g'
    → lookup k g'.in_degree ≡ some (pos (n + length (deps_in steps k)))
unfolding build_edges deps_in
build_edges-degree [] g k n p h e = ground arith
build_edges-degree (step ∷ rest) g k n p h e =
    let (g₁, linked, p₁, later) = build_edges-cons step rest g p e in
    let own = if step.id == k then length step.depends_on else 0 in
    ground (
      arith,
      length-append step.depends_on (deps_in rest k),
      build_edges-degree rest g₁ k (n + own) p₁
          (link_all-degree step.id step.depends_on g k n h linked) later,
    )

pub build_edges-keys :
    (steps : List Step) (g : Graph) {g' : Graph} (k : String)
    → Present steps g
    → build_edges steps g ≡ ok g'
    → (is_some (lookup k g'.in_degree) ≡ is_some (lookup k g.in_degree))
      × (length g'.in_degree ≡ length g.in_degree)
      × (count k (keys g'.in_degree) ≡ count k (keys g.in_degree))
unfolding build_edges
build_edges-keys [] g k p e = ground arith
build_edges-keys (step ∷ rest) g k p e =
    let (g₁, linked, p₁, later) = build_edges-cons step rest g p e in
    ground (
      arith,
      link_all-keys step.id step.depends_on g k p.0 linked,
      build_edges-keys rest g₁ k p₁ later,
    )

pub build_edges-known :
    (steps : List Step) (g : Graph) {g' : Graph} (d k : String)
    → Present steps g
    → build_edges steps g ≡ ok g'
    → 0 < count d (deps_in steps k)
    → is_some (lookup d g.steps) ≡ true
unfolding build_edges deps_in count
build_edges-known [] g d k p e h = ground arith
build_edges-known (step ∷ rest) g d k p e h =
    let (g₁, linked, p₁, later) = build_edges-cons step rest g p e in
    ground (
      arith,
      count-append d step.depends_on (deps_in rest k),
      link_all-frame step.id step.depends_on g linked,
      link_all-known step.id step.depends_on g d linked,
      build_edges-known rest g₁ d k p₁ later,
    )

pub build_edges_total :
    (steps : List Step) (g : Graph)
    → ((d k : String) → 0 < count d (deps_in steps k) → is_some (lookup d g.steps) ≡ true)
    → (g' : Graph) × (build_edges steps g ≡ ok g')
unfolding build_edges deps_in
build_edges_total [] g h = (g, refl)
build_edges_total (step ∷ rest) g h =
    let own : (d : String) → 0 < count d step.depends_on → is_some (lookup d g.steps) ≡ true =
      λ d p. ground (
        arith,
        eq_refl step.id,
        count-append d step.depends_on (deps_in rest step.id),
        h d step.id,
      ) in
    let (g₁, e) = link_all_total step.id step.depends_on g own in
    let same = link_all-frame step.id step.depends_on g e in
    let (g', e') =
      build_edges_total rest g₁
        (λ d k p. ground (arith, same, count-append d step.depends_on (deps_in rest k), h d k)) in
    (g', ground (arith, e, e'))
