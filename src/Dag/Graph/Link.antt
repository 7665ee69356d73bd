-- ===== src/Dag/Graph/Link.antt =====
-- The inner loop of `buildEdges`: one step and its dependencies.
use agent_exec_engine.Prelude.{
  ℕ, suc, ◌+◌, ◌<◌, String, ◌≡◌, refl, true, List, [], ◌∷◌, ◌++◌, some, arith, if◌then◌else◌, count,
  count-append, is_some, length, lookup, keys, lookup-insert, length-insert, count-keys-insert,
  eq_iff, eq_refl, ◌==◌, ok,
}
use agent_exec_engine.Prelude.Int.{pos, increment}
use agent_exec_engine.Dag.Graph.{Graph, edges_of, degree_of, add_edge, link_all}

add_edge-edges :
    (dep id : String) (g : Graph) (d k : String)
    → count k (edges_of d (add_edge dep id g).edges)
      ≡ count k (edges_of d g.edges) + (if id == k then (if dep == d then 1 else 0) else 0)
unfolding add_edge count
add_edge-edges dep id g d k = ground (
  arith,
  eq_iff dep d,
  eq_iff id k,
  lookup-insert dep d (edges_of dep g.edges ++ id ∷ []) g.edges,
  count-append k (edges_of dep g.edges) (id ∷ []),
)

add_edge-degree :
    (dep id : String) (g : Graph) (k : String)
    → lookup k (add_edge dep id g).in_degree
      ≡ (if id == k then some (increment (degree_of id g.in_degree)) else lookup k g.in_degree)
unfolding add_edge
add_edge-degree dep id g k = lookup-insert id k _ g.in_degree

add_edge-sizes :
    (dep id : String) (g : Graph)
    → is_some (lookup id g.in_degree) ≡ true
    → length (add_edge dep id g).in_degree ≡ length g.in_degree
unfolding add_edge
add_edge-sizes dep id g h =
    ground (arith, length-insert id (increment (degree_of id g.in_degree)) g.in_degree)

add_edge-keys :
    (dep id : String) (g : Graph) (k : String)
    → is_some (lookup id g.in_degree) ≡ true
    → count k (keys (add_edge dep id g).in_degree) ≡ count k (keys g.in_degree)
unfolding add_edge
add_edge-keys dep id g k h =
    ground (arith, count-keys-insert id k (increment (degree_of id g.in_degree)) g.in_degree)

module _ (id : String) where
  link_all-cons :
      (dep : String) (deps : List String) (g : Graph) {g' : Graph}
      → link_all id (dep ∷ deps) g ≡ ok g'
      → (is_some (lookup dep g.steps) ≡ true) × (link_all id deps (add_edge dep id g) ≡ ok g')
  unfolding link_all
  link_all-cons dep deps g e = ground arith

  -- Linking leaves the steps and what is resolved alone.
  pub link_all-frame :
      (deps : List String) (g : Graph) {g' : Graph}
      → link_all id deps g ≡ ok g'
      → (g'.steps ≡ g.steps) × (g'.resolved ≡ g.resolved)
  unfolding link_all add_edge
  link_all-frame [] g e = ground arith
  link_all-frame (dep ∷ deps) g e =
      ground (arith, link_all-frame deps (add_edge dep id g) (link_all-cons dep deps g e).1)

  pub link_all-edges :
      (deps : List String) (g : Graph) {g' : Graph} (d k : String)
      → link_all id deps g ≡ ok g'
      → count k (edges_of d g'.edges)
        ≡ count k (edges_of d g.edges) + (if id == k then count d deps else 0)
  unfolding link_all count
  link_all-edges [] g d k e = ground arith
  link_all-edges (dep ∷ deps) g d k e = ground (
    arith,
    add_edge-edges dep id g d k,
    link_all-edges deps (add_edge dep id g) d k (link_all-cons dep deps g e).1,
  )

  -- The degree of the step grows by the number of its dependencies.
  pub link_all-degree :
      (deps : List String) (g : Graph) {g' : Graph} (k : String) (n : ℕ)
      → lookup k g.in_degree ≡ some (pos n)
      → link_all id deps g ≡ ok g'
      → lookup k g'.in_degree ≡ some (pos (n + (if id == k then length deps else 0)))
  unfolding link_all
  link_all-degree [] g k n h e = ground arith
  link_all-degree (dep ∷ deps) g k n h e = ground (
    arith,
    eq_iff id k,
    add_edge-degree dep id g k,
    link_all-degree deps (add_edge dep id g) k (if id == k then suc n else n)
        (ground (arith, eq_iff id k, add_edge-degree dep id g k)) (link_all-cons dep deps g e).1,
  )

  -- No other step gets a degree, and no step is listed twice.
  pub link_all-keys :
      (deps : List String) (g : Graph) {g' : Graph} (k : String)
      → is_some (lookup id g.in_degree) ≡ true
      → link_all id deps g ≡ ok g'
      → (is_some (lookup k g'.in_degree) ≡ is_some (lookup k g.in_degree))
        × (length g'.in_degree ≡ length g.in_degree)
        × (count k (keys g'.in_degree) ≡ count k (keys g.in_degree))
  unfolding link_all
  link_all-keys [] g k h e = ground arith
  link_all-keys (dep ∷ deps) g k h e = ground (
    arith,
    eq_iff id k,
    eq_refl id,
    add_edge-degree dep id g k,
    add_edge-degree dep id g id,
    add_edge-sizes dep id g h,
    add_edge-keys dep id g k h,
    link_all-keys deps (add_edge dep id g) k
        (ground (arith, eq_refl id, add_edge-degree dep id g id)) (link_all-cons dep deps g e).1,
  )

  -- Every dependency that is linked is a step.
  pub link_all-known :
      (deps : List String) (g : Graph) {g' : Graph} (d : String)
      → link_all id deps g ≡ ok g'
      → 0 < count d deps
      → is_some (lookup d g.steps) ≡ true
  unfolding link_all count add_edge
  link_all-known [] g d e h = ground arith
  link_all-known (dep ∷ deps) g d e h =
      let (now, later) = link_all-cons dep deps g e in
      ground (arith, eq_iff dep d, link_all-known deps (add_edge dep id g) d later)

  -- Linking fails only at a dependency that is no step.
  pub link_all_total :
      (deps : List String) (g : Graph)
      → ((d : String) → 0 < count d deps → is_some (lookup d g.steps) ≡ true)
      → (g' : Graph) × (link_all id deps g ≡ ok g')
  unfolding link_all count add_edge
  link_all_total [] g h = (g, refl)
  link_all_total (dep ∷ deps) g h =
      let now : is_some (lookup dep g.steps) ≡ true = ground (arith, h dep, eq_refl dep) in
      let (g', e) =
        link_all_total deps (add_edge dep id g) (λ d p. ground (arith, h d, eq_iff dep d)) in
      (g', ground (arith, now, e))
