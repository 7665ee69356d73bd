-- ===== src/Dag/Graph/New.antt =====
-- `NewGraph` as a whole.
use agent_exec_engine.Prelude.{
  IsOrder, ◌≤◌, ◌<◌, String, ◌≡◌, List, [], ◌∷◌, true, arith, count, contains, is_some, lookup,
  eq_iff, ok, >>=-eq-ok, contains-count, count-contains, subst, ok-injective,
}
use agent_exec_engine.Types.{Step}
use agent_exec_engine.Dag.Graph.{
  Graph, empty, index_steps, build_edges, validate_acyclic, new_graph,
}
use agent_exec_engine.Dag.Graph.Wellformed.{deps_in, ids, IsWf}
use agent_exec_engine.Dag.Graph.Index.{index_steps_total, index_steps-origin}
use agent_exec_engine.Dag.Graph.Build.{build_edges_total}
use agent_exec_engine.Dag.Graph.Built.{IsBuilt, linked, linked-IsBuilt}
use agent_exec_engine.Dag.Graph.Cycles.{DepsFirst, IsRunnable, validate-ok, validate_total}

-- What a workflow must be: no id twice, and an order in which the steps can run.
pub record IsAcyclic (steps : List Step) : Type 0 where
  pub distinct : (id : String) → count id (ids steps) ≤ 1
  pub order : List String
  pub runnable : IsRunnable steps order

module _ (range : List String → List String) (ordered : IsOrder range) (steps : List Step) where
  pub new_graph-linked :
      {g : Graph}
      → new_graph range steps ≡ ok g
      → (linked steps ≡ ok g) × (validate_acyclic range g ≡ ok tt)
  unfolding new_graph
  new_graph-linked e =
      let (g₀, indexed, e₁) = >>=-eq-ok (index_steps steps empty) _ e in
      let (g₁, built, e₂) = >>=-eq-ok (build_edges steps g₀) _ e₁ in
      let (done, checked, same) = >>=-eq-ok (validate_acyclic range g₁) _ e₂ in
      (
        ground (arith, indexed, built, same),
        subst (λ h. validate_acyclic range h ≡ ok tt) (ok-injective same) checked,
      )

  DepsFirst-known :
      (order : List String)
      → DepsFirst steps order
      → (d k : String) → contains order k ≡ true
      → 0 < count d (deps_in steps k)
      → contains order d ≡ true
  unfolding contains
  DepsFirst-known [] f d k h p = ground arith
  DepsFirst-known (j ∷ earlier) f d k h p =
      ground (arith, eq_iff j k, f.0 d, DepsFirst-known earlier f.1 d k)

  deps_in-known :
      (rest : List Step) (d k : String)
      → 0 < count d (deps_in rest k)
      → contains (ids rest) k ≡ true
  unfolding deps_in count contains
  deps_in-known [] d k p = absurd (omega arith)
  deps_in-known (step ∷ rest) d k p = ground (arith, deps_in-known rest d k)

  pub new_graph-IsBuilt :
      {g : Graph} → new_graph range steps ≡ ok g → IsBuilt steps g × IsAcyclic steps
  new_graph-IsBuilt {g} e =
      let (l, v) = new_graph-linked e in
      let b = linked-IsBuilt steps l in
      let (order, r) = validate-ok range ordered steps g b v in
      (b, record { distinct = b.distinct_ids; order = order; runnable = r })

  new_graph_total : IsAcyclic steps → (g : Graph) × (new_graph range steps ≡ ok g)
  unfolding new_graph lookup
  new_graph_total a =
      let (g₀, indexed) = index_steps_total steps empty (λ id. omega (arith, a.distinct id)) in
      let known : (d k : String)
          → 0 < count d (deps_in steps k)
          → is_some (lookup d g₀.steps) ≡ true =
        λ d k p. ground (
          arith,
          index_steps-origin steps empty d indexed,
          deps_in-known steps d k p,
          contains-count (ids steps) k,
          a.runnable.all_once k,
          a.runnable.all_once d,
          count-contains a.order k,
          contains-count a.order d,
          count-contains (ids steps) d,
          DepsFirst-known a.order a.runnable.deps_first d k,
        ) in
      let (g, built) = build_edges_total steps g₀ known in
      let l : linked steps ≡ ok g = ground (arith, indexed, built) in
      let v = validate_total range ordered steps g (linked-IsBuilt steps l) a.order a.runnable in
      (g, ground (arith, indexed, built, v))

  -- `NewGraph` succeeds exactly when no id comes twice and there is an order in which the steps can
  -- run: each step of the list once, and after all that it depends on. It then returns a
  -- well-formed graph, whose steps and dependencies are those of the list.
  pub new_graph-IsAcyclic :
      ((g : Graph) × (new_graph range steps ≡ ok g) → IsAcyclic steps)
      × (IsAcyclic steps → (g : Graph) × (new_graph range steps ≡ ok g) × IsBuilt steps g)
  new_graph-IsAcyclic = (
    λ (g, e). (new_graph-IsBuilt e).1,
    λ a. let (g, e) = new_graph_total a in (g, e, (new_graph-IsBuilt e).0),
  )

  -- A graph that `NewGraph` returns is well formed.
  pub new_graph-IsWf : {g : Graph} → new_graph range steps ≡ ok g → IsWf g
  new_graph-IsWf e = (new_graph-IsBuilt e).0.wf
