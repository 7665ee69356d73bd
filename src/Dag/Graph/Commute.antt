-- ===== src/Dag/Graph/Commute.antt =====
-- internal/dag/graph.go: the order in which steps are resolved.
use agent_exec_engine.Prelude.{
  IsOrder, String, ◌≡◌, refl, List, [], ◌∷◌, true, ◌&&◌, arith, count, is_some, Map, lookup,
  lookup-insert, eq_iff, if◌then◌else◌, ◌==◌,
}
use agent_exec_engine.Types.{StepStatus}
use agent_exec_engine.Dag.Graph.{Graph, ready_steps, resolve_step}
use agent_exec_engine.Dag.Graph.Wellformed.{deps_of, unresolved, is_ready, IsWf}
use agent_exec_engine.Dag.Graph.Resolve.{resolve_step-IsWf, resolve_step-frame}
use agent_exec_engine.Dag.Graph.Ready.{ready_steps-is_ready}

-- Which steps are resolved afterwards.
resolved-resolve_step :
    (id : String) (status : StepStatus) (g : Graph) (k : String)
    → is_some (lookup k (resolve_step id status g).0.resolved)
      ≡ (if is_some (lookup id g.steps) && id == k then true else is_some (lookup k g.resolved))
unfolding resolve_step
resolved-resolve_step id status g k =
    ground (arith, eq_iff id k, lookup-insert id k status g.resolved)

unresolved_ext :
    (r r' : Map StepStatus) (ds : List String)
    → ((k : String) → is_some (lookup k r) ≡ is_some (lookup k r'))
    → unresolved r ds ≡ unresolved r' ds
unfolding unresolved
unresolved_ext r r' [] same = refl
unresolved_ext r r' (d ∷ ds) same = ground (arith, same d, unresolved_ext r r' ds same)

is_ready_ext :
    (g g' : Graph)
    → g.steps ≡ g'.steps
    → ((k : String) → is_some (lookup k g.resolved) ≡ is_some (lookup k g'.resolved))
    → (k : String) → is_ready g k ≡ is_ready g' k
is_ready_ext g g' steps same k =
    let open_deps = unresolved_ext g.resolved g'.resolved (deps_of k g.steps) same in
    ground (arith, steps, same k, open_deps)

module _ (a b : String) (first second : StepStatus) (g : Graph) where
  abbrev one_way : Graph
  one_way = (resolve_step b second (resolve_step a first g).0).0

  abbrev other_way : Graph
  other_way = (resolve_step a first (resolve_step b second g).0).0

  is_ready-commute : (k : String) → is_ready one_way k ≡ is_ready other_way k
  is_ready-commute =
      let a_alone = resolve_step-frame a first g in
      let b_alone = resolve_step-frame b second g in
      let b_last = resolve_step-frame b second (resolve_step a first g).0 in
      let a_last = resolve_step-frame a first (resolve_step b second g).0 in
      is_ready_ext one_way other_way (ground (arith, a_alone, b_alone, a_last, b_last)) (λ k.
        ground (
          arith,
          a_alone,
          b_alone,
          resolved-resolve_step a first g k,
          resolved-resolve_step b second g k,
          resolved-resolve_step b second (resolve_step a first g).0 k,
          resolved-resolve_step a first (resolve_step b second g).0 k,
        ))

-- Two steps may be resolved in either order: the steps that `ReadySteps` then lists are the same.
pub resolve_step-commute :
    (range : List String → List String)
    → IsOrder range
    → (a b : String) (first second : StepStatus) (g : Graph) → IsWf g
    → (k : String)
    → count k (ready_steps range (resolve_step b second (resolve_step a first g).0).0)
      ≡ count k (ready_steps range (resolve_step a first (resolve_step b second g).0).0)
resolve_step-commute range ordered a b first second g w k =
    let w1 =
      resolve_step-IsWf b second (resolve_step a first g).0 (resolve_step-IsWf a first g w) in
    let w2 =
      resolve_step-IsWf a first (resolve_step b second g).0 (resolve_step-IsWf b second g w) in
    ground (
      arith,
      ready_steps-is_ready range ordered _ w1 k,
      ready_steps-is_ready range ordered _ w2 k,
      is_ready-commute a b first second g k,
    )
