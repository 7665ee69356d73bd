-- ===== src/Dag/Tests.antt =====
-- Runs of the graph and of the state machine, and the theorems at concrete inputs.
use agent_exec_engine.Prelude.{
  ◌+◌, ◌≡◌, refl, true, [], ◌∷◌, ok, err, is_some, lookup, insert, keys, delete, Result, count, not,
  ◌&&◌, if◌then◌else◌,
}
use agent_exec_engine.Types.{StepStatus, success, failed}
use agent_exec_engine.Dag.Graph.{
  Graph, empty, cycle, new_graph, mark_complete, resolve_step, ready_steps,
}
use agent_exec_engine.Dag.Graph.Wellformed.{is_ready, IsWf}
use agent_exec_engine.Dag.Graph.Built.{IsBuilt}
use agent_exec_engine.Dag.Graph.New.{IsAcyclic, new_graph-IsAcyclic, new_graph-IsWf}
use agent_exec_engine.Dag.Graph.Resolve.{resolve_step-IsWf, resolve_step-ready}
use agent_exec_engine.Dag.Graph.Ready.{
  Reached, built, resolve, ready_steps-is_ready, ready_steps-progress,
}
use agent_exec_engine.Dag.Graph.Commute.{resolve_step-commute}
use agent_exec_engine.Dag.Samples.{triangle, loop, in_order, in_order-IsOrder}
use agent_exec_engine.Dag.Step.{can_transition}
use agent_exec_engine.Dag.Step.Runs.{start, move, starts, ends, open_attempts, Run-starts}

-- A graph with two steps that wait for each other is refused.
loop_refused : new_graph in_order loop ≡ err (cycle 0 2)
unfolding new_graph lookup insert keys
loop_refused = refl

abbrev graph_or_empty : {E : Type 0} → Result E Graph → Graph
graph_or_empty (ok g) = g
graph_or_empty (err e) = empty

triangle_graph : Graph
triangle_graph = graph_or_empty (new_graph in_order triangle)

triangle_accepted : new_graph in_order triangle ≡ ok triangle_graph
unfolding triangle_graph new_graph lookup insert keys
triangle_accepted = refl

built-IsWf : IsWf triangle_graph
built-IsWf = new_graph-IsWf in_order in_order-IsOrder triangle triangle_accepted

new_graph-IsAcyclic_example :
    ((g : Graph) × (new_graph in_order triangle ≡ ok g) → IsAcyclic triangle)
    × (IsAcyclic triangle → (g : Graph) × (new_graph in_order triangle ≡ ok g) × IsBuilt triangle g)
new_graph-IsAcyclic_example = new_graph-IsAcyclic in_order in_order-IsOrder triangle

-- Only `a` is ready at first; then `b`, and `c` when both are complete.
triangle_ready : ready_steps in_order triangle_graph ≡ "a" ∷ []
unfolding triangle_graph new_graph ready_steps lookup insert keys
triangle_ready = refl

triangle_after_a : (mark_complete "a" triangle_graph).1 ≡ "b" ∷ []
unfolding triangle_graph new_graph mark_complete lookup insert keys delete
triangle_after_a = refl

resolve_step-IsWf_example : IsWf (resolve_step "a" success triangle_graph).0
resolve_step-IsWf_example = resolve_step-IsWf "a" success triangle_graph built-IsWf

resolve_step-ready_example : count "b" (resolve_step "a" success triangle_graph).1 ≡ (
    if is_ready (resolve_step "a" success triangle_graph).0 "b" && not (is_ready triangle_graph "b")
    then 1
    else 0)
resolve_step-ready_example = resolve_step-ready "a" success triangle_graph built-IsWf "b"

ready_steps-is_ready_example :
    count "a" (ready_steps in_order triangle_graph) ≡ (if is_ready triangle_graph "a" then 1 else 0)
ready_steps-is_ready_example =
    ready_steps-is_ready in_order in_order-IsOrder triangle_graph built-IsWf "a"

finished : Graph
finished =
    (resolve_step "c" success
      (resolve_step "b" success (resolve_step "a" success triangle_graph).0).0).0

finished-Reached : Reached in_order triangle finished
unfolding finished
finished-Reached =
    resolve "c" success
      (resolve "b" success (resolve "a" success (built triangle_graph triangle_accepted)))

ready_steps-progress_example : is_some (lookup "c" finished.resolved) ≡ true
unfolding finished triangle_graph new_graph resolve_step ready_steps lookup insert keys delete
ready_steps-progress_example =
    ready_steps-progress in_order in_order-IsOrder triangle finished finished-Reached refl "c" refl

Run-starts_example :
    open_attempts StepStatus.pending
      + starts (success ∷ StepStatus.running ∷ failed ∷ StepStatus.running ∷ [])
    ≡ ends (success ∷ StepStatus.running ∷ failed ∷ StepStatus.running ∷ []) + open_attempts success
unfolding can_transition
Run-starts_example = Run-starts {from = StepStatus.pending} (
    move success
      (move StepStatus.running (move failed (move StepStatus.running start refl) refl) refl) refl)

resolve_step-commute_example :
    count "c"
      (ready_steps in_order (resolve_step "b" failed (resolve_step "a" success triangle_graph).0).0)
    ≡ count "c" (
        ready_steps in_order
          (resolve_step "a" success (resolve_step "b" failed triangle_graph).0).0)
resolve_step-commute_example =
    resolve_step-commute in_order in_order-IsOrder "a" "b" success failed triangle_graph built-IsWf
      "c"
