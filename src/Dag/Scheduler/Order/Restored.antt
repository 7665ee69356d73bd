-- ===== src/Dag/Scheduler/Order/Restored.antt =====
-- internal/dag/checkpoint.go: the order of a run's steps in a scheduler that was restored from a
-- checkpoint.
use agent_exec_engine.Prelude.{
  IsOrder, subst, ℕ, String, ◌≡◌, refl, List, Option, none, some, Map, lookup, ok, arith,
  Result-cases, inl, inr,
}
use agent_exec_engine.Types.{Step, StepState, Workflow, Checkpoint, EventType, checkpoint_loaded}
use agent_exec_engine.Dag.Graph.{new_graph}
use agent_exec_engine.Dag.Graph.Wellformed.{deps_in}
use agent_exec_engine.Dag.Graph.Ready.{unresolved-zero}
use agent_exec_engine.Dag.Graph.Built.{IsBuilt, lookup-of-nil}
use agent_exec_engine.Dag.Graph.New.{new_graph-IsBuilt}
use agent_exec_engine.Dag.Checkpoint.{restore_states, restore_steps, restore_scheduler}
use agent_exec_engine.Dag.Scheduler.Machine.{World, Scheduler, CtxError}
use agent_exec_engine.Dag.Scheduler.Steps.{emit}
use agent_exec_engine.Dag.Scheduler.Batch.{new_scheduler}
use agent_exec_engine.Dag.Scheduler.Order.{Holds}
use agent_exec_engine.Dag.Scheduler.Order.Steps.{emit-Sound}
use agent_exec_engine.Dag.Scheduler.Order.Graphs.{new_scheduler-Holds}
use agent_exec_engine.Dag.Scheduler.Order.Restoring.{
  InOrder, Filled, restore_states-status, restore_steps-Restored,
}

new_scheduler-graph :
    (world : World) (run_id : String) (started_at : ℕ) (wf : Workflow) (s : Scheduler)
    → new_scheduler world run_id started_at wf ≡ ok s
    → new_graph world.range wf.steps ≡ ok s.graph
unfolding new_scheduler
new_scheduler-graph world run_id started_at wf s e =
    elim (Result-cases (new_graph world.range wf.steps)) [
      | inl (f, bad) ↦ absurd (ground (arith, bad, e))
      | inr (g, made) ↦ ground (arith, made, e)
    ]

emit-Holds :
    (world : World) (steps : List Step) (type : EventType) (s : Scheduler)
    → Holds steps s
    → Holds steps (emit world type "" "" s).1
emit-Holds world steps type s w = (emit-Sound world steps type "" "" s w).inv

-- The states of a checkpoint, put into a new scheduler and resolved.
restored-Holds :
    (steps : List Step) (states : Map StepState) (fresh s : Scheduler)
    → IsBuilt steps fresh.graph
    → ((id : String) (step : Step) → lookup id fresh.graph.steps ≡ some step → step.id ≡ id)
    → InOrder steps states
    → s.graph ≡ fresh.graph
    → s.run.step_states ≡ restore_states steps states
    → Holds steps (restore_steps steps s)
restored-Holds steps states fresh s b named w graph run =
    let states' = restore_states steps states in
    let begin : Filled steps s.graph states' = rw graph (record {
      wf = b.wf;
      deps = b.deps;
      named = named;
      settled = λ k p. absurd (
          ground (arith, b.none_resolved, lookup-of-nil fresh.graph.resolved k b.none_resolved, p));
      known = b.has;
    }) in
    let r = restore_steps-Restored steps states' steps s begin run in
    let kept : (restore_steps steps s).run.step_states ≡ states' = ground (arith, r.same, run) in
    rw kept (record {
      wf = r.filled.wf;
      deps = r.filled.deps;
      named = r.filled.named;
      settled = r.filled.settled;
      met = λ k p.
          let before = (restore_states-status steps states k).1 p in
          let zero =
            unresolved-zero (restore_steps steps s).graph.resolved (deps_in steps k) (λ d q.
              r.all d (b.all_known d k q)
                (ground (arith, (restore_states-status steps states d).0, w.each k d before q))
                (b.all_known d k q)) in
          ground (arith, r.filled.deps k, zero);
    })

-- A scheduler that is restored from states in order is one whose steps are in order.
pub restore_scheduler-Holds :
    (world : World)
    → IsOrder world.range
    → (run_id : String) (started_at : ℕ) (ctx_err : Option CtxError) (wf : Workflow)
      (cp : Checkpoint) (s : Scheduler)
    → InOrder wf.steps cp.step_states
    → restore_scheduler world run_id started_at ctx_err wf cp ≡ ok s
    → Holds wf.steps s
unfolding restore_scheduler
restore_scheduler-Holds world ordered run_id started_at (some e) wf cp s w h =
    absurd (ground (arith, h))
restore_scheduler-Holds world ordered run_id started_at none wf cp s w h =
    elim (Result-cases (new_scheduler world run_id started_at wf)) [
      | inl (f, bad) ↦ absurd (ground (arith, bad, h))
      | inr (fresh, made) ↦
          let graph = new_scheduler-graph world run_id started_at wf fresh made in
          let b = (new_graph-IsBuilt world.range ordered wf.steps graph).0 in
          let start = new_scheduler-Holds world ordered run_id started_at wf fresh made in
          let filled = record fresh {
            run = record (fresh.run) {
              id = cp.run_id;
              workflow_id = cp.workflow_id;
              step_states = restore_states wf.steps cp.step_states;
            };
            checkpoint_version = cp.version;
          } in
          let loaded = restore_steps wf.steps filled in
          let same : (emit world checkpoint_loaded "" "" loaded).1 ≡ s = ground (arith, made, h) in
          subst (Holds wf.steps) same (
            emit-Holds world wf.steps checkpoint_loaded loaded
              (restored-Holds wf.steps cp.step_states fresh filled b start.named w refl refl))
    ]
