-- ===== src/Dag/Scheduler/Order/Reached.antt =====
-- internal/dag/scheduler_run.go and checkpoint.go: the order of a run's steps, through all that a
-- workflow's scheduler goes through.
use agent_exec_engine.Prelude.{
  Option, ℕ, ◌<◌, ◌≡◌, ◌≢◌, eq_iff, refl, String, true, false, List, [], ◌∷◌, some, count, Map,
  lookup, ok, arith, Option-cases, inl, inr, is_some,
}
use agent_exec_engine.Types.{
  StepStatus, success, failed, timeout, skipped, cancelled, status_eq, StepState, Workflow,
  Checkpoint, Value,
}
use agent_exec_engine.Dag.Graph.Wellformed.{deps_in, unresolved}
use agent_exec_engine.Dag.Scheduler.Machine.{CtxError, World, Scheduler}
use agent_exec_engine.Dag.Scheduler.Batch.{new_scheduler}
use agent_exec_engine.Dag.Scheduler.Loop.{run, resume}
use agent_exec_engine.Dag.Scheduler.Open.{is_settled}
use agent_exec_engine.Dag.Scheduler.Order.{Holds}
use agent_exec_engine.Dag.Scheduler.Order.Graphs.{new_scheduler-Holds}
use agent_exec_engine.Dag.Scheduler.Order.Rounds.{Ordered}
use agent_exec_engine.Dag.Checkpoint.{restore_scheduler}
use agent_exec_engine.Dag.Scheduler.Order.Restoring.{InOrder}
use agent_exec_engine.Dag.Scheduler.Order.Restored.{restore_scheduler-Holds}
use agent_exec_engine.Dag.Scheduler.Order.Runs.{run-Sound, resume-Sound}

begun_status :
    (status : StepStatus)
    → status ≢ StepStatus.pending
    → status_eq status StepStatus.pending ≡ false
begun_status StepStatus.pending h = absurd (h refl)
begun_status StepStatus.running h = refl
begun_status success h = refl
begun_status failed h = refl
begun_status timeout h = refl
begun_status skipped h = refl
begun_status cancelled h = refl

-- The schedulers of a workflow: a new one, one that was restored from a checkpoint in order, and what
-- runs and resumptions make of them.
pub data Reached (world : World) (wf : Workflow) : Scheduler → Type 0 where
  created :
      (run_id : String) (started_at : ℕ) (s : Scheduler)
      → new_scheduler world run_id started_at wf ≡ ok s
      → Reached world wf s
  restored :
      (run_id : String) (started_at : ℕ) (ctx_err : Option CtxError) (cp : Checkpoint)
      (s : Scheduler)
      → InOrder wf.steps cp.step_states
      → restore_scheduler world run_id started_at ctx_err wf cp ≡ ok s
      → Reached world wf s
  ran : (fuel : ℕ) {s : Scheduler} → Reached world wf s → Reached world wf (run world fuel s).1
  resumed :
      (fuel : ℕ) (id : String) (input : Map Value) {s : Scheduler}
      → Reached world wf s
      → Reached world wf (resume world fuel id input s).1

Reached-Holds :
    (world : World) (wf : Workflow)
    → Ordered world
    → {s : Scheduler} → Reached world wf s
    → Holds wf.steps s
Reached-Holds world wf orders (created run_id started_at s e) =
    new_scheduler-Holds world orders.ranges run_id started_at wf s e
Reached-Holds world wf orders (restored run_id started_at ctx_err cp s w e) =
    restore_scheduler-Holds world orders.ranges run_id started_at ctx_err wf cp s w e
Reached-Holds world wf orders (ran fuel {s} r) =
    (run-Sound world wf.steps orders fuel s (Reached-Holds world wf orders r)).inv
Reached-Holds world wf orders (resumed fuel id input {s} r) =
    (resume-Sound world wf.steps orders fuel id input s (Reached-Holds world wf orders r)).inv

unresolved-each :
    (resolved : Map StepStatus) (ds : List String) (d : String)
    → unresolved resolved ds ≡ 0
    → 0 < count d ds
    → is_some (lookup d resolved) ≡ true
unfolding unresolved count
unresolved-each resolved [] d h p = absurd (omega (arith, p))
unresolved-each resolved (e ∷ ds) d h p =
    ground (arith, h, p, eq_iff e d, unresolved-each resolved ds d)

-- However often a workflow is run, resumed and restored from checkpoints in which this holds, for
-- however many rounds, whatever the executors, the contexts and the stores answer, and in whatever
-- order the goroutines of a batch run: a step that has left pending depends only on steps that
-- succeeded or were skipped.
pub Reached-deps :
    (world : World) (wf : Workflow)
    → Ordered world
    → (s : Scheduler) → Reached world wf s
    → (id : String) (state : StepState) → lookup id s.run.step_states ≡ some state
    → state.status ≢ StepStatus.pending
    → (dep : String) → 0 < count dep (deps_in wf.steps id)
    → (done : StepState) × (lookup dep s.run.step_states ≡ some done)
      × (is_settled done.status ≡ true)
Reached-deps world wf orders s r id state there begun dep p =
    let w = Reached-Holds world wf orders r in
    let met = w.met id (ground (arith, there, begun_status state.status begun)) in
    let resolved =
      unresolved-each s.graph.resolved (deps_in wf.steps id) dep (ground (arith, met, w.deps id))
        p in
    elim (Option-cases (lookup dep s.run.step_states)) [
      | inl absent ↦ absurd (ground (arith, absent, w.settled dep resolved))
      | inr (done, found) ↦ (done, found, ground (arith, found, w.settled dep resolved))
    ]
