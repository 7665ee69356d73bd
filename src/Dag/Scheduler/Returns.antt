-- ===== src/Dag/Scheduler/Returns.antt =====
-- internal/dag/scheduler_run.go: `processReadySteps` reports a pause only where the run is paused.
use agent_exec_engine.Prelude.{
  ◌≡◌, ◌++◌, refl, String, true, false, List, [], ◌∷◌, Result, ok, err, arith,
}
use agent_exec_engine.Types.{Step, StepType, branch, human, paused, EventType, workflow_paused}
use agent_exec_engine.Dag.Scheduler.Machine.{
  Failure, step_not_found, World, Scheduler, Action, and_then, ◌>>=◌, ◌>>◌, pure,
}
use agent_exec_engine.Dag.Scheduler.Steps.{emit, start_step, pause_workflow, save_checkpoint}
use agent_exec_engine.Dag.Scheduler.Batch.{step_by_id, handle_branch_step}
use agent_exec_engine.Dag.Scheduler.Loop.{Plan, Next, process}
use agent_exec_engine.Dag.Scheduler.Order.{Any}

-- What holds of an action's result, where there is one.
abbrev pub Yields : {A : Type 0} → (A → Scheduler → Type 0) → Result Failure A × Scheduler → Type 0
Yields {A} Post r = (a : A) → r.0 ≡ ok a → Post a r.1

pub and_then-Yields :
    {A B : Type 0} (Post : A → Scheduler → Type 0) (Next : B → Scheduler → Type 0)
    (r : Result Failure A × Scheduler) (f : A → Action B)
    → Yields Post r
    → ((a : A) → Post a r.1 → Yields Next (f a r.1))
    → Yields Next (and_then r f)
and_then-Yields Post Next (ok a, s) f w next = next a (w a refl)
and_then-Yields Post Next (err e, s) f w next = λ b h. absurd (ground (arith, h))

-- A plan that is paused leaves the run paused.
abbrev pub Stopped : Plan → Scheduler → Type 0
Stopped plan s = plan.paused ≡ true → s.run.status ≡ paused

module _ (world : World) where
  pub emit-run :
      (type : EventType) (id message : String) (s : Scheduler)
      → ((emit world type id message s).1.run ≡ s.run)
        × ((emit world type id message s).1.graph ≡ s.graph)
  unfolding emit
  emit-run type id message s = ground arith

  save_checkpoint-status : (s : Scheduler) → (save_checkpoint world s).1.run.status ≡ s.run.status
  unfolding save_checkpoint emit
  save_checkpoint-status s = ground arith

  pause_workflow-status :
      (step : Step) (s : Scheduler)
      → Yields (λ _ s'. s'.run.status ≡ paused) (pause_workflow world step s)
  unfolding pause_workflow
  pause_workflow-status step s =
      and_then-Yields Any (λ _ s'. s'.run.status ≡ paused) (start_step world step.id s) _
        (λ _ _. tt)
        (λ _ _.
          let s1 = (start_step world step.id s).1 in
          let s2 = record s1 {
            run = record (s1.run) { status = paused };
            paused_step_id = step.id;
          } in
          let told = emit-run workflow_paused step.id "" s2 in
          let s3 = (emit world workflow_paused step.id "" s2).1 in
          and_then-Yields (λ _ s'. s'.run.status ≡ paused) (λ _ s'. s'.run.status ≡ paused)
            (emit world workflow_paused step.id "" s2) (λ _. save_checkpoint world)
            (λ _ _. ground (arith, told)) (λ _ h a e. ground (arith, save_checkpoint-status s3, h)))

  after_step :
      (id : String) (ids : List String) (plan : Plan) (step : Step) (type : StepType)
      (s : Scheduler)
      → plan.paused ≡ false
      → ((p : Plan) (s' : Scheduler) → p.paused ≡ false → Yields Stopped (process world ids p s'))
      → Yields Stopped (
          (elim type as (λ _. Action Plan) [
            | branch ↦ handle_branch_step world step >>= λ ready.
                process world ids (record plan { inline = plan.inline ++ ready })
            | human ↦ pause_workflow world step >> pure (record plan { async = []; paused = true })
            | _ ↦ process world ids (record plan { async = plan.async ++ id ∷ [] })
          ])
            s)
  after_step id ids plan step branch s h ih =
      let r = handle_branch_step world step s in
      and_then-Yields Any Stopped r
        (λ ready. process world ids (record plan { inline = plan.inline ++ ready })) (λ _ _. tt)
        (λ ready _. ih (record plan { inline = plan.inline ++ ready }) r.1 h)
  after_step id ids plan step human s h ih =
      let left : Plan = record plan { async = []; paused = true } in
      and_then-Yields (λ _ s'. s'.run.status ≡ paused) Stopped (pause_workflow world step s)
        (λ _. pure left) (pause_workflow-status step s) (λ _ same p e q. same)
  after_step id ids plan step type s h ih = ih (record plan { async = plan.async ++ id ∷ [] }) s h

  pub process-Stopped :
      (ids : List String) (plan : Plan) (s : Scheduler)
      → plan.paused ≡ false
      → Yields Stopped (process world ids plan s)
  unfolding process
  process-Stopped [] plan s h = λ p e q. absurd (ground (arith, h, e, q))
  process-Stopped (id ∷ ids) plan s h =
      let r = step_by_id id (step_not_found id) s in
      and_then-Yields Any Stopped r
        (λ step. elim (step.type) as (λ _. Action Plan) [
          | branch ↦ handle_branch_step world step >>= λ ready.
              process world ids (record plan { inline = plan.inline ++ ready })
          | human ↦ pause_workflow world step >> pure (record plan { async = []; paused = true })
          | _ ↦ process world ids (record plan { async = plan.async ++ id ∷ [] })
        ])
        (λ _ _. tt) (λ step _. after_step id ids plan step step.type r.1 h (process-Stopped ids))
