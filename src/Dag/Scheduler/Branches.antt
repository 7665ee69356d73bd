-- ===== src/Dag/Scheduler/Branches.antt =====
-- internal/dag/scheduler_run.go: the steps that are open after a branch step and a pause.
use agent_exec_engine.Prelude.{
  ◌≡◌, refl, String, Bool, true, false, [], some, Map, lookup, ok, arith,
}
use agent_exec_engine.Types.{Step, StepState, paused, workflow_paused, Value}
use agent_exec_engine.Dag.Scheduler.Machine.{World, Scheduler, modify, ◌>>◌, pure}
use agent_exec_engine.Dag.Scheduler.Steps.{
  emit, start_step, finish_step_success, finish_step_skipped, save_checkpoint, build_input_from,
  pause_workflow,
}
use agent_exec_engine.Dag.Scheduler.Batch.{
  complete, skip, step_by_id, evaluate_condition, settle_branch, handle_branch_step,
}
use agent_exec_engine.Dag.Scheduler.Retries.{is_cut}
use agent_exec_engine.Dag.Scheduler.Open.{
  weight, Lowers, and_then-Lowers, Descends, >>=-Descends, Lowers-none, emit-Lowers,
  save_checkpoint-Lowers, start_step-open, start_step-Lowers, finish_step_success-Lowers,
  finish_step_skipped-Lowers,
}
use agent_exec_engine.Dag.Scheduler.Rounds.{complete-Descends, skip-Descends}

module _ (world : World) where
  evaluate_condition-states :
      (id : String) (env : Map Value) (s : Scheduler)
      → (is_cut (evaluate_condition world id env s).0 ≡ false)
        × ((evaluate_condition world id env s).1.run.step_states ≡ s.run.step_states)
  unfolding evaluate_condition step_by_id
  evaluate_condition-states id env s = ground arith

  settle_branch-Lowers :
      (matched : Bool) (id : String) (s : Scheduler) (state : StepState)
      → lookup id s.run.step_states ≡ some state
      → weight state ≡ 1
      → Lowers 1 s (settle_branch world matched id s)
  unfolding settle_branch
  settle_branch-Lowers true id s state there still =
      and_then-Lowers 1 0 s (finish_step_success world id "{\"matched\":true}" s) (λ _. complete id)
        (finish_step_success-Lowers world id s state there still "{\"matched\":true}")
        (λ a e. complete-Descends world id (finish_step_success world id "{\"matched\":true}" s).1)
  settle_branch-Lowers false id s state there still =
      and_then-Lowers 1 0 s (finish_step_skipped world id s) (λ _. skip id)
        (finish_step_skipped-Lowers world id s state there still)
        (λ a e. skip-Descends world id (finish_step_skipped world id s).1)

  pub handle_branch_step-Lowers : (step : Step) → Descends 1 (handle_branch_step world step)
  unfolding handle_branch_step
  handle_branch_step-Lowers step s =
      let s1 = (start_step world step.id s).1 in
      let env = build_input_from world s1.step_outputs step.depends_on [] in
      let s2 = (evaluate_condition world step.id env s1).1 in
      let (whole, same) = evaluate_condition-states step.id env s1 in
      and_then-Lowers 0 1 s (start_step world step.id s) _ (start_step-Lowers world step.id s)
        (λ _ begun.
          let (state, there, still) = start_step-open world step.id s begun in
          and_then-Lowers 0 1 s1 (evaluate_condition world step.id env s1) _
            (Lowers-none s1 (evaluate_condition world step.id env s1) whole same)
            (λ matched _.
              and_then-Lowers 1 0 s2 (settle_branch world matched step.id s2)
                (λ ready. save_checkpoint world >> pure ready)
                (settle_branch-Lowers matched step.id s2 state (rw same there) still)
                (λ ready _.
                  >>=-Descends 0 0 (save_checkpoint world) (λ _. pure ready)
                    (save_checkpoint-Lowers world) (λ _ s3. Lowers-none s3 (ok ready, s3) refl refl)
                    (settle_branch world matched step.id s2).1)))

  pub pause_workflow-Lowers : (step : Step) → Descends 0 (pause_workflow world step)
  unfolding pause_workflow
  pause_workflow-Lowers step =
      >>=-Descends 0 0 (start_step world step.id) _ (start_step-Lowers world step.id) (λ _.
        >>=-Descends 0 0
          (modify
            (λ s. record s { run = record (s.run) { status = paused }; paused_step_id = step.id }))
          _ (λ s. Lowers-none s _ refl refl)
          (λ _.
            >>=-Descends 0 0 (emit world workflow_paused step.id "") _
              (emit-Lowers world workflow_paused step.id "") (λ _. save_checkpoint-Lowers world)))
