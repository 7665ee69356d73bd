-- ===== src/Dag/Scheduler/Loop.antt =====
-- scheduler_run.go: the loop of a run, pausing and resuming, and how a run ends.
use agent_exec_engine.Prelude.{
  ℕ, zero, suc, String, Bool, true, false, not, List, [], ◌∷◌, ◌++◌, Option, none, some,
  if◌then◌else◌, ◌==◌, eqb, Map, insert, Result, ok, err,
}
use agent_exec_engine.Types.{
  success, branch, human, WorkflowStatus, completed, workflow_started, workflow_completed,
  workflow_failed, step_completed, Value,
}
use agent_exec_engine.Dag.Graph.{ready_steps, step_count}
use agent_exec_engine.Dag.Step.{transition_with_log}
use agent_exec_engine.Dag.Scheduler.Machine.{
  CtxError, Failure, cannot_transition, step_not_found, not_paused_on, stalled, context_error,
  encode_error, out_of_fuel, is_canceled, World, Scheduler, Action, pure, throw, require, caught,
  ◌>>=◌, ◌>>◌, get, modify, ask, get_state, put_state,
}
use agent_exec_engine.Dag.Scheduler.Steps.{
  emit, save_checkpoint, pause_workflow, mark_running_steps_cancelled, completed_step_count,
  dedupe_strings,
}
use agent_exec_engine.Dag.Scheduler.Batch.{
  set_status, complete, step_by_id, execute_batch, handle_branch_step,
}

abbrev pub is_empty : List String → Bool
is_empty [] = true
is_empty (x ∷ xs) = false

-- An action whose error is dropped, `_ = m()`.
abbrev pub ignored : Action (Unit {0}) → Action (Unit {0})
ignored m s = caught (m s) (λ failure s'. (ok tt, s'))

-- What `processReadySteps` returns: the steps to run together, the steps that became ready on the
-- way, and whether the run is paused.
pub record Plan : Type 0 where
  pub async : List String
  pub inline : List String
  pub paused : Bool

-- How a round of the loop ends.
pub data Next : Type 0 where
  finished suspended : Next
  again : List String → Next

module _ (world : World) where
  -- The end of a run by an error, which is returned.
  unfoldable pub fail_workflow {ℓ} : {A : Type ℓ} → Failure → Action A
  unfolding mark_running_steps_cancelled emit save_checkpoint
  fail_workflow failure = do
    t ← ask
    modify (λ s. if is_canceled failure then mark_running_steps_cancelled (world.now t) s else s)
    u ← ask
    modify (λ s. record s {
      run = record (s.run) { status = WorkflowStatus.failed; completed_at = some (world.now u) };
    })
    emit world workflow_failed "" (world.error_text failure)
    ignored (save_checkpoint world)
    throw failure

  unfoldable pub complete_workflow : Action (Unit {0})
  unfolding emit
  complete_workflow = do
    t ← ask
    modify (λ s. record s {
      run = record (s.run) { status = completed; completed_at = some (world.now t) };
    })
    emit world workflow_completed "" ""

  -- The loop of `processReadySteps`.
  unfoldable pub process : List String → Plan → Action Plan
  unfolding step_by_id handle_branch_step pause_workflow
  process [] plan = pure plan
  process (id ∷ ids) plan =
      let inlined =
        λ (ready : List String). process ids (record plan { inline = plan.inline ++ ready }) in
      let batched = process ids (record plan { async = plan.async ++ id ∷ [] }) in
      do
        step ← step_by_id id (step_not_found id)
        elim (step.type) [
          | branch ↦ do ready ← handle_branch_step world step; inlined ready
          | human ↦ do pause_workflow world step; pure (record plan { async = []; paused = true })
          | _ ↦ batched
        ]

  unfoldable pub process_ready_steps : List String → Action Plan
  unfolding process dedupe_strings
  process_ready_steps ready =
      process (dedupe_strings ready) (record { async = []; inline = []; paused = false })

  abbrev pub check_context : Option CtxError → Action (Unit {0})
  check_context none = pure tt
  check_context (some e) = throw (context_error e)

  -- What follows `processReadySteps` in a round.
  unfoldable pub follow : Plan → Action Next
  unfolding execute_batch dedupe_strings
  follow plan =
      if plan.paused
      then pure suspended
      else if is_empty plan.async
      then pure (again (dedupe_strings plan.inline))
      else do
        batch_ready ← execute_batch world plan.async
        pure (again (dedupe_strings (plan.inline ++ batch_ready)))

  unfoldable pub work : List String → Action Next
  unfolding process_ready_steps follow
  work ready = do
    require (not (is_empty ready)) stalled
    plan ← process_ready_steps ready
    follow plan

  abbrev pub or_ready : List String → Scheduler → List String
  or_ready ready s = if is_empty ready then ready_steps world.range s.graph else ready

  -- One round of the loop of `runLoop`, up to its errors.
  unfoldable pub round : List String → Action Next
  unfolding complete_workflow work completed_step_count
  round ready = do
    n ← ask
    check_context (world.run_ctx_err n)
    s ← get
    if eqb (completed_step_count s) (step_count s.graph)
        then (do complete_workflow; pure finished)
        else work (or_ready ready s)

  unfoldable pub run_loop : ℕ → List String → Action (Unit {0})
  unfolding round fail_workflow
  run_loop zero ready = throw out_of_fuel
  run_loop (suc fuel) ready =
      let continue = run_loop fuel in
      do
        next ← λ s. caught (round ready s) fail_workflow
        elim next [ finished ↦ pure tt | suspended ↦ pure tt | again ready' ↦ continue ready' ]

  unfoldable pub run : ℕ → Action (Unit {0})
  unfolding emit run_loop
  run fuel = do
    modify (set_status WorkflowStatus.running)
    emit world workflow_started "" ""
    s ← get
    run_loop fuel (ready_steps world.range s.graph)

  abbrev pub encoded : Result String String → Action String
  encoded (ok output) = pure output
  encoded (err e) = throw (encode_error e)

  unfoldable pub complete_human_step : String → Map Value → Action (List String)
  unfolding get_state put_state emit complete save_checkpoint
  complete_human_step id input = do
    s ← get
    require (s.paused_step_id == id) (not_paused_on id)
    state ← get_state id
    output ← encoded (world.marshal input)
    require (transition_with_log state.status success) (cannot_transition id state.status success)
    t ← ask
    modify (
        put_state id
          (record state { status = success; completed_at = some (world.now t); output = output }))
    modify
        (λ s'. record s' { step_outputs = insert id output s'.step_outputs; paused_step_id = "" })
    emit world step_completed id ""
    ready ← complete id
    save_checkpoint world
    pure ready

  unfoldable pub resume : ℕ → String → Map Value → Action (Unit {0})
  unfolding complete_human_step run_loop
  resume fuel id input = do
    ready ← complete_human_step id input
    modify (set_status WorkflowStatus.running)
    s ← get
    run_loop fuel (ready_steps world.range s.graph ++ ready)
