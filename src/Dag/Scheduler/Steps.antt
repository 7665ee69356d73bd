-- ===== src/Dag/Scheduler/Steps.antt =====
-- scheduler_state.go: what happens to one step, the input of a step, checkpoints and events.
-- Spans, metrics and the run's contexts are left out.
use agent_exec_engine.Prelude.{
  ℕ, ◌+◌, String, Bool, List, [], ◌∷◌, ◌++◌, Option, none, some, if◌then◌else◌, ◌==◌, ◌||◌, Map,
  lookup, insert, Result, ok, err, is_some, contains,
}
use agent_exec_engine.Prelude.Int.{ℤ, is_positive}
use agent_exec_engine.Types.{
  StepStatus, success, failed, timeout, skipped, cancelled, status_eq, Step, StepState, RetryPolicy,
  paused, Checkpoint, EventType, step_started, step_completed, step_failed, step_timeout,
  step_retry, workflow_paused, checkpoint_saved, Value, text, object, Fields, end, field,
}
use agent_exec_engine.Dag.Step.{transition_with_log, should_retry}
use agent_exec_engine.Dag.Scheduler.Machine.{
  CtxError, deadline_exceeded, canceled, Failure, cannot_transition, checkpoint_error, World,
  Scheduler, Action, pure, throw, require, ◌>>=◌, ◌>>◌, get, modify, ask, get_state, put_state,
}

-- The loop of `flattenIntoInput` over an object's entries.
unfoldable flatten_fields : Fields → Map Value → Map Value
flatten_fields end target = target
flatten_fields (field key value rest) target =
    flatten_fields rest (if is_some (lookup key target) then target else insert key value target)

unfoldable flatten_into_input : Value → Map Value → Map Value
unfolding flatten_fields
flatten_into_input (object fields) target = flatten_fields fields target
flatten_into_input _ target = target

-- The loop of `dedupeStrings`, with the items seen so far.
unfoldable pub dedupe_from : List String → List String → List String
unfolding contains
dedupe_from seen [] = []
dedupe_from seen (item ∷ items) =
    let rest = dedupe_from (if contains seen item then seen else item ∷ seen) items in
    if contains seen item then rest else item ∷ rest

unfoldable pub dedupe_strings : List String → List String
unfolding dedupe_from
dedupe_strings items = dedupe_from [] items

module _ (world : World) where
  unfoldable pub emit : EventType → String → String → Action (Unit {0})
  emit type id message s = elim (world.accepts) [
    | none ↦ (ok tt, s)
    | some room ↦
        if room s.asked
        then (
          ok tt,
          record s {
            asked = s.asked + 1;
            events =
                s.events
                ++ record {
                  type = type;
                  timestamp = world.now s.asked;
                  run_id = s.run.id;
                  step_id = id;
                  tool_name = "";
                  message = message;
                  metadata = [];
                }
                  ∷ [];
          },
        )
        else (ok tt, record s { asked = s.asked + 1 })
  ]

  unfoldable pub start_step : String → Action (Unit {0})
  unfolding get_state put_state
  start_step id = do
    state ← get_state id
    require (transition_with_log state.status StepStatus.running)
        (cannot_transition id state.status StepStatus.running)
    t ← ask
    modify (
        put_state id (record state {
          status = StepStatus.running;
          started_at = some (world.now t);
          error = "";
        }))
    emit step_started id ""

  -- The result of the transition's check is not used.
  unfoldable pub finish_step_success : String → String → Action (Unit {0})
  unfolding get_state put_state
  finish_step_success id output = do
    state ← get_state id
    t ← ask
    modify (
        put_state id (record state {
          status = success;
          completed_at = some (world.now t);
          output = output;
          error = "";
        }))
    modify (λ s. record s { step_outputs = insert id output s.step_outputs })
    emit step_completed id ""

  abbrev pub unmatched : String
  unmatched = "{\"matched\":false}"

  unfoldable pub finish_step_skipped : String → Action (Unit {0})
  unfolding get_state put_state
  finish_step_skipped id = do
    state ← get_state id
    t ← ask
    modify (
        put_state id (record state {
          status = skipped;
          completed_at = some (world.now t);
          output = unmatched;
          error = "";
        }))
    modify (λ s. record s { step_outputs = insert id unmatched s.step_outputs })
    emit step_completed id ""

  -- The status and the event that a failed attempt leads to.
  abbrev pub failure_status : Option CtxError → StepStatus
  failure_status none = failed
  failure_status (some deadline_exceeded) = timeout
  failure_status (some canceled) = cancelled

  abbrev failure_event : Option CtxError → Option EventType
  failure_event none = some step_failed
  failure_event (some deadline_exceeded) = some step_timeout
  failure_event (some canceled) = none

  abbrev emit_some : Option EventType → String → String → Action (Unit {0})
  emit_some none id message = pure tt
  emit_some (some type) id message = emit type id message

  -- The event for a retry, `retry n/max`.
  abbrev emit_retry : Option RetryPolicy → String → ℕ → Action (Unit {0})
  emit_retry none id count = pure tt
  emit_retry (some policy) id count = emit step_retry id (world.retry_text count policy.max_retries)

  -- The state of the step after the failed attempt, before a retry is counted.
  abbrev pub failed_state : StepState → Failure → Option CtxError → StepState
  failed_state state failure ctx_err = record state {
    status = failure_status ctx_err;
    error = world.error_text failure;
  }

  -- Whether the step is to be tried again.
  unfoldable pub finish_step_failure : String → Step → Failure → Option CtxError → Action Bool
  unfolding get_state put_state
  finish_step_failure id step failure ctx_err = do
    state ← get_state id
    let after = failed_state state failure ctx_err
    let retry = should_retry step after
    let count = if retry then after.retry_count + 1 else after.retry_count
    modify (put_state id (record after { retry_count = count }))
    emit_some (failure_event ctx_err) id (world.error_text failure)
    (if retry then emit_retry step.retry id count else pure tt)
    pure retry

  unfoldable step_timeout_of : ℤ → Step → ℤ
  step_timeout_of default step = if is_positive step.timeout then step.timeout else default

  abbrev decode_step_output : String → Value
  decode_step_output raw =
      if raw == ""
      then object end
      else elim (world.unmarshal raw) [ none ↦ text raw | some decoded ↦ decoded ]

  -- One round of the loop of `buildInput`.
  abbrev add_output : String → Option String → Map Value → Map Value
  add_output dep none input = input
  add_output dep (some raw) input =
      if raw == ""
      then input
      else let decoded = decode_step_output raw in
        flatten_into_input decoded (insert dep (object (field "output" decoded end)) input)

  unfoldable pub build_input_from : Map String → List String → Map Value → Map Value
  unfolding flatten_into_input
  build_input_from outputs [] input = input
  build_input_from outputs (dep ∷ deps) input =
      build_input_from outputs deps (add_output dep (lookup dep outputs) input)

  unfoldable pub build_input : Step → Action (Map Value)
  unfolding build_input_from
  build_input step s = (ok (build_input_from s.step_outputs step.depends_on []), s)

  abbrev checkpoint_of : Scheduler → Checkpoint
  checkpoint_of s = record {
    run_id = s.run.id;
    workflow_id = s.workflow.id;
    step_states = s.run.step_states;
    timestamp = 0;
    version = s.checkpoint_version;
  }

  abbrev pub saved : Result String Checkpoint → Action Checkpoint
  saved (ok cp) = pure cp
  saved (err e) = throw (checkpoint_error e)

  unfoldable pub save_checkpoint : Action (Unit {0})
  save_checkpoint = elim (world.save) [
    | none ↦ pure tt
    | some save ↦ do
      t ← ask
      s ← get
      cp ← saved (save t (checkpoint_of s))
      modify (λ s'. record s' { checkpoint_version = cp.version })
      emit checkpoint_saved "" ""
  ]

  unfoldable pub pause_workflow : Step → Action (Unit {0})
  unfolding start_step save_checkpoint
  pause_workflow step = do
    start_step step.id
    modify (λ s. record s { run = record (s.run) { status = paused }; paused_step_id = step.id })
    emit workflow_paused step.id ""
    save_checkpoint

-- The loop of `markRunningStepsCancelled`.
unfoldable pub cancel_running : ℕ → Map StepState → Map StepState
cancel_running now [] = []
cancel_running now ((id, state) ∷ rest) =
    (
      id,
      if status_eq state.status StepStatus.running
          then record state { status = cancelled; completed_at = some now }
          else state,
    )
    ∷ cancel_running now rest

unfoldable pub mark_running_steps_cancelled : ℕ → Scheduler → Scheduler
unfolding cancel_running
mark_running_steps_cancelled now s = record s {
  run = record (s.run) { step_states = cancel_running now s.run.step_states };
}

-- The loop of `completedStepCount`.
unfoldable pub count_completed : Map StepState → ℕ
count_completed [] = 0
count_completed ((id, state) ∷ rest) =
    (if status_eq state.status success || status_eq state.status skipped then 1 else 0)
    + count_completed rest

unfoldable pub completed_step_count : Scheduler → ℕ
unfolding count_completed
completed_step_count s = count_completed s.run.step_states
