-- ===== src/Dag/Scheduler/Batch.antt =====
-- scheduler.go and scheduler_run.go: a new scheduler, and how one batch of steps is run. A batch
-- runs its goroutines one after the other, in an order that the world chooses.
use agent_exec_engine.Prelude.{
  ℕ, zero, suc, ◌-◌, String, Bool, true, false, List, [], ◌∷◌, ◌++◌, Option, none, some,
  if◌then◌else◌, ◌==◌, Map, lookup, insert, Result, ok, err,
}
use agent_exec_engine.Prelude.Int.{pos, pos_part}
use agent_exec_engine.Types.{
  StepStatus, Step, StepState, RetryPolicy, WorkflowStatus, Workflow, Value, boolean,
}
use agent_exec_engine.Dag.Graph.{GraphError, new_graph, mark_complete, skip_step}
use agent_exec_engine.Dag.Scheduler.Machine.{
  Failure, step_not_found, no_executor, condition_error, panic, out_of_fuel, failure_of, World,
  Scheduler, Action, pure, throw, require, of_option, ◌>>=◌, ◌>>◌, ask, get_state,
}
use agent_exec_engine.Dag.Scheduler.Steps.{
  start_step, finish_step_success, finish_step_skipped, finish_step_failure, build_input,
  save_checkpoint,
}

-- The loop of `initStepStates`.
unfoldable pub init_step_states : List Step → Map StepState → Map StepState
init_step_states [] states = states
init_step_states (step ∷ rest) states = init_step_states rest (
    insert step.id
      (record {
        step_id = step.id;
        status = StepStatus.pending;
        started_at = none;
        completed_at = none;
        output = "";
        error = "";
        retry_count = 0;
        tokens_used = pos 0;
      })
      states)

-- How often a step may still be tried again.
abbrev pub retries_left : Option RetryPolicy → ℕ → ℕ
retries_left none count = 0
retries_left (some policy) count = pos_part policy.max_retries - count

abbrev pub set_status : WorkflowStatus → Scheduler → Scheduler
set_status status s = record s { run = record (s.run) { status = status } }

-- s.graph.MarkComplete(stepID) and s.graph.SkipStep(stepID)
unfoldable pub complete : String → Action (List String)
complete id s = (ok (mark_complete id s.graph).1, record s { graph = (mark_complete id s.graph).0 })

unfoldable pub skip : String → Action (List String)
skip id s = (ok (skip_step id s.graph).1, record s { graph = (skip_step id s.graph).0 })

-- s.graph.Step(stepID)
unfoldable pub step_by_id : String → Failure → Action Step
step_by_id id failure s = of_option failure (lookup id s.graph.steps) s

module _ (world : World) where
  -- `uuid.NewString()` and `time.Now()` are the first two arguments.
  unfoldable pub new_scheduler : String → ℕ → Workflow → Result GraphError Scheduler
  unfolding init_step_states
  new_scheduler run_id started_at wf = elim (new_graph world.range wf.steps) [
    | err e ↦ err e
    | ok graph ↦ ok (record {
      workflow = wf;
      graph = graph;
      run = record {
        id = run_id;
        workflow_id = wf.id;
        status = WorkflowStatus.pending;
        step_states = init_step_states wf.steps [];
        input = [];
        output = [];
        started_at = started_at;
        completed_at = none;
      };
      step_outputs = [];
      checkpoint_version = 0;
      paused_step_id = "";
      events = [];
      asked = 0;
    })
  ]

  -- One attempt: `none` when the step succeeded, or whether it is to be tried again.
  unfoldable pub attempt : Step → Map Value → Action (Option (Bool × Failure))
  unfolding start_step finish_step_success finish_step_failure save_checkpoint
  attempt step input = do
    start_step world step.id
    n ← ask
    let result = world.execute n step input
    elim (result.error) [
      | none ↦ do finish_step_success world step.id result.output; save_checkpoint world; pure none
      | some e ↦ do
        retry ← finish_step_failure world step.id step (failure_of e) result.ctx_err
        pure (some (retry, failure_of e))
    ]

  -- The loop of `executeStep`.
  unfoldable pub attempts : ℕ → Step → Map Value → Action (Unit {0})
  unfolding attempt
  attempts zero step input = throw out_of_fuel
  attempts (suc fuel) step input =
      let again = attempts fuel step input in
      do
        outcome ← attempt step input
        elim outcome [
          | none ↦ pure tt
          | some (true, failure) ↦ again
          | some (false, failure) ↦ throw failure
        ]

  -- The fuel is one more than the retries that the policy leaves.
  unfoldable pub execute_step : Step → Map Value → Action (Unit {0})
  unfolding attempts get_state
  execute_step step input = do
    require (world.has_executor step.type) (no_executor step.type)
    state ← get_state step.id
    attempts (suc (retries_left step.retry state.retry_count)) step input

  -- What a goroutine of `executeBatch` does.
  unfoldable pub run_one : String → Action (List String)
  unfolding build_input execute_step complete step_by_id
  run_one id = do
    step ← step_by_id id panic
    input ← build_input world step
    execute_step step input
    complete id

  -- All goroutines run, also after an error; the first error is returned.
  abbrev pub collect :
      Result Failure (List String) × Scheduler
      → Option Failure
      → List String
      → (Option Failure → List String → Action (List String))
      → Result Failure (List String) × Scheduler
  collect (ok more, s) failure ready rest = rest failure (ready ++ more) s
  collect (err e, s) none ready rest = rest (some e) ready s
  collect (err e, s) (some first) ready rest = rest (some first) ready s

  unfoldable pub run_all : List String → Option Failure → List String → Action (List String)
  unfolding run_one
  run_all [] none ready = pure ready
  run_all [] (some failure) ready = throw failure
  run_all (id ∷ ids) failure ready = λ s. collect (run_one id s) failure ready (run_all ids)

  unfoldable pub execute_batch : List String → Action (List String)
  unfolding run_all
  execute_batch step_ids = do n ← ask; run_all (world.interleave n step_ids) none []

  abbrev pub as_bool : Result String Value → Action Bool
  as_bool (ok (boolean matched)) = pure matched
  as_bool (ok value) = throw (condition_error "the condition is not a bool")
  as_bool (err e) = throw (condition_error e)

  -- `EvaluateCondition` of graph.go. A step with no condition matches.
  unfoldable pub evaluate_condition : String → Map Value → Action Bool
  unfolding step_by_id
  evaluate_condition id env = do
    step ← step_by_id id (step_not_found id)
    n ← ask
    if step.condition == "" then pure true else as_bool (world.cel n step.condition env)

  -- The step is finished and then resolved, as the condition says.
  unfoldable pub settle_branch : Bool → String → Action (List String)
  unfolding finish_step_success finish_step_skipped complete skip
  settle_branch true id = do finish_step_success world id "{\"matched\":true}"; complete id
  settle_branch false id = do finish_step_skipped world id; skip id

  unfoldable pub handle_branch_step : Step → Action (List String)
  unfolding start_step build_input evaluate_condition settle_branch save_checkpoint
  handle_branch_step step = do
    start_step world step.id
    env ← build_input world step
    matched ← evaluate_condition step.id env
    ready ← settle_branch matched step.id
    save_checkpoint world
    pure ready
