-- ===== src/Dag/Scheduler/Tests.antt =====
-- Steps of a small workflow that are run, skipped and resumed, and the theorems at concrete
-- inputs.
use agent_exec_engine.Prelude.{
  keys, count, Result, eq_iff, ℕ, ◌≡◌, refl, true, false, [], ◌∷◌, none, some, if◌then◌else◌, ltb,
  lookup, insert, delete, ok, err, arith,
}
use agent_exec_engine.Prelude.Int.{pos}
use agent_exec_engine.Types.{
  branch, StepStatus, success, llm_call, Workflow, WorkflowStatus, RetryPolicy, Step, StepState,
  boolean, nan,
}
use agent_exec_engine.Dag.Samples.{in_order, in_order-IsOrder, step_of}
use agent_exec_engine.Dag.Step.{can_transition, transition_with_log}
use agent_exec_engine.Dag.Graph.{
  new_graph, empty, step_count, ready_steps, mark_complete, resolve_step,
}
use agent_exec_engine.Dag.Graph.Wellformed.{deps_in}
use agent_exec_engine.Dag.Scheduler.Open.{is_settled}
use agent_exec_engine.Dag.Scheduler.Machine.{
  not_paused_on, Attempt, World, Scheduler, get_state, put_state,
}
use agent_exec_engine.Dag.Scheduler.Steps.{emit, save_checkpoint}
use agent_exec_engine.Dag.Scheduler.Ends.{run-is_cut}
use agent_exec_engine.Dag.Scheduler.Finishes.{IsOver, run-IsOver}
use agent_exec_engine.Dag.Scheduler.Batch.{
  execute_batch, init_step_states, new_scheduler, execute_step, complete,
}
use agent_exec_engine.Dag.Scheduler.Loop.{complete_human_step, run}
use agent_exec_engine.Dag.Scheduler.Retries.{is_cut, execute_step-is_cut}
use agent_exec_engine.Dag.Scheduler.Order.Rounds.{Ordered}
use agent_exec_engine.Dag.Scheduler.Order.Reached.{created, ran, Reached-deps}
use agent_exec_engine.Dag.Scheduler.Resume.{now, batched, complete_human_step-once}

abbrev answer : ℕ → Attempt
answer n =
    if ltb n 3
    then record {
      output = "";
      error = some (record { text = "busy"; canceled = false });
      ctx_err = none;
    }
    else record { output = "done"; error = none; ctx_err = none }

-- The executors fail at first; no condition holds; there are no checkpoints and no events.
abbrev world : World
world = record {
  range = in_order;
  now = λ n. n;
  has_executor = λ type. true;
  execute = λ n step input. answer n;
  run_ctx_err = λ n. none;
  interleave = λ n ids. ids;
  cel = λ n expression input. ok (boolean false);
  unmarshal = λ text. none;
  marshal = λ input. ok "{}";
  save = none;
  accepts = none;
  error_text = λ failure. "failure";
  retry_text = λ n max. "retry";
}

abbrev policy : RetryPolicy
policy = record { max_retries = pos 2; backoff = pos 0; max_backoff = pos 0; backoff_mult = nan }

abbrev step : Step
step = record (step_of "a" llm_call []) { retry = some policy }

abbrev waiting : StepState
waiting = record {
  step_id = "a";
  status = StepStatus.pending;
  started_at = none;
  completed_at = none;
  output = "";
  error = "";
  retry_count = 0;
  tokens_used = pos 0;
}

abbrev scheduler : Scheduler
scheduler = record {
  workflow = record { id = "w"; name = ""; steps = step ∷ []; metadata = []; created_at = 0 };
  graph = empty;
  run = record {
    id = "r";
    workflow_id = "w";
    status = WorkflowStatus.running;
    step_states = ("a", waiting) ∷ [];
    input = [];
    output = [];
    started_at = 0;
    completed_at = none;
  };
  step_outputs = [];
  checkpoint_version = 0;
  paused_step_id = "";
  events = [];
  asked = 0;
}

execute_step-is_cut_example : is_cut (execute_step world step [] scheduler).0 ≡ false
execute_step-is_cut_example = execute_step-is_cut world step [] scheduler

-- `a` is a branch step whose condition does not hold.
abbrev choice : Step
choice = record (step_of "a" branch []) { condition = "x > 1" }

abbrev deciding : Scheduler
deciding = record scheduler { graph = record empty { steps = ("a", choice) ∷ [] } }

-- The run waits for `a`.
abbrev paused_on : Scheduler
paused_on = record scheduler {
  run = record (scheduler.run) {
    step_states = ("a", record waiting { status = StepStatus.running }) ∷ [];
  };
  paused_step_id = "a";
}

complete_human_step-once_example :
    (paused_on.paused_step_id ≡ "a")
    × ((complete_human_step world "a" []
          (execute_batch world [] (complete_human_step world "a" [] paused_on).1).1).0
        ≡ err (not_paused_on "a"))
unfolding complete_human_step get_state put_state emit complete save_checkpoint mark_complete
    resolve_step transition_with_log can_transition lookup insert delete
complete_human_step-once_example =
    complete_human_step-once world "a" [] paused_on [] refl
      (execute_batch world [] (complete_human_step world "a" [] paused_on).1).1 (batched [] now) "a"
      [] (λ e. absurd (ground (arith, e, eq_iff "a" "")))

abbrev workflow : Workflow
workflow = record {
  id = "w";
  name = "";
  steps = step ∷ record step { id = "b"; depends_on = "a" ∷ [] } ∷ [];
  metadata = [];
  created_at = 0;
}

abbrev scheduler_or : {E : Type 0} → Result E Scheduler → Scheduler
scheduler_or (ok s) = s
scheduler_or (err e) = scheduler

started : Scheduler
started = scheduler_or (new_scheduler world "r" 0 workflow)

started_accepted : new_scheduler world "r" 0 workflow ≡ ok started
unfolding started new_scheduler new_graph init_step_states lookup insert keys
started_accepted = refl

run-is_cut_example : is_cut (run world 3 started).0 ≡ false
run-is_cut_example =
    run-is_cut world (λ n. record { counts = λ xs k. refl }) "r" 0 workflow started started_accepted
      3 (omega arith)

run-ok : (run world 3 started).0 ≡ ok tt
unfolding run started lookup new_scheduler new_graph insert keys step_count ready_steps
    transition_with_log mark_complete delete
run-ok = refl

run-IsOver_example : IsOver (run world 3 started).1
run-IsOver_example = run-IsOver world 3 started run-ok

orders : Ordered world
orders = record { ranges = in_order-IsOrder; interleaves = λ n. record { counts = λ xs k. refl } }

-- `b` runs after `a`, which it depends on.
finished_b : StepState
finished_b = record {
  step_id = "b";
  status = success;
  started_at = some 7;
  completed_at = some 9;
  output = "done";
  error = "";
  retry_count = 0;
  tokens_used = pos 0;
}

run-b : lookup "b" (run world 3 started).1.run.step_states ≡ some finished_b
unfolding run started lookup new_scheduler new_graph insert keys step_count ready_steps
    transition_with_log mark_complete delete finished_b
run-b = refl

Reached-deps_example :
    (done : StepState) × (lookup "a" (run world 3 started).1.run.step_states ≡ some done)
    × (is_settled done.status ≡ true)
unfolding deps_in count finished_b
Reached-deps_example =
    Reached-deps world workflow orders (run world 3 started).1
      (ran 3 (created "r" 0 started started_accepted)) "b" finished_b run-b
      (λ e. absurd (ground (arith, e))) "a" (omega arith)
