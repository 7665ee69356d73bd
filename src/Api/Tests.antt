-- ===== src/Api/Tests.antt =====
-- A workflow that is created.
use agent_exec_engine.Prelude.{
  ◌≡◌, refl, true, [], none, some, ok, err, lookup, insert, keys, contains, Result,
}
use agent_exec_engine.Types.{Workflow, WorkflowRun, WorkflowStatus, boolean}
use agent_exec_engine.Dag.Samples.{in_order, in_order-IsOrder, triangle}
use agent_exec_engine.Dag.Graph.{new_graph}
use agent_exec_engine.Dag.Graph.New.{IsAcyclic}
use agent_exec_engine.Dag.Scheduler.Machine.{World}
use agent_exec_engine.Dag.Scheduler.Batch.{init_step_states, new_scheduler}
use agent_exec_engine.Api.Manager.{
  Manager, Fresh, new_manager, validate_workflow, validate_steps, fill_workflow, add_run,
  create_and_run, get_run, get_workflow,
}
use agent_exec_engine.Api.Manager.Found.{create_and_run-found}

abbrev world : World
world = record {
  range = in_order;
  now = λ n. n;
  has_executor = λ type. true;
  execute = λ n step input. record { output = "done"; error = none; ctx_err = none };
  run_ctx_err = λ n. none;
  interleave = λ n ids. ids;
  cel = λ n expression input. ok (boolean true);
  unmarshal = λ text. none;
  marshal = λ input. ok "{}";
  save = none;
  accepts = none;
  error_text = λ failure. "failure";
  retry_text = λ n max. "retry";
}

abbrev fresh : Fresh
fresh = record { workflow_id = "w1"; run_id = "r1"; now = 7 }

abbrev given : Workflow
given = record { id = ""; name = "triangle"; steps = triangle; metadata = []; created_at = 0 }

abbrev no_run : WorkflowRun
no_run = record {
  id = "";
  workflow_id = "";
  status = WorkflowStatus.failed;
  step_states = [];
  input = [];
  output = [];
  started_at = 0;
  completed_at = none;
}

abbrev or_none : {E : Type 0} → Result E (WorkflowRun × Manager) → WorkflowRun × Manager
or_none (ok accepted) = accepted
or_none (err e) = (no_run, new_manager)

accepted : WorkflowRun × Manager
accepted = or_none (create_and_run world fresh given new_manager)

triangle_accepted : create_and_run world fresh given new_manager ≡ ok (accepted.0, accepted.1)
unfolding accepted create_and_run validate_workflow validate_steps fill_workflow add_run
    new_scheduler new_graph init_step_states lookup insert keys contains
triangle_accepted = refl

create_and_run-found_example :
    ((get_run "w1" accepted.1).0 ≡ some accepted.0)
    × (get_workflow "w1" accepted.1 ≡ some (record given { id = "w1"; created_at = 7 }))
    × IsAcyclic triangle
unfolding fill_workflow
create_and_run-found_example =
    create_and_run-found world in_order-IsOrder fresh given new_manager accepted.1 accepted.0
      triangle_accepted
