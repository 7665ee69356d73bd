-- ===== src/Api/Manager.antt =====
-- internal/api/manager.go: the workflows, and the latest run of each. The lock is left out: a method
-- is one change of the state. `sched.Cancel` only cancels the run's context, whose answers belong to
-- the scheduler's world.
pub mod Found
use agent_exec_engine.Prelude.{
  ℕ, String, Bool, true, false, List, [], ◌∷◌, Option, none, some, if◌then◌else◌, ◌==◌, Map, lookup,
  insert, keys, contains, Result, ok, err, ◌>>=◌, ◌>>◌, fail_if,
}
use Prim.Native.Nat.{zero, suc}
use agent_exec_engine.Types.{Step, Workflow, WorkflowRun, Value}
use agent_exec_engine.Dag.Graph.{GraphError}
use agent_exec_engine.Dag.Scheduler.Machine.{World, Scheduler, Failure}
use agent_exec_engine.Dag.Scheduler.Batch.{new_scheduler}
use agent_exec_engine.Dag.Scheduler.Loop.{run, resume}

pub data ManagerError : Type 0 where
  name_required no_steps step_id_required : ManagerError
  duplicate_step_id workflow_not_found run_not_found : String → ManagerError
  scheduler_refused : GraphError → ManagerError
  resume_failed : Failure → ManagerError

pub record Manager : Type 0 where
  pub workflows : Map Workflow
  pub schedulers : Map Scheduler
  pub runs : Map WorkflowRun
  pub run_index : Map String

abbrev pub new_manager : Manager
new_manager = record { workflows = []; schedulers = []; runs = []; run_index = [] }

-- The loop of `validateWorkflow`, with the IDs that were seen.
unfoldable pub validate_steps : List String → List Step → Result ManagerError (Unit {0})
validate_steps seen [] = ok tt
validate_steps seen (step ∷ steps) = do
  fail_if (step.id == "") step_id_required
  fail_if (contains seen step.id) (duplicate_step_id step.id)
  validate_steps (step.id ∷ seen) steps

abbrev has_no_steps : List Step → Bool
has_no_steps [] = true
has_no_steps (step ∷ steps) = false

unfoldable pub validate_workflow : Workflow → Result ManagerError (Unit {0})
unfolding validate_steps
validate_workflow wf = do
  fail_if (wf.name == "") name_required
  fail_if (has_no_steps wf.steps) no_steps
  validate_steps [] wf.steps

-- What is new for a run: `uuid.NewString()` for the workflow and for the run, and the clock.
pub record Fresh : Type 0 where
  pub workflow_id : String
  pub run_id : String
  pub now : ℕ

-- `wf.ID` and `wf.CreatedAt`, where they are not set; the zero time is 0.
unfoldable pub fill_workflow : Fresh → Workflow → Workflow
fill_workflow fresh wf = record wf {
  id = if wf.id == "" then fresh.workflow_id else wf.id;
  created_at = elim (wf.created_at) [ zero ↦ fresh.now | suc n ↦ suc n ];
}

abbrev pub scheduled : Result GraphError Scheduler → Result ManagerError Scheduler
scheduled (ok scheduler) = ok scheduler
scheduled (err e) = err (scheduler_refused e)

unfoldable pub add_run : Workflow → Scheduler → Manager → Manager
add_run wf scheduler m = record {
  workflows = insert wf.id wf m.workflows;
  schedulers = insert scheduler.run.id scheduler m.schedulers;
  runs = insert scheduler.run.id scheduler.run m.runs;
  run_index = insert wf.id scheduler.run.id m.run_index;
}

-- The loop of `ListWorkflows` over the keys, in the order in which Go visits them.
unfoldable workflows_from : Map Workflow → List String → List Workflow
workflows_from workflows [] = []
workflows_from workflows (id ∷ ids) =
    let rest = workflows_from workflows ids in
    elim (lookup id workflows) [ none ↦ rest | some wf ↦ wf ∷ rest ]

unfoldable list_workflows : (List String → List String) → Manager → List Workflow
unfolding workflows_from
list_workflows range m = workflows_from m.workflows (range (keys m.workflows))

unfoldable pub get_workflow : String → Manager → Option Workflow
get_workflow id m = lookup id m.workflows

-- The run's scheduler, as `ResumeWorkflow` and `CancelWorkflow` find it.
unfoldable find_scheduler : String → Manager → Result ManagerError (String × Scheduler)
find_scheduler workflow_id m = elim (lookup workflow_id m.run_index) [
  | none ↦ err (workflow_not_found workflow_id)
  | some run_id ↦ elim (lookup run_id m.schedulers) [
    | none ↦ err (run_not_found run_id)
    | some scheduler ↦ ok (run_id, scheduler)
  ]
]

-- A run is looked up, and kept as its scheduler has it now.
abbrev kept_run : Manager → String → Option Scheduler → Option WorkflowRun × Manager
kept_run m run_id none = (lookup run_id m.runs, m)
kept_run m run_id (some scheduler) =
    (some scheduler.run, record m { runs = insert run_id scheduler.run m.runs })

abbrev run_under : Manager → Option String → Option WorkflowRun × Manager
run_under m none = (none, m)
run_under m (some run_id) = kept_run m run_id (lookup run_id m.schedulers)

unfoldable pub get_run : String → Manager → Option WorkflowRun × Manager
get_run workflow_id m = run_under m (lookup workflow_id m.run_index)

unfoldable pub cancel_workflow : String → Manager → Result ManagerError (Unit {0})
unfolding find_scheduler
cancel_workflow workflow_id m = find_scheduler workflow_id m >>= λ found. ok tt

module _ (world : World) where
  unfoldable pub create_and_run :
      Fresh → Workflow → Manager → Result ManagerError (WorkflowRun × Manager)
  unfolding fill_workflow validate_workflow add_run new_scheduler
  create_and_run fresh given m = do
    let wf = fill_workflow fresh given
    validate_workflow wf
    scheduler ← scheduled (new_scheduler world fresh.run_id fresh.now wf)
    ok (scheduler.run, add_run wf scheduler m)

  -- The goroutine of `CreateAndRun`: the run is over, and its result is kept.
  unfoldable finish_run : ℕ → String → Manager → Manager
  unfolding run
  finish_run fuel run_id m = elim (lookup run_id m.schedulers) [
    | none ↦ m
    | some scheduler ↦
        let (outcome, after) = run world fuel scheduler in
        record m {
          schedulers = insert run_id after m.schedulers;
          runs = insert run_id after.run m.runs;
        }
  ]

  abbrev pub resumed : Result Failure (Unit {0}) → Result ManagerError (Unit {0})
  resumed (ok done) = ok tt
  resumed (err e) = err (resume_failed e)

  unfoldable pub resume_workflow :
      ℕ → String → String → Map Value → Manager → Result ManagerError (Unit {0}) × Manager
  unfolding find_scheduler resume
  resume_workflow fuel workflow_id step_id input m = elim (find_scheduler workflow_id m) [
    | err e ↦ (err e, m)
    | ok (run_id, scheduler) ↦
        let (outcome, after) = resume world fuel step_id input scheduler in
        (resumed outcome, record m { schedulers = insert run_id after m.schedulers })
  ]
