-- ===== src/Dag/Scheduler/Starts.antt =====
-- internal/dag/scheduler.go: how much is open in a new scheduler.
use agent_exec_engine.Prelude.{
  ℕ, ◌+◌, ◌≤◌, ◌≡◌, String, List, [], ◌∷◌, none, Map, insert, ok, arith, Result-cases, inl, inr,
  length,
}
use agent_exec_engine.Prelude.Int.{pos}
use agent_exec_engine.Types.{StepStatus, StepState, Workflow, Step}
use agent_exec_engine.Dag.Scheduler.Machine.{World, Scheduler}
use agent_exec_engine.Dag.Graph.{new_graph}
use agent_exec_engine.Dag.Scheduler.Batch.{new_scheduler, init_step_states}
use agent_exec_engine.Dag.Scheduler.Open.{count_open, open_in}

count_open-insert-le :
    (id : String) (state : StepState) (states : Map StepState)
    → count_open (insert id state states) ≤ count_open states + 1
unfolding count_open insert
count_open-insert-le id state [] = ground arith
count_open-insert-le id state ((j, old) ∷ rest) = ground (arith, count_open-insert-le id state rest)

init_step_states-le :
    (steps : List Step) (states : Map StepState)
    → count_open (init_step_states steps states) ≤ count_open states + length steps
unfolding init_step_states
init_step_states-le [] states = omega arith
init_step_states-le (step ∷ rest) states =
    let fresh : StepState = record {
      step_id = step.id;
      status = StepStatus.pending;
      started_at = none;
      completed_at = none;
      output = "";
      error = "";
      retry_count = 0;
      tokens_used = pos 0;
    } in
    omega (
      arith,
      init_step_states-le rest (insert step.id fresh states),
      count_open-insert-le step.id fresh states,
    )

pub new_scheduler-open :
    (world : World) (run_id : String) (started_at : ℕ) (wf : Workflow) (s : Scheduler)
    → new_scheduler world run_id started_at wf ≡ ok s
    → open_in s ≤ length wf.steps
unfolding new_scheduler count_open
new_scheduler-open world run_id started_at wf s e =
    elim (Result-cases (new_graph world.range wf.steps)) [
      | inl (f, bad) ↦ absurd (ground (arith, bad, e))
      | inr (g, made) ↦ ground (arith, made, e, init_step_states-le wf.steps [])
    ]
