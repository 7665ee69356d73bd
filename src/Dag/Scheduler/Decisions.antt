-- ===== src/Dag/Scheduler/Decisions.antt =====
-- internal/dag/scheduler_run.go: how `handleBranchStep` decides a branch step.
use agent_exec_engine.Prelude.{
  ℕ, ◌≡◌, ◌⊎◌, String, Bool, true, [], Option, some, if◌then◌else◌, Map, lookup, ok,
}
use agent_exec_engine.Types.{StepStatus, success, skipped, Step, StepState, Value, boolean}
use agent_exec_engine.Dag.Step.{can_transition}
use agent_exec_engine.Dag.Scheduler.Machine.{World, Scheduler}
use agent_exec_engine.Dag.Scheduler.Steps.{build_input_from}

-- The step in the graph has no condition, or CEL says of its condition whether it holds.
record IsAsked (world : World) (steps : Map Step) (id : String) (env : Map Value) (held : Bool)
    : Type 0 where
  node : Step
  there : lookup id steps ≡ some node
  answer :
      ((node.condition ≡ "") × (held ≡ true))
      ⊎ ((n : ℕ) × (world.cel n node.condition env ≡ ok (boolean held)))

-- A branch step that was started and decided.
pub record IsDecided (world : World) (step : Step) (s : Scheduler) (before : StepState)
    (result : Option StepState) : Type 0 where
  held : Bool
  asked :
      IsAsked world s.graph.steps step.id
        (build_input_from world s.step_outputs step.depends_on [])
        held
  after : StepState
  there : result ≡ some after
  started : can_transition before.status StepStatus.running ≡ true
  ended : after.status ≡ (if held then success else skipped)
  allowed : can_transition StepStatus.running after.status ≡ held
