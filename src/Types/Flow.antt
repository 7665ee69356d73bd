-- ===== src/Types/Flow.antt =====
-- pkg/types/workflow.go. Durations are int64 nanoseconds and times are counted in nanoseconds.
use agent_exec_engine.Prelude.{ℕ, String, Bool, List, Option, Map, eqb}
use agent_exec_engine.Prelude.Int.{ℤ}
use agent_exec_engine.Types.Dynamic.{Float64, Value}

pub data StepStatus : Type 0 where
  pending running success failed timeout skipped cancelled : StepStatus

-- The statuses are constants with different texts: they are told apart by a number each.
abbrev pub status_code : StepStatus → ℕ
status_code pending = 0
status_code running = 1
status_code success = 2
status_code failed = 3
status_code timeout = 4
status_code skipped = 5
status_code cancelled = 6

abbrev pub status_eq : StepStatus → StepStatus → Bool
status_eq a b = eqb (status_code a) (status_code b)

pub data WorkflowStatus : Type 0 where
  pending running completed failed paused : WorkflowStatus

-- A step's type is a text, so it may be none of the constants.
pub data StepType : Type 0 where
  llm_call tool_call human branch parallel react : StepType
  other : String → StepType

pub record RetryPolicy : Type 0 where
  pub max_retries : ℤ
  pub backoff : ℤ
  pub max_backoff : ℤ
  pub backoff_mult : Float64

pub record Step : Type 0 where
  pub id : String
  pub name : String
  pub type : StepType
  pub depends_on : List String
  pub config : Map Value
  pub tool_name : String
  pub timeout : ℤ
  pub retry : Option RetryPolicy
  pub condition : String
  pub metadata : Map String

pub record StepState : Type 0 where
  pub step_id : String
  pub status : StepStatus
  pub started_at : Option ℕ
  pub completed_at : Option ℕ
  pub output : String
  pub error : String
  pub retry_count : ℕ
  pub tokens_used : ℤ

pub record Workflow : Type 0 where
  pub id : String
  pub name : String
  pub steps : List Step
  pub metadata : Map String
  pub created_at : ℕ

pub record WorkflowRun : Type 0 where
  pub id : String
  pub workflow_id : String
  pub status : WorkflowStatus
  pub step_states : Map StepState
  pub input : Map Value
  pub output : Map Value
  pub started_at : ℕ
  pub completed_at : Option ℕ

pub record Checkpoint : Type 0 where
  pub run_id : String
  pub workflow_id : String
  pub step_states : Map StepState
  pub timestamp : ℕ
  pub version : ℕ
