-- ===== src/Types/Lifecycle.antt =====
-- pkg/types/event.go
use agent_exec_engine.Prelude.{ℕ, String, Map}
use agent_exec_engine.Types.Dynamic.{Value}

pub data EventType : Type 0 where
  workflow_started workflow_completed workflow_failed workflow_paused : EventType
  step_started step_completed step_failed step_timeout step_retry : EventType
  tool_called tool_completed tool_error : EventType
  sandbox_created sandbox_destroyed sandbox_oom : EventType
  checkpoint_saved checkpoint_loaded : EventType

pub record Event : Type 0 where
  pub type : EventType
  pub timestamp : ℕ
  pub run_id : String
  pub step_id : String
  pub tool_name : String
  pub message : String
  pub metadata : Map Value
