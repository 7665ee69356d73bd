-- ===== src/Types/Tool.antt =====
-- pkg/types/tool.go
use agent_exec_engine.Prelude.{String, Bool, List, Map}
use agent_exec_engine.Prelude.Int.{ℤ}
use agent_exec_engine.Types.Dynamic.{Value}

pub record Property : Type 0 where
  pub type : String
  pub description : String
  pub enum : List String

pub record ToolSchema : Type 0 where
  pub type : String
  pub properties : Map Property
  pub required : List String

pub record ToolDefinition : Type 0 where
  pub name : String
  pub description : String
  pub input_schema : ToolSchema
  pub category : String
  pub sandboxed : Bool
  pub rate_limit : ℤ

pub record ToolCall : Type 0 where
  pub id : String
  pub tool_name : String
  pub input : Map Value

pub record ToolResult : Type 0 where
  pub tool_call_id : String
  pub content : String
  pub is_error : Bool
