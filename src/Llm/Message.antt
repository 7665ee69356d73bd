-- ===== src/Llm/Message.antt =====
-- internal/llm/types.go and tokens.go: messages and the estimate of their tokens.
use Prim.Native.String.{len}
use agent_exec_engine.Prelude.{
  ℕ, ◌+◌, ◌/◌, String, Bool, not, ◌&&◌, List, [], ◌∷◌, if◌then◌else◌, ◌==◌,
}

pub record FunctionCall : Type 0 where
  pub name : String
  pub arguments : String

pub record ChatToolCall : Type 0 where
  pub id : String
  pub type : String
  pub function : FunctionCall

pub record ChatMessage : Type 0 where
  pub role : String
  pub content : String
  pub tool_calls : List ChatToolCall
  pub tool_call_id : String

abbrev pub is_system : ChatMessage → Bool
is_system m = m.role == "system"

-- The length of `json.Marshal` of the calls, a quarter of it, if there are calls.
abbrev call_tokens : (List ChatToolCall → String) → List ChatToolCall → ℕ
call_tokens marshal [] = 0
call_tokens marshal (c ∷ cs) = len (marshal (c ∷ cs)) / 4

module _ (marshal : List ChatToolCall → String) where
  -- `len` counts bytes, as in Go.
  unfoldable pub estimate_message_tokens : ChatMessage → ℕ
  estimate_message_tokens m =
      len m.content / 3
      + 4
      + (if m.role == "tool" && not (m.tool_call_id == "") then 10 else 0)
      + call_tokens marshal m.tool_calls

  unfoldable pub estimate_tokens : List ChatMessage → ℕ
  estimate_tokens [] = 0
  estimate_tokens (m ∷ ms) = estimate_message_tokens m + estimate_tokens ms
