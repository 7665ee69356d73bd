-- ===== src/Llm/Conversation.antt =====
-- internal/llm/executor.go: an LLM step, with its rounds of tool calls and its GPU reservation.
-- Spans and metrics are left out.
pub mod Budget
pub mod Settled
use Prim.Native.String.{◌++◌ as str_append}
use Prim.Native.Nat.{zero, suc}
use agent_exec_engine.Prelude.{
  ℕ, ◌+◌, ◌/◌, ◌^◌, String, Bool, true, false, ◌&&◌, ◌||◌, not, List, [], ◌∷◌, ◌++◌, map, length,
  Option, none, some, if◌then◌else◌, ◌==◌, ltb, Map, lookup, Result, ok, err,
}
use agent_exec_engine.Prelude.Int.{ℤ, pos, negsuc, is_positive}
use agent_exec_engine.Prelude.Texts.{trim_space}
use agent_exec_engine.Prelude.Logged.{◌>>=◌, ◌>>◌, return, lift}
use agent_exec_engine.Types.{
  Value, text, signed, float, Float64, finite, Step, ToolDefinition, ToolCall, ToolResult,
}
use agent_exec_engine.Mcp.Registry.{Registry, RpcError, Runtime, call, list}
use agent_exec_engine.Llm.Message.{ChatMessage, ChatToolCall}
use agent_exec_engine.Llm.Gateway.{
  chat_request, Tool, ChatRequest, ChatResponse, Choice, LlmError, index_out_of_range, no_registry,
  too_many_rounds, bad_arguments, gpu_failed, release_failed, tool_failed, rpc_failed, Gateway,
  GatewayCall, use_tool, request_gpu, release_gpu as release_call, Run,
}
use agent_exec_engine.Llm.Client.{Client, chat}
use agent_exec_engine.Llm.Prompt.{
  message_of, int_from_config, build_messages, definitions_to_tools, decode_arguments,
}

pub record LlmExecutor : Type 0 where
  pub client : Client
  pub registry : Option Registry
  pub has_scheduler : Bool

abbrev pub max_tool_rounds : ℕ
max_tool_rounds = 10

module _ (world : Gateway) where
  abbrev pub choose_tool_call_id : String → List GatewayCall → String
  choose_tool_call_id id calls = if id == "" then world.new_id calls else id

  -- How the conversation goes on after a tool's answer.
  unfoldable pub read_reply :
      String
      → String
      → List ChatMessage
      → Result RpcError ToolResult
      → Result LlmError (List ChatMessage)
  read_reply name call_id messages (err e) = err (rpc_failed name e)
  read_reply name call_id messages (ok result) =
      if result.is_error
      then err (tool_failed result.content)
      else ok (
          messages
          ++ record {
            role = "tool";
            content = result.content;
            tool_calls = [];
            tool_call_id = call_id;
          }
            ∷ [])

  -- The registry's call; the calls before tell the calls of a tool's code apart.
  abbrev pub call_tool : Registry → ToolCall → Run (Result RpcError ToolResult)
  call_tool registry tool_call calls =
      (ok (call world.runtime (length calls) registry tool_call).reply, use_tool tool_call ∷ calls)

  -- The body of the loop of `handleToolCalls`.
  unfoldable pub handle_tool_call :
      Registry → List ChatMessage → ChatToolCall → Run (List ChatMessage)
  unfolding decode_arguments read_reply
  handle_tool_call registry messages asked calls =
      let call_id = choose_tool_call_id asked.id calls in
      (do
        arguments ← lift (decode_arguments world asked.function.arguments)
        reply ←
            call_tool registry
              (record { id = call_id; tool_name = asked.function.name; input = arguments })
        lift (read_reply asked.function.name call_id messages reply))
        calls

  unfoldable pub handle_tool_calls :
      Registry → List ChatMessage → List ChatToolCall → Run (List ChatMessage)
  unfolding handle_tool_call
  handle_tool_calls registry messages [] = return messages
  handle_tool_calls registry messages (asked ∷ rest) = do
    answered ← handle_tool_call registry messages asked
    handle_tool_calls registry answered rest

  -- The model asked for tools.
  abbrev pub use_tools : Option Registry → List ChatMessage → ChatMessage → Run (List ChatMessage)
  use_tools none messages assistant = lift (err no_registry)
  use_tools (some registry) messages assistant =
      handle_tool_calls registry (messages ++ assistant ∷ []) assistant.tool_calls

  -- The first choice decides; `Choices[0]` panics where there is none.
  abbrev pub follow_choice :
      Option Registry
      → List ChatMessage
      → (List ChatMessage → Run String)
      → List Choice
      → Run String
  follow_choice registry messages again [] = lift (err index_out_of_range)
  follow_choice registry messages again (choice ∷ others) =
      if choice.finish_reason == "tool_calls"
      then use_tools registry messages choice.message >>= again
      else return choice.message.content

  -- The loop of `runConversation`; the first argument counts the rounds that are left.
  unfoldable pub run_conversation : ℕ → LlmExecutor → List ChatMessage → List Tool → Run String
  unfolding handle_tool_calls
  run_conversation zero e messages tools = lift (err too_many_rounds)
  run_conversation (suc rounds) e messages tools = do
    response ← chat world e.client (chat_request messages tools)
    follow_choice e.registry messages (λ later. run_conversation rounds e later tools)
        response.choices

  abbrev pub needs_gpu : LlmExecutor → Step → Bool
  needs_gpu e step = is_positive (int_from_config world step.config "gpu_count") && e.has_scheduler

  abbrev pub failed_with : (String → LlmError) → Option String → Result LlmError (Unit {0})
  failed_with wrap none = ok tt
  failed_with wrap (some e) = err (wrap e)

  abbrev pub request : Step → Run (Unit {0})
  request step calls =
      let answer = world.on_request_gpu calls in
      let count = int_from_config world step.config "gpu_count" in
      let memory = int_from_config world step.config "gpu_memory_min" in
      (failed_with gpu_failed answer, request_gpu step.id count memory answer ∷ calls)

  abbrev release_held : Step → Run (Unit {0})
  release_held step calls =
      (failed_with release_failed (world.on_release_gpu calls), release_call step.id ∷ calls)

  unfoldable pub reserve_gpu : LlmExecutor → Step → Run (Unit {0})
  unfolding int_from_config
  reserve_gpu e step = if needs_gpu e step then request step else return tt

  unfoldable pub release_gpu : LlmExecutor → Step → Run (Unit {0})
  unfolding int_from_config
  release_gpu e step = if needs_gpu e step then release_held step else return tt

  -- The deferred release; its error counts only where there is no other.
  abbrev pub after_release :
      Result LlmError String
      → Result LlmError (Unit {0}) × List GatewayCall
      → Result LlmError String × List GatewayCall
  after_release (err e) (released, calls) = (err e, calls)
  after_release (ok output) (err e, calls) = (err e, calls)
  after_release (ok output) (ok done, calls) = (ok output, calls)

  abbrev pub finish :
      LlmExecutor
      → Step
      → Result LlmError String × List GatewayCall
      → Result LlmError String × List GatewayCall
  finish e step (result, calls) = after_release result (release_gpu e step calls)

  unfoldable pub execute : LlmExecutor → Step → Map Value → Run String
  unfolding reserve_gpu release_gpu build_messages definitions_to_tools run_conversation
  execute e step input = do
    reserve_gpu e step
    λ calls. finish e step (
        run_conversation max_tool_rounds e (build_messages world step.config input)
          (definitions_to_tools world e.registry) calls)
