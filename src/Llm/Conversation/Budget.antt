-- ===== src/Llm/Conversation/Budget.antt =====
-- internal/llm/executor.go: what the rounds of a conversation may ask of the gateway.
use Prim.Native.Nat.{zero, suc}
use agent_exec_engine.Prelude.{
  ℕ, ◌+◌, ◌*◌, String, List, [], ◌∷◌, ◌++◌, Option, none, some, Map, Result, ok, err, arith,
  Bool-cases, inl, inr, ◌==◌,
}
use agent_exec_engine.Prelude.Logged.{lift, ◌>>=◌}
use agent_exec_engine.Prelude.Logged.Growth.{Spends, >>=-Spends}
use agent_exec_engine.Types.{Value, ToolCall, ToolResult}
use agent_exec_engine.Mcp.Registry.{Registry, RpcError}
use agent_exec_engine.Llm.Message.{ChatMessage, ChatToolCall}
use agent_exec_engine.Llm.Gateway.{
  chat_request, Tool, Choice, LlmError, no_registry, index_out_of_range, too_many_rounds, Gateway,
  Run,
}
use agent_exec_engine.Llm.Client.{chat}
use agent_exec_engine.Llm.Client.Attempts.{Spent, widen-Spent, chat-Spends}
use agent_exec_engine.Llm.Conversation.{
  LlmExecutor, read_reply, call_tool, handle_tool_call, handle_tool_calls, use_tools, follow_choice,
  run_conversation, choose_tool_call_id,
}
use agent_exec_engine.Llm.Prompt.{decode_arguments}

module _ (granted released : String → ℕ) where
  abbrev pub Within : {A : Type 0} → ℕ → Run A → Type 0
  Within n run = Spends (Spent granted released) n run

  pub lift-Within : {A : Type 0} (n : ℕ) (r : Result LlmError A) → Within n (lift r)
  lift-Within n r used calls spent =
      widen-Spent granted released used (used + n) calls (omega arith) spent

  pub >>=-Within :
      {A B : Type 0} (m n : ℕ) (first : Run A) (next : A → Run B)
      → Within m first
      → ((a : A) → Within n (next a))
      → Within (m + n) (first >>= next)
  >>=-Within = >>=-Spends (Spent granted released) (widen-Spent granted released)

  module _ (world : Gateway) where
    pub call_tool-Within :
        (registry : Registry) (asked : ToolCall) → Within 0 (call_tool world registry asked)
    call_tool-Within registry asked used calls spent = record {
      posted = omega (arith, spent.posted);
      same_grants = spent.same_grants;
      same_releases = spent.same_releases;
    }

    handle_tool_call-Within :
        (registry : Registry) (messages : List ChatMessage) (asked : ChatToolCall)
        → Within 0 (handle_tool_call world registry messages asked)
    unfolding handle_tool_call
    handle_tool_call-Within registry messages asked used calls =
        let call_id = choose_tool_call_id world asked.id calls in
        let call_of : Map Value → ToolCall = λ arguments. record {
          id = call_id;
          tool_name = asked.function.name;
          input = arguments;
        } in
        let read = λ (reply : Result RpcError ToolResult).
          lift (read_reply world asked.function.name call_id messages reply) in
        let decoded = decode_arguments world asked.function.arguments in
        >>=-Within {B = List ChatMessage} 0 0 (lift decoded)
          (λ arguments. call_tool world registry (call_of arguments) >>= read)
          (lift-Within 0 decoded)
          (λ arguments.
            >>=-Within 0 0 (call_tool world registry (call_of arguments)) read
              (call_tool-Within registry (call_of arguments))
              (λ reply.
                lift-Within 0 (read_reply world asked.function.name call_id messages reply)))
          used calls

    handle_tool_calls-Within :
        (registry : Registry) (messages : List ChatMessage) (asked : List ChatToolCall)
        → Within 0 (handle_tool_calls world registry messages asked)
    unfolding handle_tool_calls
    handle_tool_calls-Within registry messages [] = lift-Within 0 (ok messages)
    handle_tool_calls-Within registry messages (first ∷ rest) =
        >>=-Within 0 0 (handle_tool_call world registry messages first) _
          (handle_tool_call-Within registry messages first)
          (λ answered. handle_tool_calls-Within registry answered rest)

    use_tools-Within :
        (registry : Option Registry) (messages : List ChatMessage) (assistant : ChatMessage)
        → Within 0 (use_tools world registry messages assistant)
    use_tools-Within none messages assistant =
        lift-Within {A = List ChatMessage} 0 (err no_registry)
    use_tools-Within (some registry) messages assistant =
        handle_tool_calls-Within registry (messages ++ assistant ∷ []) assistant.tool_calls

    follow_choice-Within :
        (n : ℕ) (registry : Option Registry) (messages : List ChatMessage)
        (again : List ChatMessage → Run String) (choices : List Choice)
        → ((later : List ChatMessage) → Within n (again later))
        → Within (0 + n) (follow_choice world registry messages again choices)
    follow_choice-Within n registry messages again [] rest used calls spent =
        lift-Within {A = String} (0 + n) (err index_out_of_range) used calls spent
    follow_choice-Within n registry messages again (choice ∷ others) rest used calls spent =
        elim (Bool-cases (choice.finish_reason == "tool_calls")) [
          | inl asked ↦ rw asked (
              >>=-Within 0 n (use_tools world registry messages choice.message) again
                (use_tools-Within registry messages choice.message) rest used calls spent)
          | inr done ↦ rw done (lift-Within (0 + n) (ok choice.message.content) used calls spent)
        ]

    pub run_conversation-Within :
        (rounds : ℕ) (e : LlmExecutor) (messages : List ChatMessage) (tools : List Tool)
        → Within (3 * rounds) (run_conversation world rounds e messages tools)
    unfolding run_conversation
    run_conversation-Within zero e messages tools used calls spent =
        lift-Within {A = String} (3 * zero) (err too_many_rounds) used calls spent
    run_conversation-Within (suc rounds) e messages tools used calls spent =
        widen-Spent granted released (used + (3 + (0 + 3 * rounds))) (used + 3 * suc rounds) _
          (omega arith)
          (>>=-Within 3 (0 + 3 * rounds) (chat world e.client (chat_request messages tools)) _
            (chat-Spends world e.client granted released _)
            (λ response.
              follow_choice-Within (3 * rounds) e.registry messages _ response.choices
                (λ later. run_conversation-Within rounds e later tools))
            used calls spent)
