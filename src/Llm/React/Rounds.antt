-- ===== src/Llm/React/Rounds.antt =====
-- internal/llm/react_executor.go: what the loop may ask of the gateway.
use Prim.Native.Nat.{zero, suc}
use agent_exec_engine.Prelude.{
  ℕ, ◌+◌, ◌*◌, String, refl, List, [], ◌∷◌, ◌++◌, Option, none, some, Map, ok, err, arith,
  Bool-cases, inl, inr,
}
use agent_exec_engine.Prelude.Logged.{return}
use agent_exec_engine.Types.{Value, Step, ToolCall}
use agent_exec_engine.Mcp.Registry.{Registry}
use agent_exec_engine.Llm.Message.{ChatMessage}
use agent_exec_engine.Llm.Gateway.{
  chat_request, Choice, index_out_of_range, no_registry, too_many_rounds, Gateway, GatewayCall, Run,
}
use agent_exec_engine.Llm.Client.{chat}
use agent_exec_engine.Llm.Client.Attempts.{posts, grants, releases, widen-Spent, chat-Spends}
use agent_exec_engine.Llm.Conversation.{call_tool}
use agent_exec_engine.Llm.Conversation.Budget.{Within, lift-Within, >>=-Within, call_tool-Within}
use agent_exec_engine.Llm.Conversation.Settled.{IsSettled}
use agent_exec_engine.Llm.React.{
  ReactStep, ReactExecutor, ReactTexts, max_react_rounds, parse_react_response, build_result,
  observe, act, step_of, follow_thought, first_content, react_loop, execute,
}

module _ (world : Gateway) (texts : ReactTexts) (granted released : String → ℕ) where
  act-Within :
      (registry : Option Registry) (asked : ToolCall)
      → Within granted released 0 (act world texts registry asked)
  act-Within none asked = lift-Within granted released {A = String} 0 (err no_registry)
  act-Within (some registry) asked =
      >>=-Within granted released 0 0 (call_tool world registry asked)
        (λ reply. return (observe world texts reply))
        (call_tool-Within granted released world registry asked)
        (λ reply. lift-Within granted released 0 (ok (observe world texts reply)))

  first_content-Within :
      (choices : List Choice) → Within granted released 0 (first_content world texts choices)
  first_content-Within [] = lift-Within granted released {A = String} 0 (err index_out_of_range)
  first_content-Within (choice ∷ others) =
      lift-Within granted released 0 (ok choice.message.content)

  follow_thought-Within :
      (n : ℕ) (e : ReactExecutor) (step : Step) (round : ℕ) (trajectory : List ReactStep)
      (messages : List ChatMessage) (again : List ReactStep → List ChatMessage → Run String)
      (content : String)
      → ((later : List ReactStep) (said : List ChatMessage)
          → Within granted released n (again later said))
      → Within granted released
          (0 + n)
          (follow_thought world texts e step round trajectory messages again content)
  unfolding follow_thought
  follow_thought-Within n e step round trajectory messages again content rest used calls spent =
      let (thought, action, action_input) = parse_react_response content in
      elim (Bool-cases (texts.equal_fold action "finish")) [
        | inl done ↦ rw done (
            lift-Within granted released {A = String} (0 + n)
              (ok (
                build_result world texts action_input (
                  trajectory
                  ++ step_of world texts round (parse_react_response content) "[Task completed]"
                    ∷ [])))
              used calls spent)
        | inr going ↦ rw going (
            >>=-Within granted released 0 n (act world texts e.registry _) _
              (act-Within e.registry _) (λ observation. rest _ _) used calls spent)
      ]

  react_loop-Within :
      (left : ℕ) (e : ReactExecutor) (step : Step) (round : ℕ) (trajectory : List ReactStep)
      (messages : List ChatMessage)
      → Within granted released
          (3 * left)
          (react_loop world texts left e step round trajectory messages)
  unfolding react_loop
  react_loop-Within zero e step round trajectory messages used calls spent =
      lift-Within granted released {A = String} (3 * zero) (err too_many_rounds) used calls spent
  react_loop-Within (suc left) e step round trajectory messages used calls spent =
      widen-Spent granted released (used + (3 + (0 + (0 + 3 * left)))) (used + 3 * suc left) _
        (omega arith)
        (>>=-Within granted released 3 (0 + (0 + 3 * left))
          (chat world e.client (chat_request messages [])) _
          (chat-Spends world e.client granted released _)
          (λ response.
            >>=-Within granted released 0 (0 + 3 * left)
              (first_content world texts response.choices) _ (first_content-Within response.choices)
              (λ content.
                follow_thought-Within (3 * left) e step round trajectory messages
                  (react_loop world texts left e step (suc round)) content
                  (react_loop-Within left e step (suc round))))
          used calls spent)

-- A ReAct step posts at most forty-five requests to the gateway, retries included, and touches no
-- GPU reservation.
react-IsSettled :
    (world : Gateway) (texts : ReactTexts) (e : ReactExecutor) (step : Step) (input : Map Value)
    (calls : List GatewayCall)
    → IsSettled calls (execute world texts e step input calls).1 45
unfolding execute
react-IsSettled world texts e step input calls =
    let spent =
      react_loop-Within world texts (grants calls) (releases calls) max_react_rounds e step 0 [] _
        (posts calls) calls
        (record {
          posted = omega arith;
          same_grants = λ task. refl;
          same_releases = λ task. refl;
        }) in
    record {
      posted = spent.posted;
      settled = λ task. omega (arith, spent.same_grants task, spent.same_releases task);
    }
