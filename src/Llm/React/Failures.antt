-- ===== src/Llm/React/Failures.antt =====
-- internal/llm/react_executor.go: how the loop can fail.
use Prim.Native.Nat.{zero, suc}
use agent_exec_engine.Prelude.{
  ℕ, String, true, false, ◌≡◌, refl, ◌⊎◌, subst, List, [], ◌∷◌, some, Map, Result, ok, err, arith,
  Bool-cases, inl, inr,
}
use agent_exec_engine.Prelude.Logged.Growth.{Outcome, >>=-Outcome}
use agent_exec_engine.Types.{Value, Step}
use agent_exec_engine.Mcp.Registry.{Registry}
use agent_exec_engine.Llm.Message.{ChatMessage}
use agent_exec_engine.Llm.Gateway.{
  chat_request, ChatResponse, Choice, LlmError, too_many_rounds, Gateway, GatewayCall, Run,
}
use agent_exec_engine.Llm.Client.{Client, chat}
use agent_exec_engine.Llm.Client.Failures.{has_choices, is_outside, IsChat, chat-IsChat}
use agent_exec_engine.Llm.React.{
  ReactStep, ReactExecutor, ReactTexts, max_react_rounds, parse_react_response, follow_thought,
  first_content, react_loop, execute,
}

-- An error of a chat request, or the end of the rounds.
pub IsReactError : LlmError → Type 0
IsReactError e = (is_outside e ≡ false) ⊎ (e ≡ too_many_rounds)

abbrev Ends : {A : Type 0} → Result LlmError A → Type 0
Ends r = Outcome (λ a. Unit {0}) IsReactError r

chat-error :
    (r : Result LlmError ChatResponse)
    → IsChat r
    → Outcome (λ response. has_choices response ≡ true) IsReactError r
unfolding IsReactError
chat-error (ok response) is_chat = is_chat
chat-error (err e) is_chat = inl is_chat

module _ (world : Gateway) (texts : ReactTexts) (client : Client) (registry : Registry) where
  abbrev executor : ReactExecutor
  executor = record { client = client; registry = some registry }

  first_content-Ends :
      (choices : List Choice) (response : ChatResponse)
      → response.choices ≡ choices
      → has_choices response ≡ true
      → (calls : List GatewayCall) → Ends (first_content world texts choices calls).0
  first_content-Ends [] response same has calls = absurd (ground (arith, same, has))
  first_content-Ends (choice ∷ others) response same has calls = tt

  follow_thought-Ends :
      (step : Step) (round : ℕ) (trajectory : List ReactStep) (messages : List ChatMessage)
      (again : List ReactStep → List ChatMessage → Run String) (content : String)
      → ((later : List ReactStep) (said : List ChatMessage) (calls : List GatewayCall)
          → Ends (again later said calls).0)
      → (calls : List GatewayCall)
      → Ends
          (follow_thought world texts executor step round trajectory messages again content calls).0
  unfolding follow_thought
  follow_thought-Ends step round trajectory messages again content rest calls =
      let (thought, action, action_input) = parse_react_response content in
      elim (Bool-cases (texts.equal_fold action "finish")) [
        | inl done ↦ rw done tt
        | inr going ↦ rw going (rest _ _ _)
      ]

  react_loop-Ends :
      (left : ℕ) (step : Step) (round : ℕ) (trajectory : List ReactStep)
      (messages : List ChatMessage) (calls : List GatewayCall)
      → Ends (react_loop world texts left executor step round trajectory messages calls).0
  unfolding react_loop IsReactError
  react_loop-Ends zero step round trajectory messages calls = inr refl
  react_loop-Ends (suc left) step round trajectory messages calls =
      >>=-Outcome (λ response. has_choices response ≡ true) (λ (answer : String). Unit {0})
        IsReactError (chat world client (chat_request messages [])) _
        (λ before. chat-error _ (chat-IsChat world client _ before))
        (λ response has.
          >>=-Outcome (λ (content : String). Unit {0}) (λ (answer : String). Unit {0}) IsReactError
            (first_content world texts response.choices)
            (λ content.
              follow_thought world texts executor step round trajectory messages
                (react_loop world texts left executor step (suc round)) content)
            (first_content-Ends response.choices response refl has)
            (λ content u.
              follow_thought-Ends step round trajectory messages
                (react_loop world texts left executor step (suc round)) content
                (react_loop-Ends left step (suc round))))
        calls

-- With a registry, a ReAct step fails only where a chat request does or the rounds are over: no
-- failure of a tool and no answer of the model ends it, and the response always has a first choice.
pub execute-Ends :
    (world : Gateway) (texts : ReactTexts) (client : Client) (registry : Registry)
    → (step : Step) (input : Map Value) (calls : List GatewayCall) (e : LlmError)
    → (execute world texts
        (record { client = client; registry = some registry })
        step
        input
        calls).0
      ≡ err e
    → IsReactError e
unfolding execute
execute-Ends world texts client registry step input calls e same =
    subst (Outcome (λ (answer : String). Unit {0}) IsReactError) same
      (react_loop-Ends world texts client registry max_react_rounds step 0 [] _ calls)
