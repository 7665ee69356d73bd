-- ===== src/Llm/React.antt =====
-- internal/llm/react_executor.go: the loop of thought, action and observation. Spans and metrics are
-- left out.
pub mod Rounds
pub mod Failures
use Prim.Native.String.{◌++◌ as str_append}
use Prim.Native.Char.{Char, code}
use Prim.Native.Nat.{zero, suc}
use agent_exec_engine.Prelude.{
  ℕ, ◌+◌, ◌-◌, String, Bool, true, false, ◌&&◌, List, [], ◌∷◌, ◌++◌, length, Option, none, some,
  if◌then◌else◌, ◌==◌, eqb, leb, Map, Result, ok, err,
}
use agent_exec_engine.Prelude.Texts.{trim_space, has_prefix, trim_prefix, split, join}
use agent_exec_engine.Prelude.Logged.{◌>>=◌, ◌>>◌, return, lift}
use agent_exec_engine.Types.{Value, text, Step, ToolCall, ToolResult}
use agent_exec_engine.Mcp.Registry.{Registry, RpcError}
use agent_exec_engine.Llm.Message.{ChatMessage}
use agent_exec_engine.Llm.Gateway.{
  chat_request, ChatRequest, ChatResponse, Choice, LlmError, index_out_of_range, no_registry,
  too_many_rounds, Gateway, GatewayCall, Run,
}
use agent_exec_engine.Llm.Client.{Client, chat}
use agent_exec_engine.Llm.Prompt.{message_of, string_from_config, render_user_content}
use agent_exec_engine.Llm.Conversation.{call_tool}

pub record ReactStep : Type 0 where
  pub round : ℕ
  pub thought : String
  pub action : String
  pub action_input : String
  pub observation : String

pub record ReactExecutor : Type 0 where
  pub client : Client
  pub registry : Option Registry

-- What the package takes from elsewhere: the prompt, which is a constant, Unicode's case folding,
-- and `json.Marshal` of the result.
pub record ReactTexts : Type 0 where
  pub system_prompt : String
  pub equal_fold : String → String → Bool
  pub marshal_result : String → List ReactStep → Option String

abbrev pub max_react_rounds : ℕ
max_react_rounds = 15

-- The field that a line without a label belongs to.
pub data Field : Type 0 where
  no_field thought_field action_field action_input_field : Field

-- The lines of the thought and of the action's input, last first.
pub record Parsed : Type 0 where
  pub current : Field
  pub thought_lines : List String
  pub action : String
  pub action_input_lines : List String

abbrev add_to : Field → String → Parsed → Parsed
add_to thought_field line p = record p { thought_lines = line ∷ p.thought_lines }
add_to action_input_field line p = record p { action_input_lines = line ∷ p.action_input_lines }
add_to _ line p = p

-- The body of the loop over the lines.
unfoldable parse_line : String → Parsed → Parsed
parse_line line p =
    let trimmed = trim_space line in
    if has_prefix trimmed "Thought:"
    then record p {
      current = thought_field;
      thought_lines = trim_prefix trimmed "Thought:" ∷ p.thought_lines;
    }
    else if has_prefix trimmed "Action:"
    then record p { current = action_field; action = trim_space (trim_prefix trimmed "Action:") }
    else if has_prefix trimmed "Action Input:"
    then record p {
      current = action_input_field;
      action_input_lines = trim_prefix trimmed "Action Input:" ∷ p.action_input_lines;
    }
    else add_to p.current trimmed p

unfoldable parse_lines : List String → Parsed → Parsed
unfolding parse_line
parse_lines [] p = p
parse_lines (line ∷ lines) p = parse_lines lines (parse_line line p)

abbrev reversed : List String → List String → List String
reversed [] kept = kept
reversed (line ∷ lines) kept = reversed lines (line ∷ kept)

-- The thought, the action and its input; 10 is the number of the character that ends a line.
unfoldable pub parse_react_response : String → String × String × String
unfolding parse_lines
parse_react_response content =
    let p =
      parse_lines (split 10 content)
        (record { current = no_field; thought_lines = []; action = ""; action_input_lines = [] }) in
    (
      trim_space (join " " (reversed p.thought_lines [])),
      p.action,
      trim_space (join "\n" (reversed p.action_input_lines [])),
    )

module _ (world : Gateway) (texts : ReactTexts) where
  abbrev or_query : String → Result String (Map Value) → Map Value
  or_query raw (ok result) = result
  or_query raw (err e) = ("query", text raw) ∷ []

  unfoldable parse_action_input : String → Map Value
  parse_action_input raw =
      let trimmed = trim_space raw in
      if trimmed == "" then [] else or_query trimmed (world.decode_arguments trimmed)

  abbrev or_answer : String → Option String → String
  or_answer answer none = answer
  or_answer answer (some payload) = payload

  unfoldable pub build_result : String → List ReactStep → String
  build_result answer trajectory = or_answer answer (texts.marshal_result answer trajectory)

  -- A failure of a tool is an observation too.
  unfoldable pub observe : Result RpcError ToolResult → String
  observe (err e) = str_append "Error: " (world.rpc_message e)
  observe (ok result) =
      if result.is_error then str_append "Error: " result.content else result.content

  -- An action that does not finish.
  abbrev pub act : Option Registry → ToolCall → Run String
  act none asked = lift (err no_registry)
  act (some registry) asked = do reply ← call_tool world registry asked; return (observe reply)

  abbrev pub step_of : ℕ → String × String × String → String → ReactStep
  step_of round (thought, action, action_input) observation = record {
    round = round + 1;
    thought = thought;
    action = action;
    action_input = action_input;
    observation = observation;
  }

  -- A round after the model has answered; `again` is the rest of the loop.
  unfoldable pub follow_thought :
      ReactExecutor
      → Step
      → ℕ
      → List ReactStep
      → List ChatMessage
      → (List ReactStep → List ChatMessage → Run String)
      → String
      → Run String
  unfolding parse_react_response parse_action_input build_result observe
  follow_thought e step round trajectory messages again content =
      let parsed = parse_react_response content in
      let (thought, action, action_input) = parsed in
      let said = messages ++ message_of "assistant" content ∷ [] in
      if texts.equal_fold action "finish"
      then return
          (build_result action_input (trajectory ++ step_of round parsed "[Task completed]" ∷ []))
      else (do
        observation ← act e.registry (record {
          id = str_append "react-" (str_append step.id (str_append "-" (world.print_number round)));
          tool_name = action;
          input = parse_action_input action_input;
        })
        again (trajectory ++ step_of round parsed observation ∷ [])
            (said ++ message_of "user" (str_append "Observation: " observation) ∷ []))

  abbrev pub first_content : List Choice → Run String
  first_content [] = lift (err index_out_of_range)
  first_content (choice ∷ others) = return choice.message.content

  -- The loop of `Execute`; the first argument counts the rounds that are left.
  unfoldable pub react_loop :
      ℕ → ReactExecutor → Step → ℕ → List ReactStep → List ChatMessage → Run String
  unfolding follow_thought
  react_loop zero e step round trajectory messages = lift (err too_many_rounds)
  react_loop (suc left) e step round trajectory messages = do
    response ← chat world e.client (chat_request messages [])
    content ← first_content response.choices
    follow_thought e step round trajectory messages (react_loop left e step (suc round)) content

  unfoldable pub execute : ReactExecutor → Step → Map Value → Run String
  unfolding react_loop
  execute e step input =
      let custom = string_from_config step.config "system_prompt" in
      let system_prompt =
        if custom == ""
        then texts.system_prompt
        else str_append custom (str_append "\n\n" texts.system_prompt) in
      react_loop max_react_rounds e step 0 [] (
        message_of "system" system_prompt
        ∷ message_of "user" (render_user_content world step.config input)
        ∷ [])
