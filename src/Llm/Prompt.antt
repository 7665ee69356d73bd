-- ===== src/Llm/Prompt.antt =====
-- internal/llm/executor.go: what a step's configuration and input make of its first request.
use Prim.Native.String.{◌++◌ as str_append}
use agent_exec_engine.Prelude.{
  String, List, [], ◌∷◌, map, Option, none, some, if◌then◌else◌, ◌==◌, Map, lookup, Result, ok, err,
}
use agent_exec_engine.Prelude.Int.{ℤ, pos}
use agent_exec_engine.Prelude.Texts.{trim_space}
use agent_exec_engine.Types.{Value, text, signed, float, to_int, ToolDefinition}
use agent_exec_engine.Mcp.Registry.{Registry, list}
use agent_exec_engine.Llm.Message.{ChatMessage}
use agent_exec_engine.Llm.Gateway.{Tool, LlmError, bad_arguments, Gateway}

abbrev pub message_of : String → String → ChatMessage
message_of role content = record {
  role = role;
  content = content;
  tool_calls = [];
  tool_call_id = "";
}

abbrev text_or_blank : Option Value → String
text_or_blank (some (text s)) = s
text_or_blank _ = ""

unfoldable pub string_from_config : Map Value → String → String
string_from_config config key = text_or_blank (lookup key config)

module _ (world : Gateway) where
  abbrev number_or_zero : Option Value → ℤ
  number_or_zero (some (signed n)) = n
  number_or_zero (some (float f)) = to_int world.out_of_range f
  number_or_zero _ = pos 0

  unfoldable pub int_from_config : Map Value → String → ℤ
  int_from_config config key = number_or_zero (lookup key config)

  abbrev joined : String → Option String → Map Value → String
  joined prompt none input = if prompt == "" then world.print_input input else prompt
  joined prompt (some payload) input =
      if prompt == ""
      then payload
      else str_append prompt (str_append "\n\nPrevious outputs:\n" payload)

  unfoldable pub render_user_content : Map Value → Map Value → String
  unfolding string_from_config
  render_user_content config [] = string_from_config config "prompt"
  render_user_content config (entry ∷ input) =
      joined (string_from_config config "prompt") (world.marshal_input (entry ∷ input))
        (entry ∷ input)

  unfoldable pub build_messages : Map Value → Map Value → List ChatMessage
  unfolding render_user_content
  build_messages config input =
      let system_prompt = string_from_config config "system_prompt" in
      let user = message_of "user" (render_user_content config input) ∷ [] in
      if system_prompt == "" then user else message_of "system" system_prompt ∷ user

  abbrev tool_of : ToolDefinition → Tool
  tool_of def = record {
    type = "function";
    function = record {
      name = def.name;
      description = def.description;
      parameters = def.input_schema;
    };
  }

  unfoldable pub definitions_to_tools : Option Registry → List Tool
  definitions_to_tools none = []
  definitions_to_tools (some registry) = map tool_of (list world.runtime registry)

  abbrev decoded_arguments : Result String (Map Value) → Result LlmError (Map Value)
  decoded_arguments (ok arguments) = ok arguments
  decoded_arguments (err e) = err (bad_arguments e)

  unfoldable pub decode_arguments : String → Result LlmError (Map Value)
  decode_arguments raw =
      if trim_space raw == "" then ok [] else decoded_arguments (world.decode_arguments raw)
