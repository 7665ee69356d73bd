-- ===== src/Mcp/Samples.antt =====
-- A small registry with one guarded tool, for the tests.
use agent_exec_engine.Prelude.{
  String, false, List, [], ◌∷◌, some, none, Map, ok, ◌==◌, if◌then◌else◌,
}
use agent_exec_engine.Prelude.Int.{pos}
use agent_exec_engine.Types.{Value, text, ToolSchema, ToolDefinition, ToolCall}
use agent_exec_engine.Dag.Samples.{in_order}
use agent_exec_engine.Mcp.Guardrail.{Rule, block, warn, both_targets, input_target}
use agent_exec_engine.Mcp.Registry.{Registry, RegisteredTool, ToolHandler, Runtime}
use agent_exec_engine.Mcp.RateLimit.{new_rate_limiter, set_limit}
use agent_exec_engine.Mcp.Server.{Request, Codec, Server, request, no_json}

abbrev pub schema : ToolSchema
schema = record {
  type = "object";
  properties =
      ("path", record { type = "string"; description = "the file"; enum = [] })
      ∷ ("mode", record { type = "string"; description = ""; enum = "head" ∷ "tail" ∷ [] })
      ∷ [];
  required = "path" ∷ [];
}

abbrev pub input : Map Value
input = ("mode", text "tail") ∷ ("path", text "notes") ∷ []

abbrev pub rules : List Rule
rules =
    record { name = "curious"; pattern = λ s. s == "notes"; action = warn; target = input_target }
    ∷ record {
      name = "secrets";
      pattern = λ s. s == "secret";
      action = block;
      target = both_targets;
    }
    ∷ []

abbrev pub definition : ToolDefinition
definition = record {
  name = "file_reader";
  description = "";
  input_schema = schema;
  category = "file";
  sandboxed = false;
  rate_limit = pos 1;
}

-- A tool that answers with a secret.
abbrev pub leak : ToolHandler
leak n given = ok "secret"

abbrev pub tool : RegisteredTool
tool = record { definition = definition; handler = leak }

abbrev pub registry : Registry
registry = record { tools = ("file_reader", tool) ∷ []; guardrail = some rules }

abbrev pub joined : List String → String
joined [] = ""
joined (part ∷ parts) = part

abbrev pub runtime : Runtime
runtime = record { range = in_order; render = λ fields. "{}"; join = joined; tool_error = λ e. e }

abbrev pub tool_call : ToolCall
tool_call = record { id = "7"; tool_name = "file_reader"; input = input }

abbrev call_request : Request
call_request = record { jsonrpc = "2.0"; id = text "7"; method = "tools/call"; params = "params" }

abbrev pub codec : Codec
codec = record {
  decode = λ body. if body == "call" then request call_request else no_json;
  decode_batch = λ body. some ("call" ∷ "none" ∷ []);
  normalize = λ line. if line == "call" then some (ok "call") else none;
  decode_params = λ params. some ("file_reader", input);
  show_id = λ id. "7";
}

-- A server whose tool may be called once a minute.
abbrev pub server : Server
server = record {
  registry = registry;
  rate_limiter = set_limit "file_reader" 1 0 new_rate_limiter;
  calls = 0;
}
