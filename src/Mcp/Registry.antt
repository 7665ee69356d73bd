-- ===== src/Mcp/Registry.antt =====
-- internal/mcp/registry.go: registering, finding and calling tools. Spans are left out.
pub mod Inputs
pub mod Calls
use agent_exec_engine.Prelude.{
  ℕ, String, Bool, true, false, not, List, [], ◌∷◌, ◌++◌, Option, none, some, if◌then◌else◌, Map,
  lookup, insert, delete, keys, is_some, Result, ok, err,
}
use agent_exec_engine.Types.{Value, Fields, ToolDefinition, ToolCall, ToolResult}
use agent_exec_engine.Mcp.Validator.{InputError, validate_input}
use agent_exec_engine.Mcp.Guardrail.{Rule, Record, flatten_parts, scan_input, scan_output}

-- The codes of errors.go that calls of the registry return, and their texts' parts.
pub data RpcError : Type 0 where
  tool_not_found : String → RpcError
  invalid_params : InputError → RpcError
  permission : String → RpcError

-- A tool's code answers as it likes: the first argument tells its calls apart.
abbrev pub ToolHandler : Type 0
ToolHandler = ℕ → Map Value → Result String String

pub record RegisteredTool : Type 0 where
  pub definition : ToolDefinition
  pub handler : ToolHandler

pub record Registry : Type 0 where
  pub tools : Map RegisteredTool
  pub guardrail : Option (List Rule)

pub data RegisterError : Type 0 where
  already_registered handler_required : String → RegisterError

-- What the package takes from Go: the order of map iteration, `json.Marshal` of an object,
-- `strings.Join` with a space, and the text `tool error: …`.
pub record Runtime : Type 0 where
  pub range : List String → List String
  pub render : Fields → String
  pub join : List String → String
  pub tool_error : String → String

-- How a call ends, what the guardrail recorded, and whether the tool's code ran.
pub record Outcome : Type 0 where
  pub reply : Result RpcError ToolResult
  pub records : List Record
  pub ran : Bool

abbrev pub refused : RpcError → List Record → Outcome
refused e records = record { reply = err e; records = records; ran = false }

unfoldable pub register :
    ToolDefinition → Option ToolHandler → Registry → Result RegisterError Registry
register def handler r =
    if is_some (lookup def.name r.tools) then err (already_registered def.name) else elim handler [
      | none ↦ err (handler_required def.name)
      | some h ↦
          ok (record r {
            tools = insert def.name (record { definition = def; handler = h }) r.tools;
          })
    ]

unfoldable pub unregister : String → Registry → Registry
unregister name r = record r { tools = delete name r.tools }

unfoldable list_from : Map RegisteredTool → List String → List ToolDefinition
list_from tools [] = []
list_from tools (name ∷ names) =
    let rest = list_from tools names in
    elim (lookup name tools) [ none ↦ rest | some tool ↦ tool.definition ∷ rest ]

module _ (runtime : Runtime) where
  unfoldable pub list : Registry → List ToolDefinition
  unfolding list_from
  list r = list_from r.tools (runtime.range (keys r.tools))

  unfoldable pub flatten_input : Map Value → String
  unfolding flatten_parts
  flatten_input input =
      runtime.join (flatten_parts runtime.render input (runtime.range (keys input)))

  -- The guardrail's answer for an input, and for an output; without a guardrail all passes.
  unfoldable pub guard_input : Option (List Rule) → String → Map Value → Option String × List Record
  guard_input none tool input = (none, [])
  guard_input (some rules) tool input = scan_input rules tool (flatten_input input)

  unfoldable pub guard_output : Option (List Rule) → String → String → String × List Record
  guard_output none tool output = (output, [])
  guard_output (some rules) tool output = scan_output rules tool output

  -- After the checks: the tool's code runs, and its output is scanned.
  unfoldable pub answer : ℕ → Registry → ToolCall → RegisteredTool → List Record → Outcome
  answer n r call tool before = elim (tool.handler n call.input) [
    | err e ↦ record {
      reply =
          ok (record { tool_call_id = call.id; content = runtime.tool_error e; is_error = true });
      records = before;
      ran = true;
    }
    | ok output ↦
        let (content, after) = guard_output r.guardrail call.tool_name output in
        record {
          reply = ok (record { tool_call_id = call.id; content = content; is_error = false });
          records = before ++ after;
          ran = true;
        }
  ]

  -- The guardrail's look at the input, and what follows.
  unfoldable pub guarded : ℕ → Registry → ToolCall → RegisteredTool → Outcome
  guarded n r call tool =
      let (blocked_by, before) = guard_input r.guardrail call.tool_name call.input in
      elim blocked_by [
        | some rule ↦ refused (permission rule) before
        | none ↦ answer n r call tool before
      ]

  unfoldable pub checked : ℕ → Registry → ToolCall → RegisteredTool → Outcome
  checked n r call tool =
      elim (validate_input runtime.range tool.definition.input_schema call.input) [
        | err e ↦ refused (invalid_params e) []
        | ok _ ↦ guarded n r call tool
      ]

  -- `n` tells the calls of the tools' code apart.
  unfoldable pub call : ℕ → Registry → ToolCall → Outcome
  unfolding checked
  call n r c = elim (lookup c.tool_name r.tools) [
    | none ↦ refused (tool_not_found c.tool_name) []
    | some tool ↦ checked n r c tool
  ]
