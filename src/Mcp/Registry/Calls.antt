-- ===== src/Mcp/Registry/Calls.antt =====
-- What the registry promises about calls.
use agent_exec_engine.Prelude.{
  All, ℕ, String, ◌≡◌, refl, true, false, List, Option, none, some, lookup, lookup-insert, ok, err,
  arith, if◌then◌else◌, IsOrder, is_some, ◌==◌, ◌⊎◌, inl, inr, Option-cases, Bool-cases,
  Result-cases, subst, sym,
}
use agent_exec_engine.Types.{ToolDefinition, ToolCall, ToolResult}
use agent_exec_engine.Mcp.Guardrail.{Rule, Record, redacted, fires_on_output, scan_output}
use agent_exec_engine.Mcp.Guardrail.Blocks.{Allows, first_block, scan_output-first_block}
use agent_exec_engine.Mcp.Validator.{validate_input}
use agent_exec_engine.Mcp.Validator.Sound.{IsValid, validate_input-IsValid}
use agent_exec_engine.Mcp.Registry.{
  Registry, RegisteredTool, ToolHandler, Runtime, register, call, checked, guarded, answer,
  guard_input, guard_output,
}
use agent_exec_engine.Mcp.Registry.Inputs.{rules_of, input_text, guard_input-Allows}

-- The tool is registered, its input fits its schema, and no rule for inputs that blocks matches the
-- text of the input.
pub record IsAllowed (runtime : Runtime) (r : Registry) (c : ToolCall) : Type 0 where
  pub tool : RegisteredTool
  pub found : lookup c.tool_name r.tools ≡ some tool
  pub valid : IsValid tool.definition.input_schema c.input
  pub passes : All (Allows (input_text runtime c.input)) (rules_of r.guardrail)

checked-ran :
    (runtime : Runtime) (n : ℕ) (r : Registry) (c : ToolCall) (tool : RegisteredTool)
    → (checked runtime n r c tool).ran ≡ true
    → (validate_input runtime.range tool.definition.input_schema c.input ≡ ok tt)
      × ((guard_input runtime r.guardrail c.tool_name c.input).0 ≡ none)
unfolding checked guarded
checked-ran runtime n r c tool h = ground arith

checked_allowed :
    (runtime : Runtime) (n : ℕ) (r : Registry) (c : ToolCall) (tool : RegisteredTool)
    → validate_input runtime.range tool.definition.input_schema c.input ≡ ok tt
    → (guard_input runtime r.guardrail c.tool_name c.input).0 ≡ none
    → (checked runtime n r c tool).ran ≡ true
unfolding checked guarded answer
checked_allowed runtime n r c tool v g = ground arith

call-ran :
    (runtime : Runtime)
    → IsOrder runtime.range
    → (n : ℕ) (r : Registry) (c : ToolCall) → (call runtime n r c).ran ≡ true
    → (found : (lookup c.tool_name r.tools ≡ none)
        ⊎ ((t : RegisteredTool) × (lookup c.tool_name r.tools ≡ some t)))
    → IsAllowed runtime r c
unfolding call
call-ran runtime ordered n r c h (inl absent) = absurd (ground arith)
call-ran runtime ordered n r c h (inr (tool, there)) =
    let (valid, passed) = checked-ran runtime n r c tool (ground arith) in
    record {
      tool = tool;
      found = there;
      valid =
          (validate_input-IsValid runtime.range ordered tool.definition.input_schema c.input).0
            valid;
      passes = (guard_input-Allows runtime r.guardrail c.tool_name c.input).0 passed;
    }

-- A tool's code runs exactly when the tool is registered, the input fits its schema, and no rule of
-- the guardrail that blocks and is for inputs matches the input's strings, with its objects in
-- JSON, joined.
pub call-IsAllowed :
    (runtime : Runtime)
    → IsOrder runtime.range
    → (n : ℕ) (r : Registry) (c : ToolCall)
    → ((call runtime n r c).ran ≡ true → IsAllowed runtime r c)
      × (IsAllowed runtime r c → (call runtime n r c).ran ≡ true)
unfolding call
call-IsAllowed runtime ordered n r c = (
  λ h. call-ran runtime ordered n r c h (Option-cases (lookup c.tool_name r.tools)),
  λ w.
      let schema = w.tool.definition.input_schema in
      ground (
        arith,
        w.found,
        checked_allowed runtime n r c w.tool
            ((validate_input-IsValid runtime.range ordered schema c.input).1 w.valid)
            ((guard_input-Allows runtime r.guardrail c.tool_name c.input).1 w.passes),
      ),
)

-- No rule that blocks outputs matches, unless the text is the one that replaces a blocked output.
abbrev pub IsScanned : Option (List Rule) → String → Type 0
IsScanned guardrail content =
    (content ≡ redacted)
    ⊎ (is_some (first_block (λ rule. fires_on_output rule content) (rules_of guardrail)) ≡ false)

guard_output-IsScanned :
    (runtime : Runtime) (guardrail : Option (List Rule)) (tool output : String)
    → IsScanned guardrail (guard_output runtime guardrail tool output).0
unfolding guard_output
guard_output-IsScanned runtime none tool output = inr refl
guard_output-IsScanned runtime (some rules) tool output =
    let fires = λ (rule : Rule). fires_on_output rule output in
    let scanned = scan_output-first_block rules tool output in
    elim (Bool-cases (is_some (first_block fires rules))) [
      | inl h ↦ inl (ground (arith, scanned, h))
      | inr h ↦
          let same : (scan_output rules tool output).0 ≡ output = ground (arith, scanned, h) in
          subst (IsScanned (some rules)) (sym same) (inr h)
    ]

module _ (runtime : Runtime) (n : ℕ) (r : Registry) (c : ToolCall) (result : ToolResult) where
  answer-content :
      (tool : RegisteredTool) (before : List Record)
      → (answer runtime n r c tool before).reply ≡ ok result
      → result.is_error ≡ false
      → ((e : String) × (tool.handler n c.input ≡ err e))
        ⊎ ((output : String) × (tool.handler n c.input ≡ ok output))
      → (output : String) × (result.content
          ≡ (guard_output runtime r.guardrail c.tool_name output).0)
  unfolding answer
  answer-content tool before e h (inl (reason, failed)) = absurd (ground arith)
  answer-content tool before e h (inr (output, done)) = (output, ground arith)

  checked-answer :
      (tool : RegisteredTool)
      → (checked runtime n r c tool).reply ≡ ok result
      → (answer runtime n r c tool (guard_input runtime r.guardrail c.tool_name c.input).1).reply
        ≡ ok result
  unfolding checked guarded
  checked-answer tool e = ground arith

  call-content :
      (call runtime n r c).reply ≡ ok result
      → result.is_error ≡ false
      → (lookup c.tool_name r.tools ≡ none)
        ⊎ ((t : RegisteredTool) × (lookup c.tool_name r.tools ≡ some t))
      → (output : String) × (result.content
          ≡ (guard_output runtime r.guardrail c.tool_name output).0)
  unfolding call
  call-content e h (inl absent) = absurd (ground arith)
  call-content e h (inr (tool, there)) =
      answer-content tool _ (checked-answer tool (ground arith)) h
        (Result-cases (tool.handler n c.input))

-- The content of a reply that is no error is free of what the guardrail blocks in outputs: no such
-- rule matches it, unless it is the fixed text that replaces a blocked output.
pub call-IsScanned :
    (runtime : Runtime) (n : ℕ) (r : Registry) (c : ToolCall) (result : ToolResult)
    → (call runtime n r c).reply ≡ ok result
    → result.is_error ≡ false
    → IsScanned r.guardrail result.content
call-IsScanned runtime n r c result e h =
    let (output, same) =
      call-content runtime n r c result e h (Option-cases (lookup c.tool_name r.tools)) in
    subst (IsScanned r.guardrail) (sym same)
      (guard_output-IsScanned runtime r.guardrail c.tool_name output)

-- A registered tool is found under its name and every other name as before; a second registration
-- of a name is refused.
register-lookup :
    (def : ToolDefinition) (handler : ToolHandler) (r r' : Registry) (k : String)
    → register def (some handler) r ≡ ok r'
    → (lookup def.name r.tools ≡ none)
      × (lookup k r'.tools ≡ (
          if def.name == k
          then some (record { definition = def; handler = handler })
          else lookup k r.tools))
unfolding register
register-lookup def handler r r' k e =
    ground
      (arith, lookup-insert def.name k (record { definition = def; handler = handler }) r.tools)
