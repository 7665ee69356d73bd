-- ===== src/Mcp/Guardrail.antt =====
-- internal/mcp/guardrail.go: the rules that scan a tool's input and output. A pattern is what the
-- regular expression's `MatchString` answers.
pub mod Blocks
pub mod Defaults
use agent_exec_engine.Prelude.{
  ℕ, String, Bool, true, false, not, ◌||◌, List, [], ◌∷◌, ◌++◌, Option, none, some, if◌then◌else◌,
  Map, lookup, keys, Result, ok, err,
}
use agent_exec_engine.Types.{Value, text, object, Fields}

pub data RuleAction : Type 0 where
  block warn log : RuleAction

pub data Target : Type 0 where
  input_target output_target both_targets : Target

pub record Rule : Type 0 where
  pub name : String
  pub pattern : String → Bool
  pub action : RuleAction
  pub target : Target

-- What the scan writes to the logger and the metrics: the rule and the tool.
pub data Record : Type 0 where
  blocked warned : String → String → Record
  matched : String → String → String → Record

abbrev scans_input : Target → Bool
scans_input output_target = false
scans_input _ = true

abbrev scans_output : Target → Bool
scans_output input_target = false
scans_output _ = true

-- A rule that is to be looked at and whose pattern matches.
abbrev pub fires_on_input : Rule → String → Bool
fires_on_input rule content = if not (scans_input rule.target) then false else rule.pattern content

abbrev pub fires_on_output : Rule → String → Bool
fires_on_output rule content =
    if not (scans_output rule.target) then false else rule.pattern content

-- The texts that `flattenInput` joins; `render` is `json.Marshal` of an object.
unfoldable pub parts_of : (Fields → String) → Option Value → List String
parts_of render (some (text s)) = s ∷ []
parts_of render (some (object fields)) = render fields ∷ []
parts_of render _ = []

unfoldable pub flatten_parts : (Fields → String) → Map Value → List String → List String
unfolding parts_of
flatten_parts render input [] = []
flatten_parts render input (name ∷ names) =
    parts_of render (lookup name input) ++ flatten_parts render input names

-- The loop of `ScanInput`: the name of the rule that blocks, and what was recorded.
unfoldable pub scan_input : List Rule → String → String → Option String × List Record
scan_input [] tool content = (none, [])
scan_input (rule ∷ rules) tool content =
    let rest = scan_input rules tool content in
    if not (fires_on_input rule content) then rest else elim (rule.action) [
      | block ↦ (some rule.name, blocked rule.name tool ∷ [])
      | warn ↦ (rest.0, warned rule.name tool ∷ rest.1)
      | log ↦ (rest.0, matched rule.name tool "input" ∷ rest.1)
    ]

abbrev pub redacted : String
redacted = "[REDACTED: security rule triggered]"

unfoldable pub scan_output : List Rule → String → String → String × List Record
scan_output [] tool output = (output, [])
scan_output (rule ∷ rules) tool output =
    let rest = scan_output rules tool output in
    if not (fires_on_output rule output) then rest else elim (rule.action) [
      | block ↦ (redacted, blocked rule.name tool ∷ [])
      | warn ↦ (rest.0, warned rule.name tool ∷ rest.1)
      | log ↦ (rest.0, matched rule.name tool "output" ∷ rest.1)
    ]
