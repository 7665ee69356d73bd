-- ===== src/Mcp/Guardrail/Blocks.antt =====
-- Which texts the guardrail lets through.
use agent_exec_engine.Prelude.{
  String, ◌≡◌, refl, Bool, true, false, ◌&&◌, List, [], ◌∷◌, Option, none, some, arith,
  if◌then◌else◌, is_some, All, ◌≢◌,
}
use agent_exec_engine.Mcp.Guardrail.{
  RuleAction, block, warn, log, Target, input_target, output_target, both_targets, Rule,
  fires_on_input, fires_on_output, scan_input, scan_output, redacted,
}

abbrev is_block : RuleAction → Bool
is_block block = true
is_block _ = false

-- The first rule of a list that fires and blocks.
abbrev pub first_block : (Rule → Bool) → List Rule → Option Rule
first_block fires [] = none
first_block fires (rule ∷ rules) =
    if fires rule && is_block rule.action then some rule else first_block fires rules

abbrev pub name_of : Option Rule → Option String
name_of none = none
name_of (some rule) = some rule.name

-- The input is blocked exactly when some rule for inputs that blocks matches it, by the first such
-- rule; rules that warn or log never block.
pub scan_input-first_block :
    (rules : List Rule) (tool text : String)
    → (scan_input rules tool text).0
      ≡ name_of (first_block (λ rule. fires_on_input rule text) rules)
unfolding scan_input
scan_input-first_block [] tool text = refl
scan_input-first_block (rule ∷ rules) tool text =
    ground (arith, scan_input-first_block rules tool text)

-- The output is replaced exactly when some rule for outputs that blocks matches it; otherwise it is
-- returned as it is.
pub scan_output-first_block :
    (rules : List Rule) (tool output : String)
    → (scan_output rules tool output).0 ≡ (
        if is_some (first_block (λ rule. fires_on_output rule output) rules)
        then redacted
        else output)
unfolding scan_output
scan_output-first_block [] tool output = refl
scan_output-first_block (rule ∷ rules) tool output =
    ground (arith, scan_output-first_block rules tool output)

-- The rule does not block an input: it is no rule that blocks, or none for inputs, or its pattern
-- does not match.
abbrev pub Allows : String → Rule → Type 0
Allows content rule =
    rule.action ≡ block → rule.target ≢ output_target → rule.pattern content ≡ false

Allows-target :
    (rule : Rule) (content : String) (target : Target)
    → rule.target ≡ target
    → (fires_on_input rule content ≡ false
        → rule.target ≢ output_target
        → rule.pattern content ≡ false)
      × ((rule.target ≢ output_target → rule.pattern content ≡ false)
          → fires_on_input rule content ≡ false)
Allows-target rule content input_target e =
    (λ h _. ground (arith, e, h), λ h. ground (arith, e, h (λ f. absurd (ground (arith, e, f)))))
Allows-target rule content both_targets e =
    (λ h _. ground (arith, e, h), λ h. ground (arith, e, h (λ f. absurd (ground (arith, e, f)))))
Allows-target rule content output_target e = (λ h away. absurd (away e), λ h. ground (arith, e))

scan_first :
    (rule : Rule) (rules : List Rule) (tool content : String) (action : RuleAction)
    → rule.action ≡ action
    → ((scan_input rules tool content).0 ≡ none → All (Allows content) rules)
      × (All (Allows content) rules → (scan_input rules tool content).0 ≡ none)
    → ((scan_input (rule ∷ rules) tool content).0 ≡ none → All (Allows content) (rule ∷ rules))
      × (All (Allows content) (rule ∷ rules) → (scan_input (rule ∷ rules) tool content).0 ≡ none)
unfolding scan_input
scan_first rule rules tool content block e (sound, complete) =
    let (only, when) = Allows-target rule content rule.target refl in
    (
      λ h. (λ _. only (ground (arith, e, h)), sound (ground (arith, e, h))),
      λ (first, rest). ground (arith, e, when (first e), complete rest),
    )
scan_first rule rules tool content warn e (sound, complete) = (
  λ h. (λ f. absurd (ground (arith, e, f)), sound (ground (arith, e, h))),
  λ (first, rest). ground (arith, e, complete rest),
)
scan_first rule rules tool content log e (sound, complete) = (
  λ h. (λ f. absurd (ground (arith, e, f)), sound (ground (arith, e, h))),
  λ (first, rest). ground (arith, e, complete rest),
)

-- The scan lets an input pass exactly when each rule does.
pub scan_input-Allows :
    (rules : List Rule) (tool content : String)
    → ((scan_input rules tool content).0 ≡ none → All (Allows content) rules)
      × (All (Allows content) rules → (scan_input rules tool content).0 ≡ none)
unfolding scan_input
scan_input-Allows [] tool content = (λ _. tt, λ _. refl)
scan_input-Allows (rule ∷ rules) tool content =
    scan_first rule rules tool content rule.action refl (scan_input-Allows rules tool content)
