-- ===== src/Mcp/Registry/Inputs.antt =====
-- internal/mcp/registry.go and guardrail.go: the text of an input and the rules that let it pass.
use agent_exec_engine.Prelude.{
  All, Map, keys, ◌++◌, ◌∷◌, String, ◌≡◌, refl, List, [], Option, none, some, lookup, subst, ap,
  ◌∙◌,
}
use agent_exec_engine.Types.{Value, text, object, Fields}
use agent_exec_engine.Mcp.Guardrail.{Rule, scan_input, flatten_parts, parts_of}
use agent_exec_engine.Mcp.Guardrail.Blocks.{Allows, scan_input-Allows}
use agent_exec_engine.Mcp.Registry.{Runtime, guard_input, flatten_input}

abbrev pub rules_of : Option (List Rule) → List Rule
rules_of none = []
rules_of (some rules) = rules

-- Of the values of an input, the strings as they are and the objects in JSON; the others are left out.
abbrev text_of : (Fields → String) → Option Value → Option String
text_of render (some (text s)) = some s
text_of render (some (object fields)) = some (render fields)
text_of render _ = none

abbrev with_text : Option String → List String → List String
with_text none texts = texts
with_text (some s) texts = s ∷ texts

abbrev texts_of : (Fields → String) → Map Value → List String → List String
texts_of render input [] = []
texts_of render input (name ∷ names) =
    with_text (text_of render (lookup name input)) (texts_of render input names)

-- The text of an input, which the rules are to look at.
abbrev pub input_text : Runtime → Map Value → String
input_text runtime input = runtime.join (texts_of runtime.render input (runtime.range (keys input)))

parts_of-text_of :
    (render : Fields → String) (value : Option Value) (texts : List String)
    → parts_of render value ++ texts ≡ with_text (text_of render value) texts
unfolding parts_of
parts_of-text_of render none texts = refl
parts_of-text_of render (some (text s)) texts = refl
parts_of-text_of render (some (object fields)) texts = refl
parts_of-text_of render (some value) texts = refl

flatten_parts-texts_of :
    (render : Fields → String) (input : Map Value) (names : List String)
    → flatten_parts render input names ≡ texts_of render input names
unfolding flatten_parts
flatten_parts-texts_of render input [] = refl
flatten_parts-texts_of render input (name ∷ names) =
    ap (λ texts. parts_of render (lookup name input) ++ texts)
      (flatten_parts-texts_of render input names)
    ∙ parts_of-text_of render (lookup name input) (texts_of render input names)

flatten_input-input_text :
    (runtime : Runtime) (input : Map Value) → flatten_input runtime input ≡ input_text runtime input
unfolding flatten_input
flatten_input-input_text runtime input =
    ap runtime.join (flatten_parts-texts_of runtime.render input (runtime.range (keys input)))

pub guard_input-Allows :
    (runtime : Runtime) (guardrail : Option (List Rule)) (tool : String) (input : Map Value)
    → ((guard_input runtime guardrail tool input).0 ≡ none
        → All (Allows (input_text runtime input)) (rules_of guardrail))
      × (All (Allows (input_text runtime input)) (rules_of guardrail)
          → (guard_input runtime guardrail tool input).0 ≡ none)
unfolding guard_input
guard_input-Allows runtime none tool input = (λ _. tt, λ _. refl)
guard_input-Allows runtime (some rules) tool input =
    subst
      (λ content.
        ((scan_input rules tool (flatten_input runtime input)).0 ≡ none
          → All (Allows content) rules)
        × (All (Allows content) rules
            → (scan_input rules tool (flatten_input runtime input)).0 ≡ none))
      (flatten_input-input_text runtime input)
      (scan_input-Allows rules tool (flatten_input runtime input))
