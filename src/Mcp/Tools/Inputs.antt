-- ===== src/Mcp/Tools/Inputs.antt =====
-- internal/mcp/tools/rag_search.go: how a tool reads its input.
use agent_exec_engine.Prelude.{String, Option, none, some, if◌then◌else◌, ◌==◌}
use agent_exec_engine.Prelude.Int.{ℤ}
use agent_exec_engine.Prelude.Texts.{trim_space}
use agent_exec_engine.Types.{Value, text, signed, float, Float64, to_int}

-- A text that is not blank, as `Handle` asks for it.
abbrev pub filled_text : Option Value → Option String
filled_text (some (text s)) = if trim_space s == "" then none else some s
filled_text _ = none

abbrev pub string_or_default : Option Value → String → String
string_or_default (some (text s)) fallback = if s == "" then fallback else s
string_or_default _ fallback = fallback

-- The first argument is what the machine makes of a number that does not fit.
abbrev pub int_or_default : (Float64 → ℤ) → Option Value → ℤ → ℤ
int_or_default out_of_range (some (float f)) fallback = to_int out_of_range f
int_or_default out_of_range (some (signed n)) fallback = n
int_or_default out_of_range _ fallback = fallback
