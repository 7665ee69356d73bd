-- ===== src/Mcp/Tests.antt =====
-- Calls of a small registry and server, and the theorems at concrete inputs.
use agent_exec_engine.Prelude.{
  ℕ, zero, suc, ◌<◌, ltb, List, Option, length, get_elem?, ◌+◌, ◌-◌, ◌*◌, ◌≤◌, ◌≡◌, ◌↔◌, refl, true,
  false, [], ◌∷◌, none, some, if◌then◌else◌, lookup, insert, keys, contains, is_some, ok, arith,
}
use agent_exec_engine.Types.{ToolDefinition}
use agent_exec_engine.Dag.Samples.{in_order, in_order-IsOrder}
use agent_exec_engine.Mcp.Samples.{
  schema, input, rules, definition, leak, registry, runtime, tool_call, codec, server,
}
use agent_exec_engine.Mcp.Validator.{validate_input, check_required, check_fields, check_field}
use agent_exec_engine.Mcp.Validator.Sound.{IsValid, validate_input-IsValid}
use agent_exec_engine.Mcp.Guardrail.{
  fires_on_input, fires_on_output, redacted, scan_input, scan_output,
}
use agent_exec_engine.Mcp.Guardrail.Blocks.{
  first_block, name_of, scan_input-first_block, scan_output-first_block,
}
use agent_exec_engine.Mcp.Registry.{
  Registry, call, guarded, answer, guard_input, guard_output, flatten_input,
}
use agent_exec_engine.Mcp.Registry.Calls.{IsAllowed, IsScanned, call-IsAllowed, call-IsScanned}
use agent_exec_engine.Mcp.RateLimit.{token, new_bucket}
use agent_exec_engine.Mcp.RateLimit.Bounds.{allow_all, last_of, allow_all-le}
use agent_exec_engine.Mcp.Server.{Response}
use agent_exec_engine.Mcp.Server.Messages.{Order, batch, handle_batch_message}
use agent_exec_engine.Mcp.Server.Batches.{occurs, Answered, handle_batch_message-id}
use agent_exec_engine.Mcp.Server.Transport.{Stdio, serve_stdio}
use agent_exec_engine.Mcp.Server.Lines.{count_filled, serve_stdio-count}

-- The sample input is accepted, and one without its path is not.
input_accepted : validate_input in_order schema input ≡ ok tt
unfolding validate_input check_required check_fields check_field lookup contains keys
input_accepted = refl

validate_input-IsValid_example :
    (validate_input in_order schema input ≡ ok tt) ↔ IsValid schema input
validate_input-IsValid_example = validate_input-IsValid in_order in_order-IsOrder schema input

scan_input-first_block_example :
    (scan_input rules "file_reader" "secret").0
    ≡ name_of (first_block (λ rule. fires_on_input rule "secret") rules)
scan_input-first_block_example = scan_input-first_block rules "file_reader" "secret"

scan_output-first_block_example : (scan_output rules "file_reader" "secret").0 ≡ (
    if is_some (first_block (λ rule. fires_on_output rule "secret") rules)
    then redacted
    else "secret")
scan_output-first_block_example = scan_output-first_block rules "file_reader" "secret"

call-IsAllowed_example :
    ((call runtime 0 registry tool_call).ran ≡ true → IsAllowed runtime registry tool_call)
    × (IsAllowed runtime registry tool_call → (call runtime 0 registry tool_call).ran ≡ true)
call-IsAllowed_example = call-IsAllowed runtime in_order-IsOrder 0 registry tool_call

-- The tool's secret does not reach the caller.
call-IsScanned_example : IsScanned registry.guardrail redacted
unfolding call guarded answer guard_input guard_output flatten_input scan_input scan_output
    validate_input check_required check_fields check_field lookup contains keys
call-IsScanned_example =
    call-IsScanned runtime 0 registry tool_call
      (record { tool_call_id = "7"; content = redacted; is_error = false }) refl refl

abbrev other_definition : ToolDefinition
other_definition = record definition { name = "web_search" }

abbrev larger : Registry
larger = record registry {
  tools =
      insert "web_search" (record { definition = other_definition; handler = leak }) registry.tools;
}

-- Two calls in the same moment and one a minute later, at one call a minute.
allow_all-le_example :
    (allow_all (5 ∷ 5 ∷ 60000000005 ∷ []) (new_bucket 1 0)).1 * token
    ≤ 1 * token + (last_of 0 (5 ∷ 5 ∷ 60000000005 ∷ []) - 0) * 1
allow_all-le_example =
    allow_all-le 1 0 (5 ∷ 5 ∷ 60000000005 ∷ []) (omega arith, (omega arith, (omega arith, tt)))

-- The goroutines of a batch run from the last to the first.
countdown : Order
countdown zero = []
countdown (suc n) = n ∷ countdown n

countdown-occurs : (n i : ℕ) → i < n → occurs i (countdown n) ≡ true
unfolding countdown
countdown-occurs zero i h = absurd (omega (arith, h))
countdown-occurs (suc n) i h = ground (arith, h, countdown-occurs n i)

handle_batch_message-id_example :
    (responses : List (Option Response)) × ((handle_batch_message runtime codec countdown 0 "[]"
        server).1
      ≡ batch responses)
    × ((i : ℕ) → Answered codec (get_elem? ("call" ∷ "none" ∷ []) i) (get_elem? responses i))
handle_batch_message-id_example =
    handle_batch_message-id runtime codec countdown (record { runs = countdown-occurs }) 0 "[]"
      server "call" ("none" ∷ []) refl

-- A call, a blank line and no JSON, with room for two answers.
abbrev io : Stdio
io = record {
  lines = "call" ∷ "  " ∷ "{" ∷ [];
  scan_error = none;
  ctx_error = λ n. none;
  clock = λ n. n;
  write_error = λ n. if ltb n 2 then none else some "closed";
}

serve_stdio-count_example :
    (length (serve_stdio runtime codec countdown io server).2 ≤ count_filled io.lines)
    × ((serve_stdio runtime codec countdown io server).0 ≡ ok tt
        → length (serve_stdio runtime codec countdown io server).2 ≡ count_filled io.lines)
serve_stdio-count_example = serve_stdio-count runtime codec countdown io server
