-- ===== src/Mcp/Guardrail/Defaults.antt =====
-- internal/mcp/guardrail.go: the built-in rules. The compiler of regular expressions is a parameter.
use agent_exec_engine.Prelude.{String, Bool, ◌≡◌, List, [], ◌∷◌, arith}
use agent_exec_engine.Mcp.Guardrail.{
  Rule, block, warn, log, input_target, output_target, scan_output,
}

unfoldable default_rules : (String → String → Bool) → List Rule
default_rules compile =
    record {
      name = "prompt_injection_ignore";
      pattern =
          compile
            "(?i)(ignore|disregard|forget)\\s+(previous|above|all)\\s+(instructions|prompts|rules)";
      action = block;
      target = input_target;
    }
    ∷ record {
      name = "prompt_injection_system";
      pattern =
          compile "(?i)(system\\s*prompt|you\\s+are\\s+now|act\\s+as\\s+if|new\\s+instructions)";
      action = block;
      target = input_target;
    }
    ∷ record {
      name = "prompt_injection_delimiter";
      pattern = compile "(?i)(```system|<\\|im_start\\|>system|<\\|system\\|>|\\[INST\\])";
      action = block;
      target = input_target;
    }
    ∷ record {
      name = "path_traversal";
      pattern = compile "\\.\\.[\\\\/]";
      action = block;
      target = input_target;
    }
    ∷ record {
      name = "sensitive_env_leak";
      pattern = compile "(?i)(password|secret|api.?key|token|credential)\\s*[:=]\\s*\\S+";
      action = warn;
      target = output_target;
    }
    ∷ record {
      name = "pii_email";
      pattern = compile "[a-zA-Z0-9._%+\\-]+@[a-zA-Z0-9.\\-]+\\.[a-zA-Z]{2,}";
      action = log;
      target = output_target;
    }
    ∷ []

-- The built-in rules never change an output: those for outputs only warn and record.
scan_output-default_rules :
    (compile : String → String → Bool) (tool output : String)
    → (scan_output (default_rules compile) tool output).0 ≡ output
unfolding default_rules scan_output
scan_output-default_rules compile tool output = ground arith
