-- ===== src/Mcp/Tools/Code.antt =====
-- internal/mcp/tools/code_exec.go: running code in a sandbox.
use Prim.Native.String.{◌++◌ as str_append}
use agent_exec_engine.Prelude.{
  true, String, List, [], ◌∷◌, Option, none, some, if◌then◌else◌, ◌==◌, Map, lookup, Result, ok,
  err,
}
use agent_exec_engine.Prelude.Int.{ℤ, is_zero, pos}
use agent_exec_engine.Types.{Value, text, ToolDefinition}
use agent_exec_engine.Sandbox.Policy.{
  ExecutionPolicy, ExecutionRequest, ExecutionResult, default_policy,
}
use agent_exec_engine.Sandbox.Engine.{Docker, Call, SandboxError}
use agent_exec_engine.Sandbox.Engine.Execute.{execute}

abbrev code_exec_definition : ToolDefinition
code_exec_definition = record {
  name = "code_exec";
  description = "Execute code in an isolated sandbox. Supports Python and shell scripts.";
  input_schema = record {
    type = "object";
    properties =
        (
          "language",
          record {
            type = "string";
            description = "Programming language";
            enum = "python" ∷ "bash" ∷ [];
          },
        )
        ∷ ("code", record { type = "string"; description = "Code to execute"; enum = [] })
        ∷ [];
    required = "language" ∷ "code" ∷ [];
  };
  category = "code";
  sandboxed = true;
  rate_limit = pos 30;
}

-- What is said of a run that failed; `exit_code` has the output beside it.
pub data CodeError : Type 0 where
  unsupported_language : String → CodeError
  execution_failed : List SandboxError → CodeError
  out_of_memory timed_out : CodeError
  exit_code : ℤ → CodeError

abbrev text_or_blank : Option Value → String
text_or_blank (some (text s)) = s
text_or_blank _ = ""

unfoldable request_of : String → String → Result CodeError ExecutionRequest
request_of lang code =
    if lang == "python"
    then ok (record {
      image = "python:3.12-slim";
      command = "python" ∷ "-c" ∷ code ∷ [];
      env = [];
      files = [];
      policy = default_policy;
    })
    else if lang == "bash"
    then ok (record {
      image = "alpine:3.19";
      command = "sh" ∷ "-c" ∷ code ∷ [];
      env = [];
      files = [];
      policy = default_policy;
    })
    else err (unsupported_language lang)

-- The output, and the error that may stand beside it.
unfoldable report : ExecutionResult → String × Option CodeError
report result =
    let output =
      if result.stderr == ""
      then result.stdout
      else str_append result.stdout (str_append "\n[stderr]\n" result.stderr) in
    if result.oom_killed
    then ("", some out_of_memory)
    else if result.timed_out
    then ("", some timed_out)
    else (output, if is_zero result.exit_code then none else some (exit_code result.exit_code))

-- `Execute` returns a result, an error, or both; an error is looked at first. There is a result
-- where there is no error.
unfoldable read_execution : Option ExecutionResult → List SandboxError → String × Option CodeError
unfolding report
read_execution result (e ∷ errors) = ("", some (execution_failed (e ∷ errors)))
read_execution none [] = ("", none)
read_execution (some result) [] = report result

module _ (world : Docker) (defaults : ExecutionPolicy) where
  abbrev run_request :
      Result CodeError ExecutionRequest → List Call → (String × Option CodeError) × List Call
  run_request (err e) calls = (("", some e), calls)
  run_request (ok req) calls =
      let ((result, errors), calls') = execute world defaults req calls in
      (read_execution result errors, calls')

  unfoldable pub handle : Map Value → List Call → (String × Option CodeError) × List Call
  unfolding request_of read_execution execute
  handle input calls =
      run_request
        (request_of (text_or_blank (lookup "language" input)) (text_or_blank (lookup "code" input)))
        calls
