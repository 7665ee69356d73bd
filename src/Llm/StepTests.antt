-- ===== src/Llm/StepTests.antt =====
-- Steps against a gateway that answers one way, and the theorems at concrete inputs.
use agent_exec_engine.Prelude.{refl, true, [], ◌∷◌, none, some, ok, err, ◌==◌}
use agent_exec_engine.Prelude.Int.{pos}
use agent_exec_engine.Types.{Step, llm_call, signed}
use agent_exec_engine.Dag.Samples.{step_of}
use agent_exec_engine.Mcp.Samples.{registry, runtime}
use agent_exec_engine.Llm.Gateway.{Gateway, server_error}
use agent_exec_engine.Llm.Client.{Client}
use agent_exec_engine.Llm.Conversation.{LlmExecutor, execute}
use agent_exec_engine.Llm.Conversation.Settled.{IsSettled, execute-IsSettled}
use agent_exec_engine.Llm.React.{ReactTexts, ReactExecutor}
use agent_exec_engine.Llm.React as React
use agent_exec_engine.Llm.React.Failures.{IsReactError, execute-Ends}

-- The gateway is down.
abbrev gateway : Gateway
gateway = record {
  new_request = λ request. none;
  on_post = λ calls. ok (record { status_code = 503; body = ok "down" });
  on_sleep = λ calls. none;
  on_request_gpu = λ calls. none;
  on_release_gpu = λ calls. none;
  new_id = λ calls. "id";
  encode = λ request. ok "{}";
  decode = λ body. err "unexpected";
  decode_arguments = λ raw. ok [];
  marshal_input = λ input. some "{}";
  print_input = λ input. "map[]";
  print_number = λ n. "0";
  rpc_message = λ e. "error";
  out_of_range = λ f. pos 0;
  runtime = runtime;
}

abbrev client : Client
client = record { base_url = "http://gateway/v1"; model = "m"; api_key = ""; request_id = none }

abbrev step : Step
step = record (step_of "a" llm_call []) { config = ("gpu_count", signed (pos 1)) ∷ [] }

abbrev executor : LlmExecutor
executor = record { client = client; registry = some registry; has_scheduler = true }

execute-IsSettled_example : IsSettled [] (execute gateway executor step [] []).1 30
execute-IsSettled_example = execute-IsSettled gateway executor step [] []

abbrev texts : ReactTexts
texts = record {
  system_prompt = "think";
  equal_fold = λ a b. a == b;
  marshal_result = λ answer trajectory. none;
}

execute-Ends_example : IsReactError (server_error 503 "down")
unfolding React.execute React.react_loop agent_exec_engine.Llm.Client.chat
    agent_exec_engine.Llm.Client.chat_loop
execute-Ends_example =
    execute-Ends gateway texts client registry step [] [] (server_error 503 "down") refl
