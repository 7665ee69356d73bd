-- ===== src/Llm/Client.antt =====
-- internal/llm/client.go: a chat request, with its attempts.
pub mod Attempts
pub mod Failures
use Prim.Native.String.{◌++◌ as str_append}
use Prim.Native.Nat.{zero, suc}
use agent_exec_engine.Prelude.{
  ℕ, ◌+◌, ◌*◌, ◌^◌, String, Bool, true, false, ◌||◌, not, List, [], ◌∷◌, Option, none, some,
  if◌then◌else◌, ◌==◌, ltb, leb, Result, ok, err,
}
use agent_exec_engine.Prelude.Texts.{trim_space, trim_right_of}
use agent_exec_engine.Prelude.Logged.{◌>>=◌, ◌>>◌, return, lift}
use agent_exec_engine.Llm.Gateway.{
  ChatRequest, ChatResponse, Choice, HttpRequest, HttpResponse, NetError, LlmError, marshal_failed,
  decode_failed, canceled, transport, server_error, status_failed, no_choices, Gateway, GatewayCall,
  post, sleep, Run,
}

-- The request's id comes from the context.
pub record Client : Type 0 where
  pub base_url : String
  pub model : String
  pub api_key : String
  pub request_id : Option String

-- `NewClient`; the character / has the number 47. The time limit is the gateway's.
unfoldable pub new_client : String → String → String → Option String → Client
new_client base_url model api_key request_id = record {
  base_url = trim_right_of 47 base_url;
  model = model;
  api_key = api_key;
  request_id = request_id;
}

-- 100 * time.Millisecond << attempt
abbrev pub retry_delay : ℕ → ℕ
retry_delay attempt = 100000000 * 2 ^ attempt

unfoldable pub is_retryable : LlmError → Bool
is_retryable (transport e) = e.is_net_error
is_retryable (server_error code body) = true
is_retryable _ = false

abbrev pub attempts_after_first : ℕ
attempts_after_first = 2

abbrev non_empty : Option String → Option String
non_empty none = none
non_empty (some s) = if s == "" then none else some s

abbrev pub with_choices : ChatResponse → List Choice → Result LlmError ChatResponse
with_choices response [] = err no_choices
with_choices response (choice ∷ choices) = ok response

abbrev pub decoded : Result String ChatResponse → Result LlmError ChatResponse
decoded (err e) = err (decode_failed e)
decoded (ok response) = with_choices response response.choices

module _ (world : Gateway) where
  unfoldable pub read_body : ℕ → Result NetError String → Result LlmError ChatResponse
  read_body code (err e) = err (transport e)
  read_body code (ok payload) =
      if leb 500 code
      then err (server_error code payload)
      else if ltb code 200 || leb 300 code
      then err (status_failed code (trim_space payload))
      else decoded (world.decode payload)

  unfoldable pub read_response : Result NetError HttpResponse → Result LlmError ChatResponse
  unfolding read_body
  read_response (err e) = err (transport e)
  read_response (ok response) = read_body response.status_code response.body

  abbrev pub send : HttpRequest → Option NetError → Run ChatResponse
  send request (some e) calls = (err (transport e), calls)
  send request none calls = (read_response (world.on_post calls), post request ∷ calls)

  unfoldable pub do_chat : Client → String → Run ChatResponse
  unfolding read_response
  do_chat client body =
      let request : HttpRequest = record {
        url = str_append client.base_url "/chat/completions";
        body = body;
        authorization =
            if client.api_key == "" then none else some (str_append "Bearer " client.api_key);
        request_id = non_empty client.request_id;
      } in
      send request (world.new_request request)

  abbrev pub slept : Option String → Result LlmError (Unit {0})
  slept none = ok tt
  slept (some e) = err (canceled e)

  unfoldable pub sleep_with_context : ℕ → Run (Unit {0})
  sleep_with_context delay calls = (slept (world.on_sleep calls), sleep delay ∷ calls)

  -- What follows an attempt: a response and an error that no further attempt helps end the loop.
  abbrev pub retry :
      (again : Run ChatResponse)
      → ℕ
      → Result LlmError ChatResponse × List GatewayCall
      → Result LlmError ChatResponse × List GatewayCall
  retry again attempt (ok response, calls) = (ok response, calls)
  retry again attempt (err e, calls) =
      if is_retryable e
      then (do sleep_with_context (retry_delay attempt); again) calls
      else (err e, calls)

  -- The loop of `Chat`; the first argument counts the attempts that are left after this one.
  unfoldable pub chat_loop : ℕ → ℕ → Client → String → Run ChatResponse
  unfolding do_chat is_retryable sleep_with_context
  chat_loop zero attempt client body calls = do_chat client body calls
  chat_loop (suc left) attempt client body calls =
      retry (chat_loop left (suc attempt) client body) attempt (do_chat client body calls)

  abbrev pub encoded : Result String String → Result LlmError String
  encoded (ok body) = ok body
  encoded (err e) = err (marshal_failed e)

  unfoldable pub chat : Client → ChatRequest → Run ChatResponse
  unfolding chat_loop
  chat client req = do
    let named = if req.model == "" then record req { model = client.model } else req
    body ← lift (encoded (world.encode named))
    chat_loop attempts_after_first 0 client body
