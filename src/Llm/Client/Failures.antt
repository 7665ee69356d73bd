-- ===== src/Llm/Client/Failures.antt =====
-- internal/llm/client.go: how a chat request can end.
use Prim.Native.Nat.{zero, suc}
use agent_exec_engine.Prelude.{
  ℕ, String, Bool, true, false, ◌≡◌, refl, List, [], ◌∷◌, Option, none, some, Result, ok, err,
  Bool-cases, inl, inr, ◌||◌, leb, ltb,
}
use agent_exec_engine.Prelude.Logged.{lift}
use agent_exec_engine.Prelude.Logged.Growth.{Outcome, >>=-Outcome}
use agent_exec_engine.Llm.Gateway.{
  ChatRequest, ChatResponse, Choice, HttpRequest, HttpResponse, NetError, LlmError,
  index_out_of_range, bad_arguments, gpu_failed, release_failed, tool_failed, rpc_failed,
  no_registry, too_many_rounds, Gateway, GatewayCall, Run,
}
use agent_exec_engine.Llm.Client.{
  Client, with_choices, decoded, read_body, read_response, send, do_chat, retry, chat_loop, chat,
  retry_delay, sleep_with_context, is_retryable, attempts_after_first, encoded, slept,
}

abbrev pub has_choices : ChatResponse → Bool
has_choices response = elim (response.choices) [ [] ↦ false | _ ↦ true ]

-- An error that the code around a chat request makes, not the request.
abbrev pub is_outside : LlmError → Bool
is_outside index_out_of_range = true
is_outside no_registry = true
is_outside too_many_rounds = true
is_outside (bad_arguments e) = true
is_outside (gpu_failed e) = true
is_outside (release_failed e) = true
is_outside (tool_failed e) = true
is_outside (rpc_failed name e) = true
is_outside _ = false

-- A chat request's response has a choice, and its error is its own.
abbrev pub IsChat : Result LlmError ChatResponse → Type 0
IsChat r = Outcome (λ response. has_choices response ≡ true) (λ e. is_outside e ≡ false) r

with_choices-IsChat :
    (response : ChatResponse) (choices : List Choice)
    → response.choices ≡ choices
    → IsChat (with_choices response choices)
with_choices-IsChat response [] same = refl
with_choices-IsChat response (choice ∷ choices) same = rw same refl

decoded-IsChat : (answer : Result String ChatResponse) → IsChat (decoded answer)
decoded-IsChat (err e) = refl
decoded-IsChat (ok response) = with_choices-IsChat response response.choices refl

module _ (world : Gateway) (client : Client) where
  read_body-IsChat : (code : ℕ) (body : Result NetError String) → IsChat (read_body world code body)
  unfolding read_body
  read_body-IsChat code (err e) = refl
  read_body-IsChat code (ok payload) = elim (Bool-cases (leb 500 code)) [
    | inl server ↦ rw server refl
    | inr lower ↦ elim (Bool-cases (ltb code 200 || leb 300 code)) [
      | inl refused ↦ rw (lower, refused) refl
      | inr fine ↦ rw (lower, fine) (decoded-IsChat (world.decode payload))
    ]
  ]

  read_response-IsChat :
      (answer : Result NetError HttpResponse) → IsChat (read_response world answer)
  unfolding read_response
  read_response-IsChat (err e) = refl
  read_response-IsChat (ok response) = read_body-IsChat response.status_code response.body

  send-IsChat :
      (request : HttpRequest) (refused : Option NetError) (calls : List GatewayCall)
      → IsChat (send world request refused calls).0
  send-IsChat request (some e) calls = refl
  send-IsChat request none calls = read_response-IsChat (world.on_post calls)

  do_chat-IsChat :
      (body : String) (calls : List GatewayCall) → IsChat (do_chat world client body calls).0
  unfolding do_chat
  do_chat-IsChat body = send-IsChat _ (world.new_request _)

  slept-outside :
      (answer : Option String)
      → Outcome (λ (u : Unit {0}). Unit {0}) (λ e. is_outside e ≡ false) (slept world answer)
  slept-outside none = tt
  slept-outside (some e) = refl

  sleep-outside :
      (delay : ℕ) (calls : List GatewayCall)
      → Outcome
          (λ (u : Unit {0}). Unit {0})
          (λ e. is_outside e ≡ false)
          (sleep_with_context world delay calls).0
  unfolding sleep_with_context
  sleep-outside delay calls = slept-outside (world.on_sleep calls)

  retry-IsChat :
      (again : Run ChatResponse) (attempt : ℕ)
      (first : Result LlmError ChatResponse × List GatewayCall)
      → IsChat first.0
      → ((calls : List GatewayCall) → IsChat (again calls).0)
      → IsChat (retry world again attempt first).0
  retry-IsChat again attempt (ok response, calls) once rest = once
  retry-IsChat again attempt (err e, calls) once rest = elim (Bool-cases (is_retryable e)) [
    | inl retryable ↦ rw retryable (
        >>=-Outcome (λ (u : Unit {0}). Unit {0}) (λ response. has_choices response ≡ true)
          (λ e. is_outside e ≡ false) (sleep_with_context world (retry_delay attempt)) (λ u. again)
          (sleep-outside (retry_delay attempt)) (λ u slept. rest) calls)
    | inr final ↦ rw final once
  ]

  chat_loop-IsChat :
      (left attempt : ℕ) (body : String) (calls : List GatewayCall)
      → IsChat (chat_loop world left attempt client body calls).0
  unfolding chat_loop
  chat_loop-IsChat zero attempt body calls = do_chat-IsChat body calls
  chat_loop-IsChat (suc left) attempt body calls =
      retry-IsChat (chat_loop world left (suc attempt) client body) attempt
        (do_chat world client body calls) (do_chat-IsChat body calls)
        (chat_loop-IsChat left (suc attempt) body)

  encoded-outside :
      (answer : Result String String)
      → Outcome (λ (body : String). Unit {0}) (λ e. is_outside e ≡ false) (encoded world answer)
  encoded-outside (ok body) = tt
  encoded-outside (err e) = refl

  pub chat-IsChat :
      (req : ChatRequest) (calls : List GatewayCall) → IsChat (chat world client req calls).0
  unfolding chat
  chat-IsChat req =
      >>=-Outcome (λ (body : String). Unit {0}) (λ response. has_choices response ≡ true)
        (λ e. is_outside e ≡ false) (lift (encoded world (world.encode _)))
        (chat_loop world attempts_after_first 0 client) (λ calls. encoded-outside (world.encode _))
        (λ body u. chat_loop-IsChat attempts_after_first 0 body)
