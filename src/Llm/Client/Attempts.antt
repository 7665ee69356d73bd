-- ===== src/Llm/Client/Attempts.antt =====
-- internal/llm/client.go: how often a chat request is sent.
use Prim.Native.Nat.{zero, suc}
use agent_exec_engine.Prelude.{
  ℕ, ◌+◌, ◌≤◌, String, ◌≡◌, List, [], ◌∷◌, Option, none, some, Result, ok, err, arith, Bool-cases,
  inl, inr, if◌then◌else◌, ◌==◌,
}
use agent_exec_engine.Prelude.Logged.{lift}
use agent_exec_engine.Prelude.Logged.Growth.{Spends, >>=-Spends}
use agent_exec_engine.Llm.Gateway.{
  ChatRequest, ChatResponse, HttpRequest, NetError, LlmError, Gateway, GatewayCall, post,
  request_gpu, release_gpu, Run,
}
use agent_exec_engine.Llm.Client.{
  Client, do_chat, send, retry, chat_loop, chat, retry_delay, sleep_with_context, is_retryable,
  attempts_after_first, encoded,
}

abbrev pub posts : List GatewayCall → ℕ
posts [] = 0
posts (post request ∷ calls) = 1 + posts calls
posts (_ ∷ calls) = posts calls

-- How often a GPU was granted to a task, and how often its release was asked for.
abbrev pub grants : List GatewayCall → String → ℕ
grants [] task = 0
grants (request_gpu asked count memory none ∷ calls) task =
    (if asked == task then 1 else 0) + grants calls task
grants (_ ∷ calls) task = grants calls task

abbrev pub releases : List GatewayCall → String → ℕ
releases [] task = 0
releases (release_gpu asked ∷ calls) task = (if asked == task then 1 else 0) + releases calls task
releases (_ ∷ calls) task = releases calls task

-- At most `used` requests were posted, and GPUs were granted to each task and released this often.
pub record Spent (granted released : String → ℕ) (used : ℕ) (calls : List GatewayCall)
    : Type 0 where
  pub posted : posts calls ≤ used
  pub same_grants : (task : String) → grants calls task ≡ granted task
  pub same_releases : (task : String) → releases calls task ≡ released task

pub widen-Spent :
    (granted released : String → ℕ) (m n : ℕ) (calls : List GatewayCall)
    → m ≤ n
    → Spent granted released m calls
    → Spent granted released n calls
widen-Spent granted released m n calls more spent = record {
  posted = omega (arith, more, spent.posted);
  same_grants = spent.same_grants;
  same_releases = spent.same_releases;
}

module _ (world : Gateway) (client : Client) (granted released : String → ℕ) where
  send-Spends :
      (request : HttpRequest) (refused : Option NetError)
      → Spends (Spent granted released) 1 (send world request refused)
  send-Spends request (some e) used calls spent =
      widen-Spent granted released used (used + 1) calls (omega arith) spent
  send-Spends request none used calls spent = record {
    posted = omega (arith, spent.posted);
    same_grants = spent.same_grants;
    same_releases = spent.same_releases;
  }

  do_chat-Spends : (body : String) → Spends (Spent granted released) 1 (do_chat world client body)
  unfolding do_chat
  do_chat-Spends body = send-Spends _ (world.new_request _)

  sleep-Spends : (delay : ℕ) → Spends (Spent granted released) 0 (sleep_with_context world delay)
  unfolding sleep_with_context
  sleep-Spends delay used calls spent = record {
    posted = omega (arith, spent.posted);
    same_grants = spent.same_grants;
    same_releases = spent.same_releases;
  }

  retry-Spends :
      (again : Run ChatResponse) (n attempt used : ℕ)
      → (first : Result LlmError ChatResponse × List GatewayCall)
      → Spent granted released (used + 1) first.1
      → Spends (Spent granted released) n again
      → Spent granted released (used + (1 + n)) (retry world again attempt first).1
  retry-Spends again n attempt used (ok response, later) once rest =
      widen-Spent granted released (used + 1) (used + (1 + n)) later (omega arith) once
  retry-Spends again n attempt used (err e, later) once rest = elim (Bool-cases (is_retryable e)) [
    | inl retryable ↦ rw retryable (
        widen-Spent granted released (used + 1 + (0 + n)) (used + (1 + n)) _ (omega arith) (
          >>=-Spends (Spent granted released) (widen-Spent granted released) 0 n
            (sleep_with_context world (retry_delay attempt)) (λ slept. again)
            (sleep-Spends (retry_delay attempt)) (λ slept. rest) (used + 1) later once))
    | inr final ↦
        rw final (widen-Spent granted released (used + 1) (used + (1 + n)) later (omega arith) once)
  ]

  chat_loop-Spends :
      (left attempt : ℕ) (body : String)
      → Spends (Spent granted released) (1 + left) (chat_loop world left attempt client body)
  unfolding chat_loop
  chat_loop-Spends zero attempt body used calls spent = do_chat-Spends body used calls spent
  chat_loop-Spends (suc left) attempt body used calls spent =
      widen-Spent granted released (used + (1 + (1 + left))) (used + (1 + suc left)) _ (omega arith)
        (retry-Spends (chat_loop world left (suc attempt) client body) (1 + left) attempt used
          (do_chat world client body calls) (do_chat-Spends body used calls spent)
          (chat_loop-Spends left (suc attempt) body))

  pub chat-Spends : (req : ChatRequest) → Spends (Spent granted released) 3 (chat world client req)
  unfolding chat
  chat-Spends req =
      >>=-Spends (Spent granted released) (widen-Spent granted released) 0 3
        (lift (encoded world _)) (λ body. chat_loop world attempts_after_first 0 client body)
        (λ used calls spent. widen-Spent granted released used (used + 0) calls (omega arith) spent)
        (λ body. chat_loop-Spends attempts_after_first 0 body)
