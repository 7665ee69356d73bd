-- ===== src/Llm/Conversation/Settled.antt =====
-- internal/llm/executor.go: the GPU that a step holds, and the whole of what it posts.
use agent_exec_engine.Prelude.{
  refl, ℕ, ◌+◌, ◌≤◌, String, Bool, true, false, ◌≡◌, List, ◌∷◌, Option, none, some, Map, Result, ok,
  err, arith, if◌then◌else◌,
}
use agent_exec_engine.Prelude.Logged.{continue, return}
use agent_exec_engine.Prelude.Int.{ℤ}
use agent_exec_engine.Types.{Value, Step}
use agent_exec_engine.Llm.Message.{ChatMessage}
use agent_exec_engine.Llm.Gateway.{
  Tool, LlmError, gpu_failed, request_gpu, Gateway, GatewayCall, Run,
}
use agent_exec_engine.Llm.Client.Attempts.{posts, grants, releases, Spent}
use agent_exec_engine.Llm.Conversation.{
  LlmExecutor, run_conversation, max_tool_rounds, needs_gpu, request, reserve_gpu, release_gpu,
  finish, execute, after_release, failed_with,
}
use agent_exec_engine.Llm.Prompt.{build_messages, definitions_to_tools, int_from_config}
use agent_exec_engine.Llm.Conversation.Budget.{run_conversation-Within}

-- The balance of each task's GPU reservations, and the posts, of calls.
pub record IsSettled (before after : List GatewayCall) (n : ℕ) : Type 0 where
  pub posted : posts after ≤ posts before + n
  pub settled :
      (task : String)
      → grants after task + releases before task ≡ grants before task + releases after task

module _ (world : Gateway) (e : LlmExecutor) (step : Step) where
  after_release-calls :
      (result : Result LlmError String) (r : Result LlmError (Unit {0}) × List GatewayCall)
      → (after_release world result r).1 ≡ r.1
  after_release-calls (err e) r = refl
  after_release-calls (ok output) (err e, calls) = refl
  after_release-calls (ok output) (ok done, calls) = refl

  talk-Spent :
      (messages : List ChatMessage) (tools : List Tool) (calls : List GatewayCall)
      → Spent
          (grants calls)
          (releases calls)
          (posts calls + 30)
          (run_conversation world max_tool_rounds e messages tools calls).1
  talk-Spent messages tools calls =
      run_conversation-Within (grants calls) (releases calls) world max_tool_rounds e messages tools
        (posts calls) calls
        (record { posted = omega arith; same_grants = λ task. refl; same_releases = λ task. refl })

  abbrev conversed : List ChatMessage → List Tool → Run String
  conversed messages tools calls =
      finish world e step (run_conversation world max_tool_rounds e messages tools calls)

  conversed-calls :
      (messages : List ChatMessage) (tools : List Tool) (calls : List GatewayCall)
      → (conversed messages tools calls).1
        ≡ (release_gpu world e step
            (run_conversation world max_tool_rounds e messages tools calls).1).1
  conversed-calls messages tools calls =
      let talk = run_conversation world max_tool_rounds e messages tools calls in
      after_release-calls talk.0 (release_gpu world e step talk.1)

  granted-IsSettled :
      (messages : List ChatMessage) (tools : List Tool) (calls : List GatewayCall)
      (count memory : ℤ) (answer : Option String)
      → needs_gpu world e step ≡ true
      → IsSettled calls
          (continue
            (λ (u : Unit {0}). conversed messages tools)
            (
              failed_with world gpu_failed answer,
              request_gpu step.id count memory answer ∷ calls,
            )).1
          30
  unfolding release_gpu
  granted-IsSettled messages tools calls count memory (some refused) needed = record {
    posted = omega arith;
    settled = λ task. refl;
  }
  granted-IsSettled messages tools calls count memory none needed =
      let taken = request_gpu step.id count memory none ∷ calls in
      let spent = talk-Spent messages tools taken in
      record {
        posted = rw (conversed-calls messages tools taken, release_gpu, needed) spent.posted;
        settled =
            rw (conversed-calls messages tools taken, release_gpu, needed)
              (λ task. omega (arith, spent.same_grants task, spent.same_releases task));
      }

  idle-IsSettled :
      (messages : List ChatMessage) (tools : List Tool) (calls : List GatewayCall)
      → needs_gpu world e step ≡ false
      → IsSettled calls (conversed messages tools calls).1 30
  unfolding release_gpu
  idle-IsSettled messages tools calls unneeded =
      let spent = talk-Spent messages tools calls in
      record {
        posted = rw (conversed-calls messages tools calls, release_gpu, unneeded) spent.posted;
        settled =
            rw (conversed-calls messages tools calls, release_gpu, unneeded)
              (λ task. omega (arith, spent.same_grants task, spent.same_releases task));
      }

  reserved-IsSettled :
      (messages : List ChatMessage) (tools : List Tool) (calls : List GatewayCall) (needed : Bool)
      → needs_gpu world e step ≡ needed
      → IsSettled calls
          (continue
            (λ (u : Unit {0}). conversed messages tools)
            ((if needed then request world step else return tt) calls)).1
          30
  reserved-IsSettled messages tools calls true needed =
      granted-IsSettled messages tools calls (int_from_config world step.config "gpu_count")
        (int_from_config world step.config "gpu_memory_min") (world.on_request_gpu calls) needed
  reserved-IsSettled messages tools calls false unneeded =
      idle-IsSettled messages tools calls unneeded

-- An LLM step asks for the release of each GPU that it was granted, under the task's ID under which
-- it was granted, whichever way its conversation ends, and of none that it was not; and it posts at
-- most thirty requests to the gateway, retries included.
pub execute-IsSettled :
    (world : Gateway) (e : LlmExecutor) (step : Step) (input : Map Value) (calls : List GatewayCall)
    → IsSettled calls (execute world e step input calls).1 30
unfolding execute reserve_gpu
execute-IsSettled world e step input calls =
    let messages = build_messages world step.config input in
    let tools = definitions_to_tools world e.registry in
    reserved-IsSettled world e step messages tools calls (needs_gpu world e step) refl
