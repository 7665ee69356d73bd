-- ===== src/Llm/Context.antt =====
-- internal/llm/context.go, strategy_write.go and strategy_compress.go: keeping a conversation
-- within a token budget.
pub mod Budget
pub mod Recent
use Prim.Native.String.{◌++◌ as str_append}
use mathlib.Core.List.{reverse}
use agent_exec_engine.Prelude.{
  ℕ, ◌+◌, ◌-◌, String, Bool, true, false, List, [], ◌∷◌, ◌++◌, Option, none, some, if◌then◌else◌,
  ◌==◌, leb, ltb, length, Result, ok, err,
}
use agent_exec_engine.Prelude.Int.{ℤ, pos, negsuc, minus, has_room}
use agent_exec_engine.Llm.Message.{
  ChatToolCall, ChatMessage, is_system, estimate_message_tokens, estimate_tokens,
}
use agent_exec_engine.Llm.Select.{Text, fit_select}

-- The strategies of the source; any other text falls back to `write`.
pub data ContextStrategy : Type 0 where
  write select compress : ContextStrategy
  other_strategy : String → ContextStrategy

-- A chat call of the client: the messages go in, the contents of the choices or an error come out.
abbrev pub Client : Type 0
Client = List ChatMessage → Result String (List String)

pub record ContextManager : Type 0 where
  pub max_tokens : ℕ
  pub strategy : ContextStrategy
  pub client : Option Client

-- The strategy "" stands for `write`.
abbrev or_write : ContextStrategy → ContextStrategy
or_write write = write
or_write select = select
or_write compress = compress
or_write (other_strategy name) = if name == "" then write else other_strategy name

-- A budget that is not positive stands for the default.
abbrev or_default : ℤ → ℕ
or_default (pos n) = if ltb 0 n then n else 4096
or_default (negsuc n) = 4096

unfoldable new_context_manager : ℤ → ContextStrategy → Option Client → ContextManager
new_context_manager max_tokens strategy client = record {
  max_tokens = or_default max_tokens;
  strategy = or_write strategy;
  client = client;
}

-- The loop that takes the messages apart: the last system message, and the others in their order.
unfoldable pub last_system : List ChatMessage → Option ChatMessage → Option ChatMessage
last_system [] found = found
last_system (m ∷ ms) found = last_system ms (if is_system m then some m else found)

unfoldable pub without_system : List ChatMessage → List ChatMessage
without_system [] = []
without_system (m ∷ ms) = let rest = without_system ms in if is_system m then rest else m ∷ rest

abbrev pub with_system : Option ChatMessage → List ChatMessage → List ChatMessage
with_system none kept = kept
with_system (some m) kept = m ∷ kept

-- All but the last n of a list, and the last n.
unfoldable split_last : ℕ → List ChatMessage → List ChatMessage × List ChatMessage
split_last n [] = ([], [])
split_last n (m ∷ ms) =
    let (before, after) = split_last n ms in
    if leb (length (m ∷ ms)) n then ([], m ∷ ms) else (m ∷ before, after)

module _ (marshal : List ChatToolCall → String) where
  abbrev pub system_cost : Option ChatMessage → ℕ
  system_cost none = 0
  system_cost (some m) = estimate_message_tokens marshal m

  -- The backward loop of `fitWrite`, from the newest message on, with what is kept so far.
  unfoldable pub keep_recent : ℤ → List ChatMessage → List ChatMessage → List ChatMessage
  keep_recent budget [] kept = kept
  keep_recent budget (m ∷ older) kept =
      let rest = keep_recent (minus budget (estimate_message_tokens marshal m)) older (m ∷ kept) in
      if has_room budget (estimate_message_tokens marshal m) then rest else kept

  unfoldable pub fit_write : ContextManager → List ChatMessage → List ChatMessage
  fit_write cm messages =
      let system = last_system messages none in
      with_system system (
        keep_recent (minus (pos cm.max_tokens) (system_cost system))
          (reverse (without_system messages)) [])

  -- The text that is to be summarised, a line for each message.
  unfoldable transcript : List ChatMessage → String
  transcript [] = ""
  transcript (m ∷ ms) = str_append "[" (
      str_append m.role (str_append "]: " (str_append m.content (str_append "\n" (transcript ms)))))

  abbrev plain_message : String → String → ChatMessage
  plain_message role content = record {
    role = role;
    content = content;
    tool_calls = [];
    tool_call_id = "";
  }

  abbrev summary_prompt : String
  summary_prompt =
      "Summarize the following conversation concisely, preserving key facts, decisions, and tool results. Output only the summary."

  abbrev first_choice : Result String (List String) → Result String String
  first_choice (ok []) = err "empty response from summarization"
  first_choice (ok (content ∷ others)) = ok content
  first_choice (err e) = err e

  unfoldable summarize : Client → List ChatMessage → Result String String
  unfolding transcript
  summarize client messages = first_choice (
      client
        (plain_message "system" summary_prompt ∷ plain_message "user" (transcript messages) ∷ []))

  abbrev summary_message : String → ChatMessage
  summary_message summary = plain_message "assistant" (str_append "[Context Summary] " summary)

  -- What is done once the messages are taken apart and a client is there.
  unfoldable compress_rest :
      ContextManager
      → Client
      → List ChatMessage
      → Option ChatMessage
      → List ChatMessage
      → List ChatMessage
  unfolding summarize
  compress_rest cm client messages system rest =
      if leb (length rest) 2
      then messages
      else let (to_compress, recent) = split_last 2 rest in
        elim (summarize client to_compress) [
          | err e ↦ fit_write cm messages
          | ok summary ↦ with_system system (summary_message summary ∷ recent)
        ]

  unfoldable fit_compress : ContextManager → List ChatMessage → List ChatMessage
  unfolding compress_rest
  fit_compress cm messages = elim (cm.client) [
    | none ↦ fit_write cm messages
    | some client ↦
        compress_rest cm client messages (last_system messages none) (without_system messages)
  ]

  unfoldable fit : Text → ContextManager → List ChatMessage → List ChatMessage
  fit text cm messages =
      if leb (estimate_tokens marshal messages) cm.max_tokens
      then messages
      else elim (cm.strategy) [
        | write ↦ fit_write cm messages
        | select ↦ fit_select marshal text cm.max_tokens messages
        | compress ↦ fit_compress cm messages
        | other_strategy name ↦ fit_write cm messages
      ]
