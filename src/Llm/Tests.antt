-- ===== src/Llm/Tests.antt =====
-- A short conversation, and the theorems at concrete inputs.
use agent_exec_engine.Llm.Stream.{StreamChoice, consume_stream}
use agent_exec_engine.Llm.Stream.Chunks.{IsSent, consume_stream-IsSent}
use agent_exec_engine.Prelude.{
  Result, ok, ℕ, ◌≤◌, ◌<◌, ◌≡◌, String, true, List, [], ◌∷◌, none, arith,
}
use agent_exec_engine.Llm.Message.{
  ChatToolCall, ChatMessage, estimate_message_tokens, estimate_tokens,
}
use agent_exec_engine.Llm.Select.{count_words, overlap_score, score_zero, score_gt}
use agent_exec_engine.Llm.Select.Overlap.{repeat, overlap_score-repeat}
use agent_exec_engine.Llm.Context.{ContextManager, write, fit_write, last_system}
use agent_exec_engine.Llm.Context.Budget.{fit_write-le, fit_write-over}
use agent_exec_engine.Llm.Context.Recent.{IsRecent, fit_write-IsRecent}

abbrev marshal : List ChatToolCall → String
marshal calls = ""

abbrev message : String → String → ChatMessage
message role content = record { role = role; content = content; tool_calls = []; tool_call_id = "" }

abbrev conversation : List ChatMessage
conversation =
    message "system" "be brief"
    ∷ message "user" "what is a graph, and what is it good for in this program?"
    ∷ message "assistant" "steps and edges"
    ∷ message "user" "and a step?"
    ∷ []

-- A budget for the system message and the last two, and one that is too small for the first.
abbrev of_budget : ℕ → ContextManager
of_budget n = record { max_tokens = n; strategy = write; client = none }

fit_write-le_example : estimate_tokens marshal (fit_write marshal (of_budget 25) conversation) ≤ 25
unfolding estimate_message_tokens last_system
fit_write-le_example = fit_write-le marshal (of_budget 25) conversation (omega arith)

fit_write-over_example : 3 < estimate_tokens marshal (fit_write marshal (of_budget 3) conversation)
unfolding estimate_message_tokens last_system
fit_write-over_example = fit_write-over marshal (of_budget 3) conversation (omega arith)

fit_write-IsRecent_example :
    IsRecent marshal (of_budget 25) conversation (fit_write marshal (of_budget 25) conversation)
fit_write-IsRecent_example = fit_write-IsRecent marshal (of_budget 25) conversation

overlap_score-repeat_example :
    score_gt score_zero
      (overlap_score (count_words (repeat 3 "go") []) (count_words (repeat 3 "go") []))
    ≡ true
overlap_score-repeat_example = overlap_score-repeat 3 "go" (omega arith)

-- A comment, a chunk, the mark at the end, and a line after it; no chunk has choices.
abbrev stream_lines : List String
stream_lines = ": hello" ∷ "data: {}" ∷ "data: [DONE]" ∷ "data: {}" ∷ []

abbrev no_choices : String → Result String (List StreamChoice)
no_choices payload = ok []

consume_stream-IsSent_example :
    IsSent no_choices stream_lines none (consume_stream no_choices stream_lines none)
consume_stream-IsSent_example = consume_stream-IsSent no_choices stream_lines none
