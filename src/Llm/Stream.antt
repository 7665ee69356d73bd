-- ===== src/Llm/Stream.antt =====
-- internal/llm/stream.go: the chunks of a streamed answer. A stream is the list of its lines, and the
-- scanner's error at its end.
pub mod Open
pub mod Chunks
use agent_exec_engine.Prelude.{
  String, not, ◌||◌, List, [], ◌∷◌, Option, none, some, if◌then◌else◌, ◌==◌, Result, ok, err,
}
use agent_exec_engine.Prelude.Int.{ℤ}
use agent_exec_engine.Prelude.Texts.{trim_space, has_prefix, trim_prefix}
use agent_exec_engine.Llm.Message.{ChatMessage}

pub record StreamChoice : Type 0 where
  pub delta : ChatMessage
  pub finish_reason : String
  pub index : ℤ

-- A line that is passed over, the end, a chunk, or one that cannot be decoded.
pub data StreamLine : Type 0 where
  skipped done : StreamLine
  chunk : List StreamChoice → StreamLine
  undecodable : String → StreamLine

pub data StreamError : Type 0 where
  decode_failed scan_failed : String → StreamError

abbrev chunk_of : Result String (List StreamChoice) → StreamLine
chunk_of (ok choices) = chunk choices
chunk_of (err e) = undecodable e

module _ (decode : String → Result String (List StreamChoice)) where
  unfoldable pub parse_stream_line : String → StreamLine
  parse_stream_line raw =
      let line = trim_space raw in
      let payload = trim_space (trim_prefix line "data: ") in
      if line == "" || has_prefix line ":" || not (has_prefix line "data: ")
      then skipped
      else if payload == "[DONE]"
      then done
      else chunk_of (decode payload)

  abbrev at_end : Option String → List (Result StreamError (List StreamChoice))
  at_end none = []
  at_end (some e) = err (scan_failed e) ∷ []

  -- What `consumeStream` sends on the channel, in order.
  unfoldable pub consume_stream :
      List String → Option String → List (Result StreamError (List StreamChoice))
  unfolding parse_stream_line
  consume_stream [] scan_error = at_end scan_error
  consume_stream (raw ∷ lines) scan_error =
      let rest = consume_stream lines scan_error in
      elim (parse_stream_line raw) [
        | skipped ↦ rest
        | done ↦ []
        | chunk choices ↦ ok choices ∷ rest
        | undecodable e ↦ err (decode_failed e) ∷ []
      ]
