-- ===== src/Mcp/Server/Messages.antt =====
-- internal/mcp/server.go: messages, which are one request or a batch. The goroutines of a batch run
-- one after the other, in an order of their numbers that is a parameter; a request is one step of
-- it.
use agent_exec_engine.Prelude.{
  ℕ, zero, suc, String, List, [], ◌∷◌, Option, none, some, if◌then◌else◌, ◌==◌, length, set,
  get_elem?,
}
use agent_exec_engine.Prelude.Texts.{trim_space, has_prefix}
use agent_exec_engine.Types.{null}
use agent_exec_engine.Mcp.Registry.{Runtime}
use agent_exec_engine.Mcp.Server.{
  Response, Codec, Server, err_parse, err_invalid_request, reply_error, handle_request_bytes,
}

-- A response of a batch that has not been written is the zero value, `none`.
pub data Reply : Type 0 where
  single : Response → Reply
  batch : List (Option Response) → Reply

-- make([]JSONRPCResponse, n)
unfoldable pub blank : ℕ → List (Option Response)
blank zero = []
blank (suc n) = none ∷ blank n

-- How Go runs the goroutines with the numbers below a bound.
abbrev pub Order : Type 0
Order = ℕ → List ℕ

module _ (runtime : Runtime) (codec : Codec) where
  -- What the goroutine with a number does; there is none for a number out of bounds.
  abbrev answer_one :
      ℕ → Option String → ℕ → Server × List (Option Response) → Server × List (Option Response)
  answer_one now none i (s, responses) = (s, responses)
  answer_one now (some payload) i (s, responses) =
      let (s', response) = handle_request_bytes runtime codec now payload s in
      (s', set responses i (some response))

  unfoldable pub answer_all :
      ℕ → List String → List ℕ → Server × List (Option Response) → Server × List (Option Response)
  unfolding get_elem?
  answer_all now raws [] state = state
  answer_all now raws (i ∷ rest) state =
      answer_all now raws rest (answer_one now (get_elem? raws i) i state)

  module _ (order : Order) where
    unfoldable pub handle_batch_message : ℕ → String → Server → Server × Reply
    unfolding answer_all blank
    handle_batch_message now body s = elim (codec.decode_batch body) [
      | none ↦ (s, single (reply_error null err_parse))
      | some [] ↦ (s, single (reply_error null err_invalid_request))
      | some (raw ∷ raws) ↦
          let n = suc (length raws) in
          let (s', responses) = answer_all now (raw ∷ raws) (order n) (s, blank n) in
          (s', batch responses)
    ]

    unfoldable pub handle_message : ℕ → String → Server → Server × Reply
    unfolding handle_batch_message
    handle_message now body s =
        let trimmed = trim_space body in
        if trimmed == ""
        then (s, single (reply_error null err_invalid_request))
        else if has_prefix trimmed "["
        then handle_batch_message now trimmed s
        else let (s', response) = handle_request_bytes runtime codec now trimmed s in
          (s', single response)
