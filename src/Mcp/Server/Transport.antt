-- ===== src/Mcp/Server/Transport.antt =====
-- internal/mcp/server.go and stdio.go: messages over HTTP and over standard input and output. The
-- reader, the writer and the context are parameters.
use agent_exec_engine.Prelude.{
  ℕ, suc, String, List, [], ◌∷◌, ◌++◌, Option, none, some, if◌then◌else◌, ◌==◌, length, Result, ok,
  err,
}
use agent_exec_engine.Prelude.Texts.{trim_space}
use agent_exec_engine.Types.{null}
use agent_exec_engine.Mcp.Registry.{Runtime}
use agent_exec_engine.Mcp.Server.{Codec, Server, err_parse, err_internal, Body, error, reply_error}
use agent_exec_engine.Mcp.Server.Messages.{Reply, single, batch, Order, handle_message}

-- `method_not_allowed` is the answer 405, which is no JSON.
pub data HttpAnswer : Type 0 where
  method_not_allowed : HttpAnswer
  answer : ℕ → Reply → HttpAnswer

abbrev status_of_error : Body → ℕ
status_of_error (error err_parse) = 400
status_of_error _ = 200

abbrev status_of : Reply → ℕ
status_of (single response) = status_of_error response.body
status_of (batch responses) = 200

-- The lines that the scanner finds, and the error that it ends with; the context's error at a line;
-- the time of a line; and the error of a write, by how many were written before.
pub record Stdio : Type 0 where
  pub lines : List String
  pub scan_error : Option String
  pub ctx_error : ℕ → Option String
  pub clock : ℕ → ℕ
  pub write_error : ℕ → Option String

pub data StdioError : Type 0 where
  stopped write_parse_error normalize_payload write_response read_request : String → StdioError

-- The end of a call, the server, and what was written, oldest first.
abbrev pub Served : Type 0
Served = Result StdioError (Unit {0}) × Server × List Reply

abbrev pub write_reply : Stdio → (String → StdioError) → Reply → Server → List Reply → Served
write_reply io wrap reply s written = elim (io.write_error (length written)) [
  | none ↦ (ok tt, s, written ++ reply ∷ [])
  | some e ↦ (err (wrap e), s, written)
]

abbrev pub and_then : Served → (Server → List Reply → Served) → Served
and_then (ok _, s, written) next = next s written
and_then (err e, s, written) next = (err e, s, written)

module _ (runtime : Runtime) (codec : Codec) (order : Order) where
  unfoldable serve_http : ℕ → String → Result String String → Server → Server × HttpAnswer
  serve_http now method body s =
      if method == "POST"
      then elim body [
        | err e ↦ (s, answer 400 (single (reply_error null err_internal)))
        | ok text ↦
            let (s', reply) = handle_message runtime codec order now text s in
            (s', answer (status_of reply) reply)
      ]
      else (s, method_not_allowed)

  -- A round of the loop of `ServeStdio`, for the line with a number.
  unfoldable pub serve_line : Stdio → ℕ → String → Server → List Reply → Served
  serve_line io n line s written = elim (io.ctx_error n) [
    | some e ↦ (err (stopped e), s, written)
    | none ↦
        let trimmed = trim_space line in
        if trimmed == "" then (ok tt, s, written) else elim (codec.normalize trimmed) [
          | none ↦ write_reply io write_parse_error (single (reply_error null err_parse)) s written
          | some (err e) ↦ (err (normalize_payload e), s, written)
          | some (ok text) ↦
              let (s', reply) = handle_message runtime codec order (io.clock n) text s in
              write_reply io write_response reply s' written
        ]
  ]

  abbrev pub scanned : Stdio → Server → List Reply → Served
  scanned io s written = elim (io.scan_error) [
    | none ↦ (ok tt, s, written)
    | some e ↦ (err (read_request e), s, written)
  ]

  unfoldable pub serve_lines : Stdio → ℕ → List String → Server → List Reply → Served
  unfolding serve_line
  serve_lines io n [] s written = scanned io s written
  serve_lines io n (line ∷ lines) s written =
      and_then (serve_line io n line s written) (serve_lines io (suc n) lines)

  unfoldable pub serve_stdio : Stdio → Server → Served
  unfolding serve_lines
  serve_stdio io s = serve_lines io 0 io.lines s []
