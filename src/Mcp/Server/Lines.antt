-- ===== src/Mcp/Server/Lines.antt =====
-- internal/mcp/stdio.go: how many answers are written.
use agent_exec_engine.Prelude.{
  ℕ, suc, ◌+◌, ◌≤◌, String, ◌≡◌, refl, List, [], ◌∷◌, if◌then◌else◌, ◌==◌, length, length-append,
  ok, err, arith, Option-cases, Bool-cases, inl, inr,
}
use agent_exec_engine.Prelude.Texts.{trim_space}
use agent_exec_engine.Types.{null}
use agent_exec_engine.Mcp.Registry.{Runtime}
use agent_exec_engine.Mcp.Server.{Codec, Server, err_parse, reply_error}
use agent_exec_engine.Mcp.Server.Messages.{Reply, single, Order, handle_message}
use agent_exec_engine.Mcp.Server.Transport.{
  Stdio, StdioError, write_parse_error, write_response, Served, and_then, write_reply, serve_line,
  serve_lines, serve_stdio,
}

-- The lines that are not blank.
unfoldable pub count_filled : List String → ℕ
count_filled [] = 0
count_filled (line ∷ lines) = (if trim_space line == "" then 0 else 1) + count_filled lines

-- `given` more lines are answered, each once, or some of them if the call fails.
record Answers (given : ℕ) (written : List Reply) (r : Served) : Type 0 where
  most : length r.2 ≤ length written + given
  all : r.0 ≡ ok tt → length r.2 ≡ length written + given

write_reply-Answers :
    (io : Stdio) (wrap : String → StdioError) (reply : Reply) (s : Server) (written : List Reply)
    → Answers 1 written (write_reply io wrap reply s written)
write_reply-Answers io wrap reply s written =
    let longer = length-append written (reply ∷ []) in
    record { most = ground (arith, longer); all = λ e. ground (arith, longer, e) }

module _ (runtime : Runtime) (codec : Codec) (order : Order) (io : Stdio) where
  serve_line-Answers :
      (n : ℕ) (line : String) (s : Server) (written : List Reply)
      → Answers
          (if trim_space line == "" then 0 else 1)
          written
          (serve_line runtime codec order io n line s written)
  unfolding serve_line
  serve_line-Answers n line s written = elim (Option-cases (io.ctx_error n)) [
    | inr (e, stops) ↦ record {
      most = ground (arith, stops);
      all = λ h. absurd (ground (arith, stops, h));
    }
    | inl goes ↦ elim (Bool-cases (trim_space line == "")) [
      | inl empty ↦ record {
        most = ground (arith, goes, empty);
        all = λ h. ground (arith, goes, empty);
      }
      | inr filled ↦ elim (Option-cases (codec.normalize (trim_space line))) [
        | inl none_read ↦
            rw (goes, filled, none_read, serve_line)
              (write_reply-Answers io write_parse_error (single (reply_error null err_parse)) s
                written)
        | inr (err e, bad) ↦ record {
          most = ground (arith, goes, filled, bad);
          all = λ h. absurd (ground (arith, goes, filled, bad, h));
        }
        | inr (ok text, read) ↦
            let (s', reply) = handle_message runtime codec order (io.clock n) text s in
            rw (goes, filled, read, serve_line)
              (write_reply-Answers io write_response reply s' written)
      ]
    ]
  ]

  followed :
      (given more : ℕ) (written : List Reply) (r : Served) (next : Server → List Reply → Served)
      → Answers given written r
      → ((s : Server) (w : List Reply) → Answers more w (next s w))
      → Answers (given + more) written (and_then r next)
  followed given more written (ok _, s, w) next one rest =
      let last = rest s w in
      record {
        most = omega (arith, one.all refl, last.most);
        all = λ e. omega (arith, one.all refl, last.all e);
      }
  followed given more written (err e, s, w) next one rest = record {
    most = omega (arith, one.most);
    all = λ h. absurd (ground (arith, h));
  }

  serve_lines-Answers :
      (n : ℕ) (lines : List String) (s : Server) (written : List Reply)
      → Answers (count_filled lines) written (serve_lines runtime codec order io n lines s written)
  unfolding serve_lines count_filled
  serve_lines-Answers n [] s written = record { most = ground arith; all = λ e. ground arith }
  serve_lines-Answers n (line ∷ lines) s written =
      followed (if trim_space line == "" then 0 else 1) (count_filled lines) written
        (serve_line runtime codec order io n line s written)
        (serve_lines runtime codec order io (suc n) lines) (serve_line-Answers n line s written)
        (serve_lines-Answers (suc n) lines)

  -- Over standard input and output, no more answers are written than there are lines that are not
  -- blank; and if the call ends without an error, exactly as many.
  pub serve_stdio-count :
      (s : Server)
      → (length (serve_stdio runtime codec order io s).2 ≤ count_filled io.lines)
        × ((serve_stdio runtime codec order io s).0 ≡ ok tt
            → length (serve_stdio runtime codec order io s).2 ≡ count_filled io.lines)
  unfolding serve_stdio
  serve_stdio-count s =
      let w = serve_lines-Answers 0 io.lines s [] in
      (omega (arith, w.most), λ e. omega (arith, w.all e))
