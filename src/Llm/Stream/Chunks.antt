-- ===== src/Llm/Stream/Chunks.antt =====
-- internal/llm/stream.go: what is sent on the channel of a stream.
use agent_exec_engine.Prelude.{
  ◌≡◌, ◌≢◌, ◌⊎◌, refl, String, true, false, List, [], ◌∷◌, ◌++◌, Option, none, some, Result, ok,
  err, ap, subst, Bool-cases, Result-cases, inl, inr, ◌==◌, eq_iff, arith,
}
use agent_exec_engine.Prelude.Texts.{trim_space, has_prefix, trim_prefix}
use agent_exec_engine.Llm.Stream.{
  StreamChoice, StreamLine, skipped, done, chunk, undecodable, StreamError, decode_failed,
  scan_failed, parse_stream_line, consume_stream,
}

-- A line of the body that is blank, a comment or another field of an event.
abbrev IsPassed : String → Type 0
IsPassed raw =
    (trim_space raw ≡ "")
    ⊎ ((has_prefix (trim_space raw) ":" ≡ true) ⊎ (has_prefix (trim_space raw) "data: " ≡ false))

-- A line of the body that carries a payload.
record HasPayload (raw payload : String) : Type 0 where
  text : trim_space raw ≢ ""
  data_field : has_prefix (trim_space raw) "data: " ≡ true
  no_comment : has_prefix (trim_space raw) ":" ≡ false
  payload_of : payload ≡ trim_space (trim_prefix (trim_space raw) "data: ")

unfoldable all_ok : List (List StreamChoice) → List (Result StreamError (List StreamChoice))
all_ok [] = []
all_ok (choices ∷ rest) = ok choices ∷ all_ok rest

abbrev last_error : Option StreamError → List (Result StreamError (List StreamChoice))
last_error none = []
last_error (some e) = err e ∷ []

module _ (decode : String → Result String (List StreamChoice)) where
  -- What a line of the body says.
  data Reads (raw : String) : StreamLine → Type 0 where
    passed : IsPassed raw → Reads raw skipped
    mark : HasPayload raw "[DONE]" → Reads raw done
    decoded :
        (payload : String) (choices : List StreamChoice)
        → HasPayload raw payload
        → payload ≢ "[DONE]"
        → decode payload ≡ ok choices
        → Reads raw (chunk choices)
    garbled :
        (payload e : String)
        → HasPayload raw payload
        → payload ≢ "[DONE]"
        → decode payload ≡ err e
        → Reads raw (undecodable e)

  parse_stream_line-Reads : (raw : String) → Reads raw (parse_stream_line decode raw)
  unfolding parse_stream_line
  parse_stream_line-Reads raw =
      let line = trim_space raw in
      let payload = trim_space (trim_prefix line "data: ") in
      elim (Bool-cases (line == "")) [
        | inl blank ↦ rw blank (passed (inl (ground (arith, blank, eq_iff line ""))))
        | inr text ↦ elim (Bool-cases (has_prefix line ":")) [
          | inl comment ↦ rw (text, comment) (passed (inr (inl comment)))
          | inr plain ↦ elim (Bool-cases (has_prefix line "data: ")) [
            | inr other ↦ rw (text, plain, other) (passed (inr (inr other)))
            | inl field ↦
                let read : HasPayload raw payload = record {
                  text = λ blank. absurd (ground (arith, text, blank, eq_iff line ""));
                  data_field = field;
                  no_comment = plain;
                  payload_of = refl;
                } in
                elim (Bool-cases (payload == "[DONE]")) [
                  | inl ends ↦
                      let same : payload ≡ "[DONE]" =
                        ground (arith, ends, eq_iff payload "[DONE]") in
                      rw (text, plain, field, ends) (mark (subst (HasPayload raw) same read))
                  | inr more ↦
                      let away : payload ≢ "[DONE]" =
                        λ same. absurd (ground (arith, more, same, eq_iff payload "[DONE]")) in
                      elim (Result-cases (decode payload)) [
                        | inl (e, bad) ↦
                            rw (text, plain, field, more, bad) (garbled payload e read away bad)
                        | inr (choices, good) ↦
                            rw (text, plain, field, more, good)
                              (decoded payload choices read away good)
                      ]
                ]
          ]
        ]
      ]

  -- Lines that are passed over or carry chunks, with the chunks.
  data Carries : List String → List (List StreamChoice) → Type 0 where
    nothing : Carries [] []
    passes :
        {raw : String} {raws : List String} {chunks : List (List StreamChoice)}
        → Reads raw skipped
        → Carries raws chunks
        → Carries (raw ∷ raws) chunks
    carries :
        {raw : String} {raws : List String} {chunks : List (List StreamChoice)}
        (choices : List StreamChoice)
        → Reads raw (chunk choices)
        → Carries raws chunks
        → Carries (raw ∷ raws) (choices ∷ chunks)

  -- What ends a stream before the lines that are left, and the error that it sends then.
  data Stops : List String → Option String → Option StreamError → Type 0 where
    finished : Stops [] none none
    broken : (e : String) → Stops [] (some e) (some (scan_failed e))
    marked :
        {raw : String} {raws : List String} {scan_error : Option String}
        → Reads raw done
        → Stops (raw ∷ raws) scan_error none
    spoiled :
        {raw : String} {raws : List String} {scan_error : Option String} (e : String)
        → Reads raw (undecodable e)
        → Stops (raw ∷ raws) scan_error (some (decode_failed e))

  -- What was sent: the chunks of the lines before the end, then the error at the end.
  pub record IsSent (raws : List String) (scan_error : Option String)
      (result : List (Result StreamError (List StreamChoice))) : Type 0 where
    before : List String
    rest : List String
    chunks : List (List StreamChoice)
    last : Option StreamError
    parts : raws ≡ before ++ rest
    carried : Carries before chunks
    stopped : Stops rest scan_error last
    all : result ≡ all_ok chunks ++ last_error last

  sent :
      (raw : String) (line : StreamLine) (raws : List String) (scan_error : Option String)
      → Reads raw line
      → IsSent raws scan_error (consume_stream decode raws scan_error)
      → IsSent
          (raw ∷ raws)
          scan_error
          (elim line as (λ _. List (Result StreamError (List StreamChoice))) [
            | skipped ↦ consume_stream decode raws scan_error
            | done ↦ []
            | chunk choices ↦ ok choices ∷ consume_stream decode raws scan_error
            | undecodable e ↦ err (decode_failed e) ∷ []
          ])
  unfolding all_ok
  sent raw skipped raws scan_error reads w = record {
    before = raw ∷ w.before;
    rest = w.rest;
    chunks = w.chunks;
    last = w.last;
    parts = ap (λ l. raw ∷ l) w.parts;
    carried = passes reads w.carried;
    stopped = w.stopped;
    all = w.all;
  }
  sent raw done raws scan_error reads w = record {
    before = [];
    rest = raw ∷ raws;
    chunks = [];
    last = none;
    parts = refl;
    carried = nothing;
    stopped = marked reads;
    all = refl;
  }
  sent raw (chunk choices) raws scan_error reads w = record {
    before = raw ∷ w.before;
    rest = w.rest;
    chunks = choices ∷ w.chunks;
    last = w.last;
    parts = ap (λ l. raw ∷ l) w.parts;
    carried = carries choices reads w.carried;
    stopped = w.stopped;
    all = ap (λ l. ok choices ∷ l) w.all;
  }
  sent raw (undecodable e) raws scan_error reads w = record {
    before = [];
    rest = raw ∷ raws;
    chunks = [];
    last = some (decode_failed e);
    parts = refl;
    carried = nothing;
    stopped = spoiled e reads;
    all = refl;
  }

  ended :
      (scan_error : Option String) (last : Option StreamError)
      (result : List (Result StreamError (List StreamChoice)))
      → Stops [] scan_error last
      → result ≡ last_error last
      → IsSent [] scan_error result
  unfolding all_ok
  ended scan_error last result stops e = record {
    before = [];
    rest = [];
    chunks = [];
    last = last;
    parts = refl;
    carried = nothing;
    stopped = stops;
    all = e;
  }

  -- A stream sends the chunks of its lines in their order, up to the mark at the end or the first
  -- line that cannot be decoded, then at most one error, and nothing after it. Blank lines, comments
  -- and lines without data are passed over.
  pub consume_stream-IsSent :
      (raws : List String) (scan_error : Option String)
      → IsSent raws scan_error (consume_stream decode raws scan_error)
  unfolding consume_stream
  consume_stream-IsSent [] none = ended none none [] finished refl
  consume_stream-IsSent [] (some e) =
      ended (some e) (some (scan_failed e)) (err (scan_failed e) ∷ []) (broken e) refl
  consume_stream-IsSent (raw ∷ raws) scan_error =
      sent raw (parse_stream_line decode raw) raws scan_error (parse_stream_line-Reads raw)
        (consume_stream-IsSent raws scan_error)
