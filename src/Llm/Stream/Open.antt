-- ===== src/Llm/Stream/Open.antt =====
-- internal/llm/stream.go: how a stream is opened. The cancellation of its context and the closing
-- of the body are left out.
use Prim.Native.String.{◌++◌ as str_append}
use agent_exec_engine.Prelude.{
  String, true, ◌||◌, List, ◌∷◌, Option, none, some, if◌then◌else◌, ◌==◌, ltb, leb, Result, ok, err,
  with_error,
}
use agent_exec_engine.Prelude.Logged.{◌>>=◌, lift}
use agent_exec_engine.Prelude.Texts.{trim_space}
use agent_exec_engine.Llm.Gateway.{
  ChatRequest, HttpRequest, HttpResponse, NetError, LlmError, marshal_failed, transport,
  status_failed, Gateway, post, Run,
}
use agent_exec_engine.Llm.Client.{Client}
use agent_exec_engine.Llm.Stream.{StreamChoice, StreamError, consume_stream}

-- A chunk, or the error that ends the stream.
abbrev pub Chunks : Type 0
Chunks = List (Result StreamError (List StreamChoice))

-- How the scanner splits a body into lines, with its error at the end, and how a chunk is decoded.
pub record StreamReader : Type 0 where
  pub scan : Result NetError String → List String × Option String
  pub decode : String → Result String (List StreamChoice)

abbrev text_or_empty : Result NetError String → String
text_or_empty (ok body) = body
text_or_empty (err e) = ""

module _ (world : Gateway) (reader : StreamReader) where
  -- The request's id is not sent.
  abbrev stream_request : Client → String → HttpRequest
  stream_request client payload = record {
    url = str_append client.base_url "/chat/completions";
    body = payload;
    authorization =
        if client.api_key == "" then none else some (str_append "Bearer " client.api_key);
    request_id = none;
  }

  abbrev pub opened : HttpRequest → Option NetError → Run HttpResponse
  opened request (some e) calls = (err (transport e), calls)
  opened request none calls = (with_error transport (world.on_post calls), post request ∷ calls)

  unfoldable open_stream_request : Client → String → Run HttpResponse
  open_stream_request client payload =
      opened (stream_request client payload) (world.new_request (stream_request client payload))

  unfoldable read_stream : HttpResponse → Result LlmError Chunks
  read_stream response =
      if ltb response.status_code 200 || leb 300 response.status_code
      then err (status_failed response.status_code (trim_space (text_or_empty response.body)))
      else let (lines, scan_error) = reader.scan response.body in
        ok (consume_stream reader.decode lines scan_error)

  -- What is sent on the channel, where the stream could be opened.
  unfoldable chat_stream : Client → ChatRequest → Run Chunks
  unfolding open_stream_request read_stream
  chat_stream client req = do
    let streamed = record req { stream = true }
    let named = if req.model == "" then record streamed { model = client.model } else streamed
    payload ← lift (with_error marshal_failed (world.encode named))
    response ← open_stream_request client payload
    lift (read_stream response)
