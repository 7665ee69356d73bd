-- ===== src/Mcp/Tools/Knowledge.antt =====
-- internal/mcp/tools/knowledge_qa.go: a question to the knowledge base's service, which is a
-- parameter; the time limit and the request's headers are left out.
use Prim.Native.String.{◌++◌ as str_append}
use agent_exec_engine.Prelude.{
  ℕ, String, false, List, [], ◌∷◌, Option, none, some, if◌then◌else◌, ◌==◌, leb, Map, lookup,
  Result, ok, err, with_error, ◌>>=◌,
}
use agent_exec_engine.Prelude.Int.{ℤ, pos}
use agent_exec_engine.Prelude.Texts.{trim_space, trim_right_of}
use agent_exec_engine.Types.{Value, Float64, ToolDefinition}
use agent_exec_engine.Mcp.Tools.Inputs.{filled_text, string_or_default, int_or_default}

abbrev default_qa_depth : ℤ
default_qa_depth = pos 3

abbrev default_qa_model : String
default_qa_model = "default"

-- A tool is its base URL; the character / has the number 47.
unfoldable new_knowledge_qa_tool : String → String
new_knowledge_qa_tool rag_base_url = trim_right_of 47 (trim_space rag_base_url)

abbrev knowledge_qa_definition : ToolDefinition
knowledge_qa_definition = record {
  name = "knowledge_qa";
  description =
      "Ask a question to the knowledge base and get a grounded answer with source citations and audit trail. Uses the RAG service's full QA pipeline (retrieval + generation + audit).";
  input_schema = record {
    type = "object";
    properties =
        (
          "question",
          record {
            type = "string";
            description = "The question to ask the knowledge base";
            enum = [];
          },
        )
        ∷ (
          "depth",
          record {
            type = "integer";
            description = "Retrieval depth: number of documents to consider (default: 3)";
            enum = [];
          },
        )
        ∷ (
          "model",
          record {
            type = "string";
            description = "RAG model to use (default: 'default')";
            enum = [];
          },
        )
        ∷ (
          "dataset",
          record {
            type = "string";
            description = "Dataset name to query (default: service default)";
            enum = [];
          },
        )
        ∷ [];
    required = "question" ∷ [];
  };
  category = "search";
  sandboxed = false;
  rate_limit = pos 10;
}

pub record QaRequest : Type 0 where
  pub question : String
  pub depth : ℤ
  pub model : String
  pub dataset : String

-- The answer and the output have the same fields.
pub record QaResponse : Type 0 where
  pub answer : String
  pub audit_id : String
  pub sources : List String
  pub confidence : Float64

pub data QaError : Type 0 where
  question_required : QaError
  marshal_request build_request call_service read_response decode_response marshal_output :
      String → QaError
  service_error request_invalid : ℕ → String → QaError

pub record QaService : Type 0 where
  pub encode : QaRequest → Result String String
  pub build : String → Option String
  pub send : String → String → Result String (ℕ × Result String String)
  pub decode : String → Result String QaResponse
  pub print : QaResponse → Result String String
  pub out_of_range : Float64 → ℤ

abbrev check_url : Option String → Result QaError (Unit {0})
check_url none = ok tt
check_url (some e) = err (build_request e)

abbrev check_status : ℕ → String → Result QaError (Unit {0})
check_status status body =
    if leb 500 status
    then err (service_error status body)
    else if leb 400 status
    then err (request_invalid status body)
    else ok tt

module _ (service : QaService) where
  abbrev qa_request : String → Map Value → QaRequest
  qa_request question input = record {
    question = question;
    depth = int_or_default service.out_of_range (lookup "depth" input) default_qa_depth;
    model = string_or_default (lookup "model" input) default_qa_model;
    dataset = string_or_default (lookup "dataset" input) "";
  }

  unfoldable pub ask : String → QaRequest → Result QaError String
  ask rag_base_url request =
      let url = str_append rag_base_url "/v1/qa/ask" in
      do
        body ← with_error marshal_request (service.encode request)
        built ← check_url (service.build url)
        (status, answer) ← with_error call_service (service.send url body)
        content ← with_error read_response answer
        accepted ← check_status status content
        decoded ← with_error decode_response (service.decode content)
        with_error marshal_output (service.print decoded)

  unfoldable pub handle : String → Map Value → Result QaError String
  unfolding ask
  handle rag_base_url input = elim (filled_text (lookup "question" input)) [
    | none ↦ err question_required
    | some question ↦
        if rag_base_url == ""
        then ok (
            str_append "[knowledge_qa] answer for: "
              (str_append question " (stub: RAG service not configured, audit_id=N/A)"))
        else ask rag_base_url (qa_request question input)
  ]
