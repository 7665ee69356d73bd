-- ===== src/Mcp/Tools/Rag.antt =====
-- internal/mcp/tools/rag_search.go: a search in a vector database. The two services are parameters;
-- the time limits and the request's headers are left out.
pub mod Limits
use Prim.Native.String.{◌++◌ as str_append}
use agent_exec_engine.Prelude.{
  ℕ, String, false, List, [], ◌∷◌, Option, none, some, if◌then◌else◌, ◌==◌, leb, Map, lookup,
  Result, ok, err, with_error,
}
use agent_exec_engine.Prelude.Int.{ℤ, pos, ltb_ℤ}
use agent_exec_engine.Prelude.Logged.{Logged, ◌>>=◌, return, lift}
use agent_exec_engine.Prelude.Texts.{trim_space, trim_right_of, join}
use agent_exec_engine.Types.{Value, text, Float64, ToolDefinition}
use agent_exec_engine.Mcp.Tools.Inputs.{filled_text, string_or_default, int_or_default}

abbrev pub default_collection : String
default_collection = "default"

abbrev pub default_top_k : ℤ
default_top_k = pos 5

abbrev max_top_k : ℤ
max_top_k = pos 50

pub record RagSearchTool : Type 0 where
  pub qdrant_url : String
  pub llm_base_url : String
  pub embed_model : String

-- The character / has the number 47.
unfoldable new_rag_search_tool : String → String → String → RagSearchTool
new_rag_search_tool qdrant_url llm_base_url embed_model = record {
  qdrant_url = trim_right_of 47 (trim_space qdrant_url);
  llm_base_url = trim_right_of 47 (trim_space llm_base_url);
  embed_model = embed_model;
}

abbrev rag_search_definition : ToolDefinition
rag_search_definition = record {
  name = "rag_search";
  description =
      "Search a vector knowledge base using semantic similarity. Returns the most relevant documents.";
  input_schema = record {
    type = "object";
    properties =
        ("query", record { type = "string"; description = "Semantic search query"; enum = [] })
        ∷ (
          "collection",
          record {
            type = "string";
            description = "Vector collection name (default: 'default')";
            enum = [];
          },
        )
        ∷ (
          "top_k",
          record {
            type = "integer";
            description = "Number of results to return (default: 5, max: 50)";
            enum = [];
          },
        )
        ∷ [];
    required = "query" ∷ [];
  };
  category = "search";
  sandboxed = false;
  rate_limit = pos 20;
}

pub record EmbeddingRequest : Type 0 where
  pub model : String
  pub input : String

-- `with_payload` is always true.
pub record PointsRequest : Type 0 where
  pub vector : List Float64
  pub limit : ℤ

pub data RagCall : Type 0 where
  embed : String → EmbeddingRequest → RagCall
  points : String → PointsRequest → RagCall

pub record Point : Type 0 where
  pub score : Float64
  pub payload : Map Value

pub record FoundText : Type 0 where
  pub score : Float64
  pub content : String
  pub source : String

pub data RequestError : Type 0 where
  marshal_failed build_failed call_failed read_failed decode_failed : String → RequestError
  status_failed : ℕ → String → RequestError
  empty_embedding : RequestError

pub data RagError : Type 0 where
  query_required : RagError
  get_embedding_failed search_failed : RequestError → RagError

-- The services: why a request cannot be encoded or built, and the answers, whose bodies may be
-- unreadable; and how JSON and numbers are read and printed.
pub record RagServices : Type 0 where
  pub encode : RagCall → Option String
  pub build : String → Option String
  pub on_call : List RagCall → RagCall → Result String (ℕ × Result String String)
  pub decode_embeddings : String → Result String (List (List Float64))
  pub decode_points : String → Result String (List Point)
  pub print_score : Float64 → String
  pub out_of_range : Float64 → ℤ

abbrev pub Run : Type 0 → Type 0
Run A = Logged RagCall RequestError A

abbrev refused_by : (String → RequestError) → Option String → Result RequestError (Unit {0})
refused_by wrap none = ok tt
refused_by wrap (some e) = err (wrap e)

abbrev string_from_payload : Map Value → String → String
string_from_payload payload key = string_or_default (lookup key payload) ""

-- The loop over the points that were found.
unfoldable found_texts : List Point → List FoundText
found_texts [] = []
found_texts (point ∷ rest) =
    record {
      score = point.score;
      content = string_from_payload point.payload "text";
      source = string_from_payload point.payload "source";
    }
    ∷ found_texts rest

abbrev first_embedding : List (List Float64) → Result RequestError (List Float64)
first_embedding [] = err empty_embedding
first_embedding ([] ∷ rest) = err empty_embedding
first_embedding ((x ∷ xs) ∷ rest) = ok (x ∷ xs)

module _ (services : RagServices) where
  -- One request: it is encoded, built and posted, and its answer is read.
  unfoldable pub post : String → RagCall → Run String
  post url c = do
    encoded ← lift (refused_by marshal_failed (services.encode c))
    built ← lift (refused_by build_failed (services.build url))
    (status, body) ← λ calls. (with_error call_failed (services.on_call calls c), c ∷ calls)
    content ← lift (with_error read_failed body)
    lift (if leb 300 status then err (status_failed status content) else ok content)

  unfoldable pub get_embedding : RagSearchTool → String → Run (List Float64)
  unfolding post
  get_embedding tool query =
      let url = str_append tool.llm_base_url "/embeddings" in
      do
        body ← post url (embed url (record { model = tool.embed_model; input = query }))
        embeddings ← lift (with_error decode_failed (services.decode_embeddings body))
        lift (first_embedding embeddings)

  unfoldable pub search_qdrant : RagSearchTool → String → List Float64 → ℤ → Run (List FoundText)
  unfolding post found_texts
  search_qdrant tool collection vector top_k =
      let url =
        str_append tool.qdrant_url
          (str_append "/collections/" (str_append collection "/points/search")) in
      do
        body ← post url (points url (record { vector = vector; limit = top_k }))
        found ← lift (with_error decode_failed (services.decode_points body))
        return (found_texts found)

  abbrev result_line : FoundText → String
  result_line r = str_append "- [" (
      str_append (services.print_score r.score)
        (str_append "] " (str_append r.content (str_append " | source: " r.source))))

  unfoldable result_lines : List FoundText → List String
  result_lines [] = []
  result_lines (r ∷ rest) = result_line r ∷ result_lines rest

  unfoldable print_results : String → List FoundText → String
  unfolding result_lines
  print_results query [] = str_append "[rag_search] no results for: " query
  print_results query (r ∷ rest) = join "\n" (result_lines (r ∷ rest))

  abbrev pub under : {A : Type 0} → (RequestError → RagError) → Run A → Logged RagCall RagError A
  under wrap m calls = elim ((m calls).0) [
    | ok a ↦ (ok a, (m calls).1)
    | err e ↦ (err (wrap e), (m calls).1)
  ]

  abbrev pub capped : ℤ → ℤ
  capped top_k = if ltb_ℤ max_top_k top_k then max_top_k else top_k

  unfoldable pub search_documents :
      RagSearchTool → String → String → ℤ → Logged RagCall RagError String
  unfolding get_embedding search_qdrant print_results
  search_documents tool query collection top_k = do
    embedding ← under get_embedding_failed (get_embedding tool query)
    results ← under search_failed (search_qdrant tool collection embedding top_k)
    return (print_results query results)

  unfoldable pub handle : RagSearchTool → Map Value → Logged RagCall RagError String
  unfolding search_documents
  handle tool input calls = elim (filled_text (lookup "query" input)) [
    | none ↦ (err query_required, calls)
    | some query ↦
        let collection = string_or_default (lookup "collection" input) default_collection in
        let top_k =
          capped (int_or_default services.out_of_range (lookup "top_k" input) default_top_k) in
        if tool.qdrant_url == ""
        then (
          ok (
              str_append "[rag_search] results for: "
                (str_append query " (stub: qdrant not configured)")),
          calls,
        )
        else search_documents tool query collection top_k calls
  ]
