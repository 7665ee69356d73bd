-- ===== src/Mcp/Tools/Tests.antt =====
-- A file of a workspace that is read, and a search in a vector database.
use agent_exec_engine.Prelude.{
  refl, true, false, [], ◌∷◌, none, ok, lookup, Map, length, All, ◌≤◌, ◌≡◌,
}
use agent_exec_engine.Prelude.Int.{pos}
use agent_exec_engine.Prelude.Texts.{trim_space, trim_left, trim_right, has_prefix, split}
use agent_exec_engine.Types.{Value, text, float, finite}
use agent_exec_engine.Paths.{FilePath, clean_part, clean_parts, clean, join_path, rel}
use agent_exec_engine.Mcp.Tools.Rag
use agent_exec_engine.Mcp.Tools.Rag.{RagServices, RagSearchTool}
use agent_exec_engine.Mcp.Tools.Rag.Limits.{IsLimited, handle-limit}
use agent_exec_engine.Mcp.Tools.Files.{Files, path_of, resolve_path, read_bounded, handle}
use agent_exec_engine.Mcp.Tools.Files.Bounds.{IsServed, handle-IsServed}

abbrev base : FilePath
base = record { rooted = true; parts = "srv" ∷ "work" ∷ [] }

abbrev files : Files
files = record { abs = λ p. ok base; size = λ p. ok 5; read = λ p. ok "hello" }

handle-IsServed_example : IsServed files base "hello"
unfolding handle path_of resolve_path read_bounded lookup trim_space trim_left trim_right has_prefix
    split clean_part clean_parts clean join_path rel
handle-IsServed_example =
    handle-IsServed files "." base refl refl (("path", text "docs/../notes.txt") ∷ []) "hello" refl

-- The first answer has a vector, the second no points.
abbrev services : RagServices
services = record {
  encode = λ c. none;
  build = λ url. none;
  on_call = λ calls c. ok (200, ok "{}");
  decode_embeddings = λ body. ok ((finite false 1 1 ∷ []) ∷ []);
  decode_points = λ body. ok [];
  print_score = λ score. "0.5000";
  out_of_range = λ f. pos 0;
}

abbrev rag : RagSearchTool
rag = record { qdrant_url = "http://q"; llm_base_url = "http://m"; embed_model = "e" }

abbrev question : Map Value
question = ("query", text "what") ∷ ("top_k", float (finite false 900 0)) ∷ []

handle-limit_example :
    (length (Rag.handle services rag question []).1 ≤ 2)
    × All IsLimited (Rag.handle services rag question []).1
    × (rag.qdrant_url ≡ "" → (Rag.handle services rag question []).1 ≡ [])
handle-limit_example = handle-limit services rag question
