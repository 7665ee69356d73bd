-- ===== src/Mcp/Tools/Rag/Limits.antt =====
-- internal/mcp/tools/rag_search.go: which requests a search makes.
use Prim.Native.String.{◌++◌ as str_append}
use agent_exec_engine.Prelude.{
  ℕ, ◌+◌, ◌≤◌, String, ◌≡◌, refl, List, [], ◌∷◌, ◌==◌, eq_iff, Map, lookup, length, Result, ok, err,
  with_error, All, arith, ◌⊎◌, Option-cases, Result-cases, Bool-cases, inl, inr,
}
use agent_exec_engine.Prelude.Int.{ℤ, pos, negsuc, ◌≤ℤ◌}
use agent_exec_engine.Prelude.Logged.{Logged, continue}
use agent_exec_engine.Types.{Value, Float64}
use agent_exec_engine.Mcp.Tools.Inputs.{filled_text, string_or_default, int_or_default}
use agent_exec_engine.Mcp.Tools.Rag.{
  RagSearchTool, RagCall, embed, points, RagServices, Run, RequestError, RagError,
  get_embedding_failed, search_failed, decode_failed, under, default_collection, default_top_k,
  post, get_embedding, search_qdrant, capped, search_documents, handle,
}

-- A search for points asks for at most fifty.
abbrev pub IsLimited : RagCall → Type 0
IsLimited (embed url request) = Unit
IsLimited (points url request) = request.limit ≤ℤ pos 50

capped-le : (services : RagServices) (top_k : ℤ) → capped services top_k ≤ℤ pos 50
capped-le services (pos n) = ground arith
capped-le services (negsuc n) = ground arith

-- `given` requests at most, each of them limited.
record Limited (given : ℕ) (before after : List RagCall) : Type 0 where
  few : length after ≤ length before + given
  each : All IsLimited before → All IsLimited after

Limited-same : (calls : List RagCall) → Limited 0 calls calls
Limited-same calls = record { few = omega arith; each = λ h. h }

continue-Limited :
    {E A B : Type 0} (m n : ℕ) (before : List RagCall) (r : Result E A × List RagCall)
    (next : A → Logged RagCall E B)
    → Limited m before r.1
    → ((a : A) → Limited n r.1 (next a r.1).1)
    → Limited (m + n) before (continue next r).1
continue-Limited m n before (ok a, calls) next w v =
    let more = v a in
    record { few = omega (arith, w.few, more.few); each = λ h. more.each (w.each h) }
continue-Limited m n before (err e, calls) next w v = record {
  few = omega (arith, w.few);
  each = w.each;
}

module _ (services : RagServices) where
  post-calls :
      (url : String) (c : RagCall) (calls : List RagCall)
      → ((post services url c calls).1 ≡ calls) ⊎ ((post services url c calls).1 ≡ c ∷ calls)
  unfolding post
  post-calls url c calls = ground arith

  post-Limited :
      (url : String) (c : RagCall) (calls : List RagCall)
      → IsLimited c
      → Limited 1 calls (post services url c calls).1
  post-Limited url c calls h = elim (post-calls url c calls) [
    | inl same ↦ rw same (record { few = omega arith; each = λ p. p })
    | inr made ↦ rw made (record { few = omega arith; each = λ p. (h, p) })
  ]

  under-Limited :
      {A : Type 0} (n : ℕ) (wrap : RequestError → RagError) (m : Run A) (calls : List RagCall)
      → Limited n calls (m calls).1
      → Limited n calls (under services wrap m calls).1
  under-Limited n wrap m calls w = elim (Result-cases (m calls).0) [
    | inl (e, bad) ↦ rw (bad, under) w
    | inr (a, fine) ↦ rw (fine, under) w
  ]

  get_embedding-Limited :
      (tool : RagSearchTool) (query : String) (calls : List RagCall)
      → Limited 1 calls (get_embedding services tool query calls).1
  unfolding get_embedding
  get_embedding-Limited tool query calls =
      let url = str_append tool.llm_base_url "/embeddings" in
      let c = embed url (record { model = tool.embed_model; input = query }) in
      continue-Limited 1 0 calls (post services url c calls) _ (post-Limited url c calls tt)
        (λ body.
          let after = (post services url c calls).1 in
          continue-Limited 0 0 after
            (with_error decode_failed (services.decode_embeddings body), after) _
            (Limited-same after) (λ embeddings. Limited-same after))

  search_qdrant-Limited :
      (tool : RagSearchTool) (collection : String) (vector : List Float64) (top_k : ℤ)
      (calls : List RagCall)
      → top_k ≤ℤ pos 50
      → Limited 1 calls (search_qdrant services tool collection vector top_k calls).1
  unfolding search_qdrant
  search_qdrant-Limited tool collection vector top_k calls h =
      let url =
        str_append tool.qdrant_url
          (str_append "/collections/" (str_append collection "/points/search")) in
      let c = points url (record { vector = vector; limit = top_k }) in
      continue-Limited 1 0 calls (post services url c calls) _ (post-Limited url c calls h) (λ body.
        let after = (post services url c calls).1 in
        continue-Limited 0 0 after (with_error decode_failed (services.decode_points body), after) _
          (Limited-same after) (λ found. Limited-same after))

  search_documents-Limited :
      (tool : RagSearchTool) (query collection : String) (top_k : ℤ) (calls : List RagCall)
      → top_k ≤ℤ pos 50
      → Limited 2 calls (search_documents services tool query collection top_k calls).1
  unfolding search_documents
  search_documents-Limited tool query collection top_k calls h =
      let r = under services get_embedding_failed (get_embedding services tool query) calls in
      continue-Limited 1 1 calls r _
        (under-Limited 1 get_embedding_failed (get_embedding services tool query) calls
          (get_embedding-Limited tool query calls))
        (λ embedding.
          let m = search_qdrant services tool collection embedding top_k in
          let r' = under services search_failed m r.1 in
          continue-Limited 1 0 r.1 r' _
            (under-Limited 1 search_failed m r.1
              (search_qdrant-Limited tool collection embedding top_k r.1 h))
            (λ results. Limited-same r'.1))

-- A search in the vector database makes two requests at most, each of which asks for fifty points at
-- most, whatever the input says; and none if no database is configured.
pub handle-limit :
    (services : RagServices) (tool : RagSearchTool) (input : Map Value)
    → (length (handle services tool input []).1 ≤ 2)
      × All IsLimited (handle services tool input []).1
      × (tool.qdrant_url ≡ "" → (handle services tool input []).1 ≡ [])
unfolding handle
handle-limit services tool input = elim (Option-cases (filled_text (lookup "query" input))) [
  | inl blank ↦
      let none_made : (handle services tool input []).1 ≡ [] = ground (arith, blank) in
      rw none_made (omega arith, tt, λ h. refl)
  | inr (query, given) ↦ elim (Bool-cases (tool.qdrant_url == "")) [
    | inl stub ↦
        let none_made : (handle services tool input []).1 ≡ [] = ground (arith, given, stub) in
        rw none_made (omega arith, tt, λ h. refl)
    | inr set ↦
        let collection = string_or_default (lookup "collection" input) default_collection in
        let asked = int_or_default services.out_of_range (lookup "top_k" input) default_top_k in
        let w =
          search_documents-Limited services tool query collection (capped services asked) []
            (capped-le services asked) in
        let made : (handle services tool input []).1
            ≡ (search_documents services tool query collection (capped services asked) []).1 =
          ground (arith, given, set) in
        rw made (
          omega (arith, w.few),
          w.each tt,
          λ h. absurd (ground (arith, set, h, eq_iff tool.qdrant_url "")),
        )
  ]
]
