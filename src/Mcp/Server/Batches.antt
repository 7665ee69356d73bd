-- ===== src/Mcp/Server/Batches.antt =====
-- internal/mcp/server.go: what a batch is answered with.
use agent_exec_engine.Prelude.{
  ℕ, zero, suc, ◌<◌, String, ◌≡◌, refl, subst, Bool, true, false, List, [], ◌∷◌, Option, none, some,
  if◌then◌else◌, ltb, ltb→lt, sym, eqb, is_some, length, set, get_elem?, get_elem?-set, arith,
  Option-cases, inl, inr, Bool-cases,
}
use agent_exec_engine.Types.{Value, null}
use agent_exec_engine.Mcp.Registry.{Runtime}
use agent_exec_engine.Mcp.Server.{
  Decoded, no_json, not_normal, no_request, request, Response, Codec, Server, err_parse,
  err_internal, err_invalid_request, reply_error, handle_request, handle_request_bytes,
}
use agent_exec_engine.Mcp.Server.Replies.{handle_request-id}
use agent_exec_engine.Mcp.Server.Messages.{batch, blank, Order, answer_all, handle_batch_message}

abbrev id_of : Decoded → Value
id_of (request req) = req.id
id_of _ = null

-- The id under which a text is answered: its own, if it is a request.
abbrev answer_id : Codec → String → Value
answer_id codec payload = id_of (codec.decode payload)

abbrev pub occurs : ℕ → List ℕ → Bool
occurs i [] = false
occurs i (j ∷ js) = if eqb j i then true else occurs i js

-- Each goroutine of a batch runs.
pub record IsFair (order : Order) : Type 0 where
  pub runs : (n i : ℕ) → i < n → occurs i (order n) ≡ true

-- The response at a place of a batch: under the id of the text at that place.
abbrev pub Answered : Codec → Option String → Option (Option Response) → Type 0
Answered codec none response = response ≡ none
Answered codec (some payload) response =
    (r : Response) × (response ≡ some (some r)) × (r.id ≡ answer_id codec payload)

eqb_eq : (j i : ℕ) → eqb j i ≡ true → j ≡ i
eqb_eq j i h = ground (arith, h)

module _ (runtime : Runtime) (codec : Codec) where
  decoded-id :
      (d : Decoded) (now : ℕ) (s : Server)
      → ((elim d as (λ _. Server × Response) [
        | no_json ↦ (s, reply_error null err_parse)
        | not_normal ↦ (s, reply_error null err_internal)
        | no_request ↦ (s, reply_error null err_invalid_request)
        | request req ↦ handle_request runtime codec now req s
      ]).1.id
          ≡ id_of d)
  decoded-id no_json now s = refl
  decoded-id not_normal now s = refl
  decoded-id no_request now s = refl
  decoded-id (request req) now s = (handle_request-id runtime codec now req s).0

  handle_request_bytes-id :
      (now : ℕ) (payload : String) (s : Server)
      → (handle_request_bytes runtime codec now payload s).1.id ≡ answer_id codec payload
  unfolding handle_request_bytes
  handle_request_bytes-id now payload s = decoded-id (codec.decode payload) now s

  module _ (raws : List String) (i : ℕ) where
    -- The responses have the places of the texts, and one at `i` is right where `holds` says so.
    record IsFilled (holds : Bool) (responses : List (Option Response)) : Type 0 where
      places : (j : ℕ) → is_some (get_elem? responses j) ≡ is_some (get_elem? raws j)
      right : holds ≡ true → Answered codec (get_elem? raws i) (get_elem? responses i)

    written :
        (j : ℕ) (payload : String) (holds : Bool) (r : Response)
        (responses : List (Option Response))
        → get_elem? raws j ≡ some payload
        → r.id ≡ answer_id codec payload
        → IsFilled holds responses
        → IsFilled (if eqb j i then true else holds) (set responses j (some r))
    written j payload holds r responses e same w = record {
      places = λ k. ground (arith, get_elem?-set responses j k (some r), w.places k);
      right = λ h. elim (Bool-cases (eqb j i)) [
        | inl here ↦
            let found : get_elem? raws i ≡ some payload =
              subst (λ k. get_elem? raws k ≡ some payload) (omega (arith, eqb_eq j i here)) e in
            rw found (
              r,
              ground (arith, here, get_elem?-set responses j i (some r), w.places i, found),
              same,
            )
        | inr other ↦
            let kept : get_elem? (set responses j (some r)) i ≡ get_elem? responses i =
              ground (arith, other, get_elem?-set responses j i (some r)) in
            rw kept (w.right (ground (arith, other, h)))
      ];
    }

    -- There is no text at `j`, and no place for a response.
    skipped :
        (j : ℕ) (holds : Bool) (responses : List (Option Response))
        → get_elem? raws j ≡ none
        → IsFilled holds responses
        → IsFilled (if eqb j i then true else holds) responses
    skipped j holds responses e w = record {
      places = w.places;
      right = λ h. elim (Bool-cases (eqb j i)) [
        | inl here ↦
            let missing : get_elem? raws i ≡ none =
              subst (λ k. get_elem? raws k ≡ none) (eqb_eq j i here) e in
            rw missing (ground (arith, w.places i, missing))
        | inr other ↦ w.right (ground (arith, other, h))
      ];
    }

    -- What is right stays so, and the places of the goroutines that run become right.
    answer_all-IsFilled :
        (now : ℕ) (js : List ℕ) (holds : Bool) (s : Server) (responses : List (Option Response))
        → IsFilled holds responses
        → IsFilled
            (if occurs i js then true else holds)
            (answer_all runtime codec now raws js (s, responses)).1
    unfolding answer_all
    answer_all-IsFilled now [] holds s responses w = w
    answer_all-IsFilled now (j ∷ js) holds s responses w =
        let same : (if occurs i js then true else if eqb j i then true else holds)
            ≡ (if (if eqb j i then true else occurs i js) then true else holds) =
          ground arith in
        elim (Option-cases (get_elem? raws j)) [
          | inl absent ↦
              rw (sym same, absent, answer_all)
                (answer_all-IsFilled now js (if eqb j i then true else holds) s responses
                  (skipped j holds responses absent w))
          | inr (payload, found) ↦
              let (s', r) = handle_request_bytes runtime codec now payload s in
              rw (sym same, found, answer_all)
                (answer_all-IsFilled now js (if eqb j i then true else holds) s'
                  (set responses j (some r))
                  (written j payload holds r responses found (handle_request_bytes-id now payload s)
                    w))
        ]

blank-none : (n i : ℕ) → is_some (get_elem? (blank n) i) ≡ ltb i n
unfolding blank get_elem?
blank-none zero i = ground arith
blank-none (suc n) zero = ground arith
blank-none (suc n) (suc i) = ground (arith, blank-none n i)

get_elem?-length : (xs : List String) (i : ℕ) → is_some (get_elem? xs i) ≡ ltb i (length xs)
unfolding get_elem?
get_elem?-length [] i = ground arith
get_elem?-length (x ∷ xs) zero = ground arith
get_elem?-length (x ∷ xs) (suc i) = ground (arith, get_elem?-length xs i)

-- A batch of requests is answered with as many responses, in the order of the requests, each under
-- the id of its own, in whatever order the goroutines run, as long as each of them does.
pub handle_batch_message-id :
    (runtime : Runtime) (codec : Codec) (order : Order)
    → IsFair order
    → (now : ℕ) (body : String) (s : Server) (raw : String) (raws : List String)
    → codec.decode_batch body ≡ some (raw ∷ raws)
    → (responses : List (Option Response)) × ((handle_batch_message runtime codec order now body
          s).1
        ≡ batch responses)
      × ((i : ℕ) → Answered codec (get_elem? (raw ∷ raws) i) (get_elem? responses i))
unfolding handle_batch_message
handle_batch_message-id runtime codec order fair now body s raw raws e =
    let all = raw ∷ raws in
    let n = length all in
    let start = blank n in
    let done = answer_all runtime codec now all (order n) (s, start) in
    (
      done.1,
      rw (e, handle_batch_message) refl,
      λ i. elim (Bool-cases (ltb i n)) [
        | inl inside ↦
            let w = answer_all-IsFilled runtime codec all i now (order n) false s start (record {
              places = λ j. ground (arith, blank-none n j, get_elem?-length all j);
              right = λ h. absurd (ground (arith, h));
            }) in
            w.right (ground (arith, fair.runs n i (ltb→lt i n inside)))
        | inr outside ↦
            let w = answer_all-IsFilled runtime codec all i now (order n) false s start (record {
              places = λ j. ground (arith, blank-none n j, get_elem?-length all j);
              right = λ h. absurd (ground (arith, h));
            }) in
            let missing : get_elem? all i ≡ none =
              ground (arith, outside, get_elem?-length all i) in
            rw missing (ground (arith, missing, w.places i))
      ],
    )
