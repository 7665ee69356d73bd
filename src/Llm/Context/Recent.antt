-- ===== src/Llm/Context/Recent.antt =====
-- internal/llm/strategy_write.go: which messages `fitWrite` keeps.
use mathlib.Core.List.{reverse, reverse-append, reverse-reverse}
use agent_exec_engine.Prelude.{
  ◌+◌, ◌<◌, ◌≡◌, ◌≢◌, ◌⊎◌, refl, List, [], ◌∷◌, ◌++◌, Option, none, some, All, true, false, arith,
  ap, ◌∙◌, sym, subst, Bool-cases, inl, inr, append-nil, String, eq_iff,
}
use agent_exec_engine.Prelude.Int.{pos, minus}
use agent_exec_engine.Llm.Message.{
  ChatToolCall, ChatMessage, estimate_message_tokens, estimate_tokens,
}
use agent_exec_engine.Llm.Context.{
  ContextManager, is_system, last_system, with_system, without_system, system_cost, fit_write,
}
use agent_exec_engine.Llm.Context.Budget.{keep_recent-IsWindow, estimate_tokens-reverse}

abbrev IsOther : ChatMessage → Type 0
IsOther m = m.role ≢ "system"

-- The second list is the first without its system messages, in the same order.
data Others : List ChatMessage → List ChatMessage → Type 0 where
  nothing : Others [] []
  system :
      {m : ChatMessage} {messages others : List ChatMessage}
      → m.role ≡ "system"
      → Others messages others
      → Others (m ∷ messages) others
  other :
      {m : ChatMessage} {messages others : List ChatMessage}
      → IsOther m
      → Others messages others
      → Others (m ∷ messages) (m ∷ others)

-- A system message of the list, after which there is no other.
record LastAt (messages : List ChatMessage) (m : ChatMessage) : Type 0 where
  before : List ChatMessage
  after : List ChatMessage
  parts : messages ≡ before ++ m ∷ after
  role : m.role ≡ "system"
  none_after : All IsOther after

-- The last system message, or none where there is none.
abbrev IsLastSystem : List ChatMessage → Option ChatMessage → Type 0
IsLastSystem messages none = All IsOther messages
IsLastSystem messages (some m) = LastAt messages m

role_cases :
    (m : ChatMessage)
    → ((m.role ≡ "system") × (is_system m ≡ true)) ⊎ (IsOther m × (is_system m ≡ false))
role_cases m = elim (Bool-cases (is_system m)) [
  | inl here ↦ inl (ground (arith, here, eq_iff m.role "system"), here)
  | inr away ↦ inr (λ same. absurd (ground (arith, away, same, eq_iff m.role "system")), away)
]

without_system-Others : (messages : List ChatMessage) → Others messages (without_system messages)
unfolding without_system
without_system-Others [] = nothing
without_system-Others (m ∷ messages) =
    let rest = without_system-Others messages in
    elim (role_cases m) [
      | inl (role, here) ↦ rw here (system role rest)
      | inr (role, away) ↦ rw away (other role rest)
    ]

LastAt-later :
    (first : ChatMessage) (messages : List ChatMessage) (m : ChatMessage)
    → LastAt messages m
    → LastAt (first ∷ messages) m
LastAt-later first messages m w = record {
  before = first ∷ w.before;
  after = w.after;
  parts = ap (λ l. first ∷ l) w.parts;
  role = w.role;
  none_after = w.none_after;
}

-- Either the messages have a last system message, or what was found before them stays.
last_system-cases :
    (messages : List ChatMessage) (found : Option ChatMessage)
    → (All IsOther messages × (last_system messages found ≡ found))
      ⊎ ((m : ChatMessage) × (last_system messages found ≡ some m) × LastAt messages m)
unfolding last_system
last_system-cases [] found = inl (tt, refl)
last_system-cases (m ∷ messages) found = elim (role_cases m) [
  | inl (role, here) ↦ elim (last_system-cases messages (some m)) [
    | inl (others, same) ↦ inr (
      m,
      rw here same,
      record { before = []; after = messages; parts = refl; role = role; none_after = others },
    )
    | inr (k, same, at) ↦ inr (k, rw here same, LastAt-later m messages k at)
  ]
  | inr (role, away) ↦ elim (last_system-cases messages found) [
    | inl (others, same) ↦ inl ((role, others), rw away same)
    | inr (k, same, at) ↦ inr (k, rw away same, LastAt-later m messages k at)
  ]
]

last_system-IsLastSystem :
    (messages : List ChatMessage) → IsLastSystem messages (last_system messages none)
last_system-IsLastSystem messages = elim (last_system-cases messages none) [
  | inl (others, same) ↦ subst (IsLastSystem messages) (sym same) others
  | inr (m, same, at) ↦ subst (IsLastSystem messages) (sym same) at
]

abbrev as_list : Option ChatMessage → List ChatMessage
as_list none = []
as_list (some m) = m ∷ []

with_system-as_list :
    (found : Option ChatMessage) (kept : List ChatMessage)
    → with_system found kept ≡ as_list found ++ kept
with_system-as_list none kept = refl
with_system-as_list (some m) kept = refl

module _ (marshal : List ChatToolCall → String) where
  system_cost-as_list :
      (found : Option ChatMessage)
      → system_cost marshal found ≡ estimate_tokens marshal (as_list found)
  unfolding estimate_tokens
  system_cost-as_list none = refl
  system_cost-as_list (some m) = omega arith

  -- The result is the last system message, then the newest of the other messages in their order;
  -- the newest that was dropped no longer fits with them.
  pub record IsRecent (cm : ContextManager) (messages result : List ChatMessage) : Type 0 where
    leading : Option ChatMessage
    is_last : IsLastSystem messages leading
    others : List ChatMessage
    are_others : Others messages others
    -- The dropped messages, newest first.
    dropped : List ChatMessage
    kept : List ChatMessage
    parts : others ≡ reverse dropped ++ kept
    window : result ≡ as_list leading ++ kept
    stops :
        (m : ChatMessage) (rest : List ChatMessage)
        → dropped ≡ m ∷ rest
        → cm.max_tokens
          < estimate_tokens marshal (as_list leading)
            + estimate_message_tokens marshal m
            + estimate_tokens marshal kept

  -- The sliding window returns the last system message, where there is one, and then an unbroken run
  -- of the newest other messages in their order, up to the last message; the newest that it drops
  -- would no longer fit with them.
  pub fit_write-IsRecent :
      (cm : ContextManager) (messages : List ChatMessage)
      → IsRecent cm messages (fit_write marshal cm messages)
  unfolding fit_write
  fit_write-IsRecent cm messages =
      let found = last_system messages none in
      let rest = without_system messages in
      let cost = system_cost marshal found in
      let w = keep_recent-IsWindow marshal (minus (pos cm.max_tokens) cost) (reverse rest) [] in
      record {
        leading = found;
        is_last = last_system-IsLastSystem messages;
        others = rest;
        are_others = without_system-Others messages;
        dropped = w.left;
        kept = reverse w.taken;
        parts = sym (reverse-reverse rest) ∙ ap reverse w.parts ∙ reverse-append w.taken w.left;
        window =
            ap (with_system found) (w.window ∙ append-nil (reverse w.taken))
            ∙ with_system-as_list found (reverse w.taken);
        stops = λ m older e. ground (
          arith,
          w.stops m older e,
          estimate_tokens-reverse marshal w.taken,
          system_cost-as_list found,
        );
      }
