-- ===== src/Llm/Context/Budget.antt =====
-- The backward loop of `fitWrite`, and that the result stays within the budget.
use mathlib.Core.List.{reverse, reverse-append}
use agent_exec_engine.Prelude.{
  ◌+◌, ◌≤◌, ◌<◌, ◌≡◌, refl, List, [], ◌∷◌, ◌++◌, none, arith, ap, ◌∙◌, sym, Bool-cases, inl, inr,
  append_assoc, String,
}
use agent_exec_engine.Prelude.Int.{ℤ, pos, pos_part, neg_part, minus, has_room}
use agent_exec_engine.Llm.Message.{
  ChatToolCall, ChatMessage, estimate_message_tokens, estimate_tokens,
}
use agent_exec_engine.Llm.Context.{
  ContextManager, last_system, without_system, system_cost, keep_recent, fit_write,
}

module _ (marshal : List ChatToolCall → String) where
  keep_recent-le :
      (budget : ℤ) (older kept : List ChatMessage)
      → estimate_tokens marshal (keep_recent marshal budget older kept)
        ≤ pos_part budget + estimate_tokens marshal kept
  unfolding keep_recent estimate_tokens
  keep_recent-le budget [] kept = omega arith
  keep_recent-le budget (m ∷ older) kept =
      let cost = estimate_message_tokens marshal m in
      ground (arith, keep_recent-le (minus budget cost) older (m ∷ kept))

  -- Where the last system message fits the budget by itself, or there is none, the sliding window
  -- returns messages whose estimate is within the budget.
  pub fit_write-le :
      (cm : ContextManager) (messages : List ChatMessage)
      → system_cost marshal (last_system messages none) ≤ cm.max_tokens
      → estimate_tokens marshal (fit_write marshal cm messages) ≤ cm.max_tokens
  unfolding fit_write estimate_tokens
  fit_write-le cm messages h = ground (
    arith,
    keep_recent-le (minus (pos cm.max_tokens) (system_cost marshal (last_system messages none)))
        (reverse (without_system messages)) [],
  )

  -- Where the last system message alone is over the budget, the result is over it too.
  pub fit_write-over :
      (cm : ContextManager) (messages : List ChatMessage)
      → cm.max_tokens < system_cost marshal (last_system messages none)
      → cm.max_tokens < estimate_tokens marshal (fit_write marshal cm messages)
  unfolding fit_write estimate_tokens
  fit_write-over cm messages h = ground arith

  -- What the backward loop takes is an unbroken run of the newest messages, and it stops only at
  -- one that does not fit.
  pub record IsWindow (budget : ℤ) (older kept result : List ChatMessage) : Type 0 where
    pub taken : List ChatMessage
    pub left : List ChatMessage
    pub parts : older ≡ taken ++ left
    pub window : result ≡ reverse taken ++ kept
    pub stops :
        (m : ChatMessage) (rest : List ChatMessage)
        → left ≡ m ∷ rest
        → pos_part budget
          < neg_part budget + estimate_message_tokens marshal m + estimate_tokens marshal taken

  pub keep_recent-IsWindow :
      (budget : ℤ) (older kept : List ChatMessage)
      → IsWindow budget older kept (keep_recent marshal budget older kept)
  unfolding keep_recent estimate_tokens
  keep_recent-IsWindow budget [] kept = record {
    taken = [];
    left = [];
    parts = refl;
    window = refl;
    stops = λ m rest e. absurd (ground arith);
  }
  keep_recent-IsWindow budget (m ∷ older) kept =
      let cost = estimate_message_tokens marshal m in
      elim (Bool-cases (has_room budget cost)) [
        | inl fits ↦
            let w = keep_recent-IsWindow (minus budget cost) older (m ∷ kept) in
            record {
              taken = m ∷ w.taken;
              left = w.left;
              parts = ap (λ l. m ∷ l) w.parts;
              window = rw fits (
                  w.window
                  ∙ sym (
                      ap (λ l. l ++ kept) (reverse-append (m ∷ []) w.taken)
                      ∙ append_assoc (reverse w.taken) (m ∷ []) kept));
              stops = λ n rest e. ground (arith, fits, w.stops n rest e);
            }
        | inr full ↦ record {
          taken = [];
          left = m ∷ older;
          parts = refl;
          window = rw full refl;
          stops = λ n rest e. ground (arith, full, e);
        }
      ]

  estimate_tokens-append :
      (xs ys : List ChatMessage)
      → estimate_tokens marshal (xs ++ ys) ≡ estimate_tokens marshal xs + estimate_tokens marshal ys
  unfolding estimate_tokens
  estimate_tokens-append [] ys = omega arith
  estimate_tokens-append (x ∷ xs) ys = omega (arith, estimate_tokens-append xs ys)

  pub estimate_tokens-reverse :
      (xs : List ChatMessage) → estimate_tokens marshal (reverse xs) ≡ estimate_tokens marshal xs
  unfolding estimate_tokens
  estimate_tokens-reverse [] = refl
  estimate_tokens-reverse (x ∷ xs) =
      rw (reverse-append (x ∷ []) xs)
        (omega (arith, estimate_tokens-append (reverse xs) (x ∷ []), estimate_tokens-reverse xs))
