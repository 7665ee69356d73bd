-- ===== src/Llm/Select.antt =====
-- internal/llm/strategy_select.go: keeping the messages that share most words with the last
-- question.
pub mod Overlap
use Prim.Native.String.{◌++◌ as str_append}
use agent_exec_engine.Prelude.{
  ℕ, zero, suc, ◌+◌, ◌-◌, ◌*◌, String, Bool, true, false, List, [], ◌∷◌, ◌++◌, Option, none, some,
  if◌then◌else◌, ◌==◌, leb, ltb, eqb, length, set, Map, lookup, insert, get_or,
}
use agent_exec_engine.Prelude.Int.{ℤ, pos, minus, has_room}
use agent_exec_engine.Llm.Message.{ChatToolCall, ChatMessage, is_system, estimate_message_tokens}

-- strings.Fields(strings.ToLower(text))
abbrev pub Text : Type 0
Text = String → List String

-- The quotient (plus - minus) / over, with over > 0. The program has the float64 nearest to it.
pub record Score : Type 0 where
  pub plus : ℕ
  pub minus_part : ℕ
  pub over : ℕ

abbrev pub score_zero : Score
score_zero = record { plus = 0; minus_part = 0; over = 1 }

abbrev pub score_gt : Score → Score → Bool
score_gt a b =
    ltb (b.plus * a.over + a.minus_part * b.over) (a.plus * b.over + b.minus_part * a.over)

-- The loop of `tokenize`.
unfoldable pub count_words : List String → Map ℕ → Map ℕ
count_words [] freq = freq
count_words (w ∷ words) freq = count_words words (insert w (suc (get_or 0 (lookup w freq))) freq)

unfoldable pub tokenize : Text → String → Map ℕ
unfolding count_words
tokenize text content = count_words (text content) []

abbrev pub smaller : ℕ → Option ℕ → ℕ
smaller n none = 0
smaller n (some k) = if ltb n k then n else k

unfoldable pub intersection : Map ℕ → Map ℕ → ℕ
intersection [] b = 0
intersection ((word, n) ∷ a) b = smaller n (lookup word b) + intersection a b

-- intersection / union, where union = len(a) + len(b) - intersection may be 0 or negative.
abbrev pub divide : ℕ → ℕ → Score
divide i total =
    if eqb total i
    then score_zero
    else if ltb i total
    then record { plus = i; minus_part = 0; over = total - i }
    else record { plus = 0; minus_part = i; over = i - total }

unfoldable pub overlap_score : Map ℕ → Map ℕ → Score
unfolding intersection
overlap_score [] b = score_zero
overlap_score a [] = score_zero
overlap_score a b = divide (intersection a b) (length a + length b)

pub record Scored : Type 0 where
  pub idx : ℕ
  pub score : Score
  pub msg : ChatMessage

-- The two loops that sort in place: the best of the rest by `better`, the first of equals, is
-- swapped with the element in front.
module _ {A : Type 0} (better : A → A → Bool) where
  -- The inner loop: where the best stands, counted from the front, and the best.
  unfoldable pub best_from : ℕ → A → ℕ → List A → ℕ × A
  best_from place best here [] = (place, best)
  best_from place best here (x ∷ xs) =
      let (place', best') = if better x best then (here, x) else (place, best) in
      best_from place' best' (suc here) xs

  -- The front after the swap, and the rest.
  unfoldable pub swap_front : A → List A → ℕ × A → A × List A
  swap_front x xs (zero, best) = (x, xs)
  swap_front x xs (suc place, best) = (best, set xs place x)

  -- The outer loop, one round for each element.
  unfoldable pub sort_rounds : ℕ → List A → List A
  unfolding best_from swap_front
  sort_rounds zero items = items
  sort_rounds (suc rounds) [] = []
  sort_rounds (suc rounds) (x ∷ xs) =
      let (front, rest) = swap_front x xs (best_from 0 x 1 xs) in front ∷ sort_rounds rounds rest

unfoldable pub sort_by_score : List Scored → List Scored
unfolding sort_rounds
sort_by_score items = sort_rounds (λ a b. score_gt a.score b.score) (length items) items

abbrev pub order_key : ChatMessage → String
order_key m = str_append m.role (str_append "|" m.content)

-- The first place of each key.
unfoldable pub order_map : ℕ → List ChatMessage → Map ℕ → Map ℕ
order_map i [] m = m
order_map i (x ∷ xs) m =
    order_map (suc i) xs
      (elim (lookup (order_key x) m) [ none ↦ insert (order_key x) i m | some j ↦ m ])

unfoldable pub sort_by_index : List ChatMessage → List ChatMessage → List ChatMessage
unfolding sort_rounds order_map
sort_by_index kept original =
    let places = order_map 0 original [] in
    let place_of = λ (m : ChatMessage). get_or 0 (lookup (order_key m) places) in
    sort_rounds (λ a b. ltb (place_of a) (place_of b)) (length kept) kept

-- The content of the last message of the user, "" if there is none.
unfoldable pub last_query : List ChatMessage → String → String
last_query [] found = found
last_query (m ∷ ms) found = last_query ms (if m.role == "user" then m.content else found)

-- The messages taken apart: the last system message, and the others with their places and scores.
unfoldable pub system_of : List ChatMessage → Option ChatMessage → Option ChatMessage
system_of [] found = found
system_of (m ∷ ms) found = system_of ms (if is_system m then some m else found)

unfoldable pub candidates_from : Text → Map ℕ → ℕ → List ChatMessage → List Scored
candidates_from text query i [] = []
candidates_from text query i (m ∷ ms) =
    let rest = candidates_from text query (suc i) ms in
    if is_system m
    then rest
    else record { idx = i; score = overlap_score (tokenize text m.content) query; msg = m } ∷ rest

module _ (marshal : List ChatToolCall → String) where
  -- The loop that keeps what fits; what does not fit is passed over.
  unfoldable pub keep_fitting : ℤ → List Scored → List ChatMessage
  keep_fitting budget [] = []
  keep_fitting budget (c ∷ cs) =
      let cost = estimate_message_tokens marshal c.msg in
      let fits = has_room budget cost in
      let rest = keep_fitting (if fits then minus budget cost else budget) cs in
      if fits then c.msg ∷ rest else rest

  abbrev pub budget_after : ℕ → Option ChatMessage → ℤ
  budget_after max_tokens none = pos max_tokens
  budget_after max_tokens (some m) = minus (pos max_tokens) (estimate_message_tokens marshal m)

  abbrev pub prepend : Option ChatMessage → List ChatMessage → List ChatMessage
  prepend none kept = kept
  prepend (some m) kept = m ∷ kept

  unfoldable pub fit_select : Text → ℕ → List ChatMessage → List ChatMessage
  unfolding sort_by_score sort_by_index candidates_from tokenize keep_fitting
  fit_select text max_tokens [] = []
  fit_select text max_tokens (m ∷ ms) =
      let messages = m ∷ ms in
      let query = tokenize text (last_query messages "") in
      let system = system_of messages none in
      let sorted = sort_by_score (candidates_from text query 0 messages) in
      let kept = keep_fitting (budget_after max_tokens system) sorted in
      prepend system (sort_by_index kept messages)
