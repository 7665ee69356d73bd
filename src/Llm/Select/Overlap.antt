-- ===== src/Llm/Select/Overlap.antt =====
-- The score of a text that repeats one word.
use agent_exec_engine.Prelude.{
  ℕ, zero, suc, ◌+◌, ◌<◌, String, ◌≡◌, true, List, [], ◌∷◌, arith, lookup, insert, eq_refl,
}
use agent_exec_engine.Llm.Select.{count_words, intersection, overlap_score, score_zero, score_gt}

abbrev pub repeat : ℕ → String → List String
repeat zero word = []
repeat (suc n) word = word ∷ repeat n word

count_words-repeat :
    (n k : ℕ) (word : String) → count_words (repeat n word) ((word, k) ∷ []) ≡ (word, k + n) ∷ []
unfolding count_words lookup insert
count_words-repeat zero k word = ground arith
count_words-repeat (suc n) k word = ground (arith, eq_refl word, count_words-repeat n (suc k) word)

-- A text that repeats one word three times or more scores below zero against itself, and so below
-- every text that shares no word with it: the shared words are counted with their repetitions, the
-- union without.
pub overlap_score-repeat :
    (n : ℕ) (word : String)
    → 2 < n
    → score_gt score_zero
        (overlap_score (count_words (repeat n word) []) (count_words (repeat n word) []))
      ≡ true
unfolding overlap_score intersection count_words lookup insert
overlap_score-repeat zero word h = absurd (omega arith)
overlap_score-repeat (suc n) word h =
    rw (count_words-repeat n 1 word) (ground (arith, eq_refl word))
