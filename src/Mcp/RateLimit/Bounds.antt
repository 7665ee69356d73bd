-- ===== src/Mcp/RateLimit/Bounds.antt =====
-- How many calls a token bucket lets through.
use agent_exec_engine.Prelude.{
  ℕ, ◌+◌, ◌-◌, ◌*◌, ◌≤◌, ◌≡◌, refl, ap, ◌∙◌, Bool-cases, inl, inr, List, [], ◌∷◌, arith,
  if◌then◌else◌,
}
use agent_exec_engine.Mcp.RateLimit.{token, TokenBucket, new_bucket, allow_bucket}

-- The calls of one tool at the times of a list: the bucket after them, and how many were allowed.
pub allow_all : List ℕ → TokenBucket → TokenBucket × ℕ
allow_all [] b = (b, 0)
allow_all (now ∷ times) b =
    let (b', allowed) = allow_bucket now b in
    let (after, count) = allow_all times b' in (after, (if allowed then 1 else 0) + count)

-- The times do not go back.
abbrev Ascending : ℕ → List ℕ → Type 0
Ascending from [] = Unit
Ascending from (now ∷ times) = (from ≤ now) × Ascending now times

abbrev pub last_of : ℕ → List ℕ → ℕ
last_of from [] = from
last_of from (now ∷ times) = last_of now times

allow_bucket_step :
    (now : ℕ) (b : TokenBucket)
    → b.last_refill ≤ now
    → ((allow_bucket now b).0.tokens + (if (allow_bucket now b).1 then token else 0)
        ≤ b.tokens + (now - b.last_refill) * b.refill_rate)
      × ((allow_bucket now b).0.last_refill ≡ now)
      × ((allow_bucket now b).0.refill_rate ≡ b.refill_rate)
      × ((allow_bucket now b).0.max_tokens ≡ b.max_tokens)
unfolding allow_bucket
allow_bucket_step now b h = ground arith

last_of-le : (from : ℕ) (times : List ℕ) → Ascending from times → from ≤ last_of from times
last_of-le from [] h = omega arith
last_of-le from (now ∷ times) h = omega (arith, last_of-le now times h.1)

split_span :
    (from now last rate : ℕ)
    → from ≤ now
    → now ≤ last
    → (last - from) * rate ≡ (last - now) * rate + (now - from) * rate
split_span from now last rate h k =
    let e : last - from ≡ (last - now) + (now - from) = omega arith in
    omega (arith, ap (λ (x : ℕ). x * rate) e)

allow_all_bound :
    (times : List ℕ) (b : TokenBucket) (from rate : ℕ)
    → b.last_refill ≡ from
    → b.refill_rate ≡ rate
    → Ascending from times
    → (allow_all times b).1 * token ≤ b.tokens + (last_of from times - from) * rate
unfolding allow_all
allow_all_bound [] b from rate e f h = ground arith
allow_all_bound (now ∷ times) b from rate e f h =
    let step = allow_bucket_step now b (omega arith) in
    let rest = allow_all_bound times (allow_bucket now b).0 now rate step.1 (step.2 ∙ f) h.1 in
    let span = split_span from now (last_of now times) rate h.0 (last_of-le now times h.1) in
    let spent : (now - b.last_refill) * b.refill_rate ≡ (now - from) * rate = rw (e, f) refl in
    elim (Bool-cases (allow_bucket now b).1) [
      | inl yes_ ↦ rw yes_ (ground (arith, step, rest, span, spent, yes_))
      | inr no_ ↦ rw no_ (ground (arith, step, rest, span, spent, no_))
    ]

-- Over any calls of a tool at times that do not go back, from the moment its limit is set to the
-- last call, at most the limit and the limit's share of the time that passed are allowed:
-- calls <= limit + limit * minutes.
pub allow_all-le :
    (limit from : ℕ) (times : List ℕ)
    → Ascending from times
    → (allow_all times (new_bucket limit from)).1 * token
      ≤ limit * token + (last_of from times - from) * limit
allow_all-le limit from times h =
    allow_all_bound times (new_bucket limit from) from limit refl refl h

-- A bucket never holds more than its maximum, whatever the clock says.
allow_bucket-le-max :
    (now : ℕ) (b : TokenBucket)
    → ((allow_bucket now b).0.tokens ≤ b.max_tokens)
      × ((allow_bucket now b).0.max_tokens ≡ b.max_tokens)
unfolding allow_bucket
allow_bucket-le-max now b = ground arith
