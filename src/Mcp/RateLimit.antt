-- ===== src/Mcp/RateLimit.antt =====
-- internal/mcp/ratelimit.go: a token bucket for each tool. Time is counted in nanoseconds, and
-- tokens in units of 1 / (60 * 10^9), in which a refill is an exact whole number; the program
-- rounds them to float64. Limits are not negative.
pub mod Bounds
use agent_exec_engine.Prelude.{
  ℕ, ◌+◌, ◌-◌, ◌*◌, String, Bool, true, false, Option, none, some, [], if◌then◌else◌, ltb, leb, Map,
  lookup, insert,
}

-- One token.
abbrev pub token : ℕ
token = 60000000000

pub record TokenBucket : Type 0 where
  pub tokens : ℕ
  pub max_tokens : ℕ
  -- Units for each nanosecond.
  pub refill_rate : ℕ
  pub last_refill : ℕ

pub record RateLimiter : Type 0 where
  pub buckets : Map TokenBucket
  pub limits : Map ℕ

abbrev pub new_rate_limiter : RateLimiter
new_rate_limiter = record { buckets = []; limits = [] }

abbrev pub new_bucket : ℕ → ℕ → TokenBucket
new_bucket calls_per_minute now = record {
  tokens = calls_per_minute * token;
  max_tokens = calls_per_minute * token;
  refill_rate = calls_per_minute;
  last_refill = now;
}

unfoldable pub set_limit : String → ℕ → ℕ → RateLimiter → RateLimiter
set_limit tool calls_per_minute now rl = record {
  buckets = insert tool (new_bucket calls_per_minute now) rl.buckets;
  limits = insert tool calls_per_minute rl.limits;
}

-- The refill: the clock is monotonic, and a bucket holds no more than its maximum.
unfoldable refill : ℕ → TokenBucket → TokenBucket
refill now b =
    let sum = b.tokens + (now - b.last_refill) * b.refill_rate in
    record b { tokens = if ltb b.max_tokens sum then b.max_tokens else sum; last_refill = now }

unfoldable take_token : TokenBucket → TokenBucket × Bool
take_token b =
    if leb token b.tokens then (record b { tokens = b.tokens - token }, true) else (b, false)

unfoldable pub allow_bucket : ℕ → TokenBucket → TokenBucket × Bool
unfolding refill take_token
allow_bucket now b = take_token (refill now b)

unfoldable pub allow : String → ℕ → RateLimiter → RateLimiter × Bool
unfolding allow_bucket
allow tool now rl = elim (lookup tool rl.buckets) [
  | none ↦ (rl, true)
  | some b ↦
      let (b', allowed) = allow_bucket now b in
      (record rl { buckets = insert tool b' rl.buckets }, allowed)
]
