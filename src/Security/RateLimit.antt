-- ===== src/Security/RateLimit.antt =====
-- packages/security/src/rate-limit.ts: the token buckets. `tokens` counts token-milliseconds, that
-- is, the source's fraction of tokens times `interval_ms`, so that a refill is the whole number
-- elapsed * limit. The rounding of the source's floating point division is not modelled;
-- at the boundary of one token it can turn a decision over, so nothing is stated of that instant.
pub mod Buckets
pub mod Budget
pub mod Sweep
use universal_agent_protocol.Base.{
  ℕ, ◌+◌, ◌-◌, ◌*◌, ◌/◌, min, max, Bool, true, false, Option, none, some, List, [], ◌∷◌, Text,
  text_eq, ltb, leb, if◌then◌else◌,
}
use universal_agent_protocol.Core.Errors.{
  Result, ok, raise, GatewayError, GatewayErrorCode, gateway_error,
}

pub record RateLimitRule : Type 0 where
  pub limit : ℕ
  pub interval_ms : ℕ
  pub burst : Option ℕ

-- `remaining` is `none` for `Number.POSITIVE_INFINITY`.
pub record RateLimitDecision : Type 0 where
  pub allowed : Bool
  pub retry_after_seconds : ℕ
  pub remaining : Option ℕ

pub record Bucket : Type 0 where
  pub tokens : ℕ
  pub updated_at : ℕ

abbrev pub Buckets : Type 0
Buckets = List (Text × Bucket)

-- `Map.get`, `Map.set` and `Map.delete`
unfoldable pub get : Text → Buckets → Option Bucket
get key [] = none
get key ((k, b) ∷ m) = if text_eq k key then some b else get key m

unfoldable pub put : Text → Bucket → Buckets → Buckets
put key b [] = (key, b) ∷ []
put key b ((k, c) ∷ m) = if text_eq k key then (k, b) ∷ m else (k, c) ∷ put key b m

unfoldable pub enabled : RateLimitRule → Bool
enabled rule = ltb 0 rule.limit

-- the burst allowance, in tokens
unfoldable pub capacity : RateLimitRule → ℕ
capacity rule = elim rule.burst [ none ↦ rule.limit | some b ↦ b ]

-- `Math.ceil(a / b)` for a positive `b`
abbrev pub ceil_div : ℕ → ℕ → ℕ
ceil_div a b = (a + (b - 1)) / b

or_full : RateLimitRule → ℕ → Option Bucket → Bucket
or_full rule now none = record { tokens = capacity rule * rule.interval_ms; updated_at = now }
or_full rule now (some b) = b

-- the tokens a bucket holds at `now`: `now - updatedAt` stops at 0, as `Math.max(0, refill)` does
refilled : RateLimitRule → ℕ → Bucket → ℕ
refilled rule now b =
    min (capacity rule * rule.interval_ms) (b.tokens + (now - b.updated_at) * rule.limit)

deny : RateLimitRule → ℕ → RateLimitDecision
deny rule tokens = record {
  allowed = false;
  retry_after_seconds = max 1 (ceil_div (rule.interval_ms - tokens) (rule.limit * 1000));
  remaining = some 0;
}

admit : RateLimitRule → ℕ → RateLimitDecision
admit rule tokens = record {
  allowed = true;
  retry_after_seconds = 0;
  remaining = some ((tokens - rule.interval_ms) / rule.interval_ms);
}

-- the branch on `tokens < 1`: the bucket to store, and the decision
unfoldable pub settle : RateLimitRule → ℕ → ℕ → Bucket × RateLimitDecision
unfolding deny admit
settle rule now tokens =
    if ltb tokens rule.interval_ms
    then (record { tokens = tokens; updated_at = now }, deny rule tokens)
    else (record { tokens = tokens - rule.interval_ms; updated_at = now }, admit rule tokens)

-- the part of `check` behind the lookup
unfoldable pub take_token : RateLimitRule → ℕ → Option Bucket → Bucket × RateLimitDecision
unfolding or_full refilled settle
take_token rule now found = settle rule now (refilled rule now (or_full rule now found))

unfoldable pub check : RateLimitRule → ℕ → Text → Buckets → Buckets × RateLimitDecision
check rule now key buckets =
    if enabled rule
    then (let (bucket, decision) = take_token rule now (get key buckets) in
        (put key bucket buckets, decision))
    else (buckets, record { allowed = true; retry_after_seconds = 0; remaining = none })

-- `require`: the buckets are updated also when it throws
unfoldable pub require : RateLimitRule → ℕ → Text → Buckets → Buckets × Result (Unit {0})
require rule now key buckets =
    let (buckets', decision) = check rule now key buckets in
    if decision.allowed then (buckets', ok tt) else (
      buckets',
      raise (record (gateway_error GatewayErrorCode.rate_limited) {
        retryable = true;
        retry_after_seconds = some decision.retry_after_seconds;
      }),
    )

-- the test of `sweep`, `bucket.tokens + refill < capacity`, where `refill` may be negative
still_filling : RateLimitRule → ℕ → Bucket → Bool
still_filling rule now b =
    ltb (b.tokens + now * rule.limit) (capacity rule * rule.interval_ms + b.updated_at * rule.limit)

unfoldable pub sweep : RateLimitRule → ℕ → Buckets → Buckets × ℕ
unfolding still_filling
sweep rule now [] = ([], 0)
sweep rule now ((k, b) ∷ m) =
    let (kept, removed) = sweep rule now m in
    if still_filling rule now b then ((k, b) ∷ kept, removed) else (kept, removed + 1)
