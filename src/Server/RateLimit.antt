-- ===== src/Server/RateLimit.antt =====
-- `TokenBucketRateLimiter` (packages/server/src/rateLimit.ts). Tokens are counted in units of
-- 1/60000 of a token, so that a refill of `refill_per_minute` tokens a minute is
-- `refill_per_minute` units a millisecond, exactly; the source has a float there.
pub mod Budget
pub mod Bound
use cordn.Prelude.{
  ℕ, min, String, Bool, true, false, Option, none, some, [], ◌∷◌, ◌+◌, ◌-◌, ◌*◌, if◌then◌else◌, ltb,
  leb, string_eq,
}
use cordn.Prelude.Map
use cordn.Prelude.Map.{Map}

pub record TokenBucketRateLimitConfig : Type 0 where
  pub enabled : Bool
  pub refill_per_minute : ℕ
  pub burst : ℕ
  pub idle_ttl_ms : ℕ

pub record TokenBucketState : Type 0 where
  pub tokens : ℕ
  pub last_refill_at : ℕ
  pub last_seen_at : ℕ

-- The units of one token.
abbrev pub one : ℕ
one = 60000

abbrev pub Buckets : Type 0
Buckets = Map String TokenBucketState

-- The loop over the entries.
unfoldable pub evict : ℕ → ℕ → Buckets → Buckets
evict idle_ttl now [] = []
evict idle_ttl now ((key, bucket) ∷ m) =
    let rest = evict idle_ttl now m in
    if ltb now bucket.last_seen_at
    then (key, bucket) ∷ rest
    else if leb idle_ttl (now - bucket.last_seen_at)
    then rest
    else (key, bucket) ∷ rest

unfoldable pub evict_idle_buckets : TokenBucketRateLimitConfig → ℕ → Buckets → Buckets
evict_idle_buckets config now m =
    if leb config.idle_ttl_ms 0 then m else evict config.idle_ttl_ms now m

-- What the bucket holds at a time. A clock that went back refills nothing.
unfoldable pub available : TokenBucketRateLimitConfig → ℕ → TokenBucketState → ℕ
available config now bucket =
    min (config.burst * one)
      (bucket.tokens + (now - bucket.last_refill_at) * config.refill_per_minute)

unfoldable pub check_bucket :
    TokenBucketRateLimitConfig → ℕ → Option TokenBucketState → Bool × Option TokenBucketState
check_bucket config now none = if ltb config.burst 1 then (false, none) else (
  true,
  some (record { tokens = (config.burst - 1) * one; last_refill_at = now; last_seen_at = now }),
)
check_bucket config now (some bucket) =
    let tokens = available config now bucket in
    if ltb tokens one
    then (false, some (record { tokens = tokens; last_refill_at = now; last_seen_at = now }))
    else (true, some (record { tokens = tokens - one; last_refill_at = now; last_seen_at = now }))

unfoldable pub put_bucket : String → Option TokenBucketState → Buckets → Buckets
put_bucket key none m = m
put_bucket key (some bucket) m = Map.set key bucket m

-- `check` of a limiter that is enabled.
unfoldable pub check_enabled : TokenBucketRateLimitConfig → String → ℕ → Buckets → Bool × Buckets
check_enabled config key now m =
    let live = evict_idle_buckets config now m in
    let answer = check_bucket config now (Map.get key live) in
    (answer.0, put_bucket key answer.1 live)

unfoldable pub check : TokenBucketRateLimitConfig → String → ℕ → Buckets → Bool × Buckets
check config key now m = if config.enabled then check_enabled config key now m else (true, m)
