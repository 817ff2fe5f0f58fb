-- ===== src/Server/RateLimit/Bound.antt =====
-- A client is granted no more than its burst and the refill of the time that passed.
use cordn.Prelude.{
  ℕ, String, ◌≡◌, ap, inl, inr, true, ◌&&◌, List, [], ◌∷◌, arith, ◌+◌, ◌-◌, ◌*◌, ◌≤◌, if◌then◌else◌,
  ◌==◌, Bool-cases, string_eq, nat_eq,
}
use cordn.Server.RateLimit.{TokenBucketRateLimitConfig, one, Buckets, check}
use cordn.Prelude.Map
use cordn.Prelude.Map.{IsDistinct, get-set, set-IsDistinct}
use native.Mathlib.Nat.{le_trans}
use cordn.Server.RateLimit.Budget.{
  IsValid, IsSound, budget, spent, budget-le-burst, budget-later, check-IsValid, spent-check,
}

-- The calls of clients, each with the reading of the clock.
abbrev pub Calls : Type 0
Calls = List (String × ℕ)

-- The clock does not go back.
abbrev pub IsOrdered : ℕ → Calls → Type 0
IsOrdered t [] = Unit
IsOrdered t ((_, now) ∷ calls) = (t ≤ now) × IsOrdered now calls

-- The time of the last call.
unfoldable pub last_time : ℕ → Calls → ℕ
last_time t [] = t
last_time t ((_, now) ∷ calls) = last_time now calls

-- The calls of a client that are granted.
unfoldable pub granted : TokenBucketRateLimitConfig → String → Calls → Buckets → ℕ
granted config key [] m = 0
granted config key ((k, now) ∷ calls) m =
    let answer = check config k now m in
    let rest = granted config key calls answer.1 in
    if answer.0 && (k == key) then 1 + rest else rest

last_time-ge : (t : ℕ) (calls : Calls) → IsOrdered t calls → t ≤ last_time t calls
unfolding last_time
last_time-ge t [] o = omega arith
last_time-ge t ((k, now) ∷ calls) o = omega (arith, o.0, last_time-ge now calls o.1)

granted-budget :
    (config : TokenBucketRateLimitConfig) (key : String) (t : ℕ) (calls : Calls) (m : Buckets)
    → config.enabled ≡ true
    → IsSound config
    → IsValid m
    → IsOrdered t calls
    → granted config key calls m * one
      ≤ budget config t (Map.get key m) + (last_time t calls - t) * config.refill_per_minute
unfolding granted last_time spent
granted-budget config key t [] m on sound v o = omega arith
granted-budget config key t ((k, now) ∷ calls) m on sound v o =
    let rest =
      granted-budget config key now calls (check config k now m).1 on sound
        (check-IsValid config k now m on v) o.1 in
    let step = spent-check config key k now m on sound v in
    let grown = budget-later config t now (Map.get key m) o.0 in
    let ordered = last_time-ge now calls o.1 in
    let elapsed : ((now - t) + (last_time now calls - now)) * config.refill_per_minute
        ≡ (last_time now calls - t) * config.refill_per_minute =
      ap (λ x. x * config.refill_per_minute) (omega (arith, ordered, o.0)) in
    elim (Bool-cases ((check config k now m).0 && (k == key))) [
      | inl hit ↦ rw hit (omega (arith, rest, rw (hit, spent) at step, grown, elapsed))
      | inr miss ↦ rw miss (omega (arith, rest, rw (miss, spent) at step, grown, elapsed))
    ]

-- Over calls that the clock orders, an enabled limiter that starts empty grants a client no more
-- than its burst and the refill since the first call; it needs that a bucket is full again by the
-- time it counts as idle, or that idle buckets stay.
pub granted-burst :
    (config : TokenBucketRateLimitConfig) (key : String) (t : ℕ) (calls : Calls)
    → config.enabled ≡ true
    → IsSound config
    → IsOrdered t calls
    → granted config key calls [] * one
      ≤ config.burst * one + (last_time t calls - t) * config.refill_per_minute
granted-burst config key t calls on sound o =
    le_trans
      (granted-budget config key t calls [] on sound
        (record { distinct = tt; current = λ k. (unfold Map.get in tt) }) o)
      (omega (arith, budget-le-burst config t (Map.get key [])))
