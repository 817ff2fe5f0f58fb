-- ===== src/Server/RateLimit/Budget.antt =====
-- What a client can still spend: a check takes off it what it grants, and time adds the refill.
use cordn.Prelude.{
  ℕ, String, ◌≡◌, refl, ap, ◌⊎◌, inl, inr, Bool, true, false, ◌&&◌, Option, none, some, [], ◌∷◌,
  arith, ◌+◌, ◌-◌, ◌*◌, ◌≤◌, if◌then◌else◌, leb, ◌==◌, Bool-cases, eq_of_==, string_eq, nat_eq,
}
use cordn.Server.RateLimit.{
  TokenBucketRateLimitConfig, TokenBucketState, one, Buckets, evict, evict_idle_buckets, available,
  check_bucket, put_bucket, check, check_enabled,
}
use cordn.Prelude.Map
use cordn.Prelude.Map.{IsDistinct, get-set, set-IsDistinct}
use native.Mathlib.Nat.{mul-le-mul_right, le_trans}

-- A bucket is seen when it is refilled.
abbrev pub IsCurrent : Option TokenBucketState → Type 0
IsCurrent none = Unit
IsCurrent (some bucket) = bucket.last_seen_at ≡ bucket.last_refill_at

pub record IsValid (m : Buckets) : Type 0 where
  pub distinct : IsDistinct m
  pub current : (key : String) → IsCurrent (Map.get key m)

-- An idle bucket has refilled by the time it goes.
pub record IsSound (config : TokenBucketRateLimitConfig) : Type 0 where
  pub refilled :
      (config.idle_ttl_ms ≡ 0)
      ⊎ (config.burst * one ≤ config.idle_ttl_ms * config.refill_per_minute)

-- The units that a client can still spend at a time.
unfoldable pub budget : TokenBucketRateLimitConfig → ℕ → Option TokenBucketState → ℕ
budget config now none = config.burst * one
budget config now (some bucket) = available config now bucket

-- The units that an answer grants.
unfoldable pub spent : Bool → ℕ
spent b = if b then one else 0

pub budget-le-burst :
    (config : TokenBucketRateLimitConfig) (now : ℕ) (b : Option TokenBucketState)
    → budget config now b ≤ config.burst * one
unfolding budget available
budget-le-burst config now none = omega arith
budget-le-burst config now (some b) = omega arith

-- What is granted comes off the budget.
spent-check_bucket :
    (config : TokenBucketRateLimitConfig) (now : ℕ) (b : Option TokenBucketState)
    → spent (check_bucket config now b).0 + budget config now (check_bucket config now b).1
      ≤ budget config now b
unfolding spent check_bucket budget available
spent-check_bucket config now none = ground arith
spent-check_bucket config now (some b) = ground arith

-- A budget grows by the refill of the time that passes.
pub budget-later :
    (config : TokenBucketRateLimitConfig) (t now : ℕ) (b : Option TokenBucketState)
    → t ≤ now
    → budget config now b ≤ budget config t b + (now - t) * config.refill_per_minute
unfolding budget available
budget-later config t now none h = omega arith
budget-later config t now (some b) h =
    let grown : (now - b.last_refill_at) * config.refill_per_minute
        ≤ ((t - b.last_refill_at) + (now - t)) * config.refill_per_minute =
      mul-le-mul_right config.refill_per_minute (omega arith) in
    omega (arith, grown)

get-evict :
    (idle now : ℕ) (key : String) (m : Buckets)
    → Map.get key m ≡ none
    → Map.get key (evict idle now m) ≡ none
unfolding evict Map.get
get-evict idle now key [] h = refl
get-evict idle now key ((k, b) ∷ m) h = ground (arith, get-evict idle now key m)

evict-IsDistinct : (idle now : ℕ) (m : Buckets) → IsDistinct m → IsDistinct (evict idle now m)
unfolding evict
evict-IsDistinct idle now [] d = tt
evict-IsDistinct idle now ((k, b) ∷ m) d =
    ground (arith, evict-IsDistinct idle now m d.1, get-evict idle now k m d.0)

-- A key keeps its bucket, or the bucket has been idle and goes.
evict-cases :
    (idle now : ℕ) (key : String) (m : Buckets)
    → IsDistinct m
    → (Map.get key (evict idle now m) ≡ Map.get key m)
      ⊎ ((Map.get key (evict idle now m) ≡ none)
          × (b : TokenBucketState) × (Map.get key m ≡ some b)
          × (idle + b.last_seen_at ≤ now))
unfolding evict Map.get
evict-cases idle now key [] d = inl refl
evict-cases idle now key ((k, b) ∷ m) d =
    ground (arith, evict-cases idle now key m d.1, get-evict idle now k m d.0)

budget-idle :
    (config : TokenBucketRateLimitConfig) (now : ℕ) (b : TokenBucketState)
    → IsSound config
    → leb config.idle_ttl_ms 0 ≡ false
    → b.last_seen_at ≡ b.last_refill_at
    → config.idle_ttl_ms + b.last_seen_at ≤ now
    → config.burst * one ≤ available config now b
unfolding available
budget-idle config now b sound on current idle =
    let grown : config.idle_ttl_ms * config.refill_per_minute
        ≤ (now - b.last_refill_at) * config.refill_per_minute =
      mul-le-mul_right config.refill_per_minute (omega arith) in
    elim sound.refilled [ inl off ↦ ground arith | inr enough ↦ omega (arith, grown, enough) ]

-- Eviction leaves a client no more to spend.
budget-evict :
    (config : TokenBucketRateLimitConfig) (now : ℕ) (key : String) (m : Buckets)
    → IsSound config
    → IsValid m
    → budget config now (Map.get key (evict_idle_buckets config now m))
      ≤ budget config now (Map.get key m)
unfolding evict_idle_buckets
budget-evict config now key m sound v = elim (Bool-cases (leb config.idle_ttl_ms 0)) [
  | inl off ↦ rw off (omega arith)
  | inr on ↦ rw on (elim (evict-cases config.idle_ttl_ms now key m v.distinct) [
    | inl same ↦ rw same (omega arith)
    | inr (gone, b, here, idle) ↦
        rw (gone, here)
          (unfold budget in (budget-idle config now b sound on (rw here at (v.current key)) idle))
  ])
]

evict_idle_buckets-IsValid :
    (config : TokenBucketRateLimitConfig) (now : ℕ) (m : Buckets)
    → IsValid m
    → IsValid (evict_idle_buckets config now m)
unfolding evict_idle_buckets
evict_idle_buckets-IsValid config now m v = elim (Bool-cases (leb config.idle_ttl_ms 0)) [
  | inl off ↦ rw off v
  | inr on ↦ rw on (record {
    distinct = evict-IsDistinct config.idle_ttl_ms now m v.distinct;
    current = λ key. elim (evict-cases config.idle_ttl_ms now key m v.distinct) [
      | inl same ↦ rw same (v.current key)
      | inr (gone, _, _, _) ↦ rw gone tt
    ];
  })
]

put_bucket-IsValid :
    (key : String) (b : Option TokenBucketState) (m : Buckets)
    → IsCurrent b
    → IsValid m
    → IsValid (put_bucket key b m)
unfolding put_bucket
put_bucket-IsValid key none m c v = v
put_bucket-IsValid key (some b) m c v = record {
  distinct = set-IsDistinct key b m v.distinct;
  current = λ k. elim (Bool-cases (key == k)) [
    | inl here ↦ rw (get-set key k b m, here) c
    | inr other ↦ rw (get-set key k b m, other) (v.current k)
  ];
}

check_bucket-IsCurrent :
    (config : TokenBucketRateLimitConfig) (now : ℕ) (b : Option TokenBucketState)
    → IsCurrent (check_bucket config now b).1
unfolding check_bucket
check_bucket-IsCurrent config now none = ground arith
check_bucket-IsCurrent config now (some b) = ground arith

check-on :
    (config : TokenBucketRateLimitConfig) (key : String) (now : ℕ) (m : Buckets)
    → config.enabled ≡ true
    → check config key now m ≡ check_enabled config key now m
unfolding check
check-on config key now m on = ap (λ b. if b then check_enabled config key now m else (true, m)) on

pub check-IsValid :
    (config : TokenBucketRateLimitConfig) (key : String) (now : ℕ) (m : Buckets)
    → config.enabled ≡ true
    → IsValid m
    → IsValid (check config key now m).1
check-IsValid config key now m on v =
    let live = evict_idle_buckets config now m in
    rw (check-on config key now m on) (
      unfold check_enabled in
      (put_bucket-IsValid key (check_bucket config now (Map.get key live)).1 live
        (check_bucket-IsCurrent config now (Map.get key live))
        (evict_idle_buckets-IsValid config now m v)))

check_bucket-none :
    (config : TokenBucketRateLimitConfig) (now : ℕ) (b : Option TokenBucketState)
    → (check_bucket config now b).1 ≡ none
    → b ≡ none
unfolding check_bucket
check_bucket-none config now none h = refl
check_bucket-none config now (some b) h = ground arith

get-put_bucket :
    (k key : String) (b : Option TokenBucketState) (m : Buckets)
    → (b ≡ none → Map.get k m ≡ none)
    → Map.get key (put_bucket k b m) ≡ (if k == key then b else Map.get key m)
unfolding put_bucket
get-put_bucket k key none m h = elim (Bool-cases (k == key)) [
  | inl here ↦ rw here (rw (eq_of_== k key here) at (h refl))
  | inr other ↦ rw other
]
get-put_bucket k key (some b) m h = get-set k key b m

spent-and : (b c : Bool) → spent (b && c) ≡ (if c then spent b else 0)
unfolding spent
spent-and b c = ground arith

spent-check_live :
    (config : TokenBucketRateLimitConfig) (key k : String) (now : ℕ) (live : Buckets)
    → let answer = check_bucket config now (Map.get k live) in
      spent (answer.0 && (k == key)) + budget config now (Map.get key (put_bucket k answer.1 live))
      ≤ budget config now (Map.get key live)
spent-check_live config key k now live = elim (Bool-cases (k == key)) [
  | inl here ↦
      rw
        (
          get-put_bucket k key (check_bucket config now (Map.get k live)).1 live
              (check_bucket-none config now (Map.get k live)),
          here,
        )
        (rw (spent-and, eq_of_== k key here) (spent-check_bucket config now (Map.get key live)))
  | inr other ↦
      rw
        (
          get-put_bucket k key (check_bucket config now (Map.get k live)).1 live
              (check_bucket-none config now (Map.get k live)),
          other,
        )
        (rw spent-and (omega arith))
]

-- What a client is granted comes off what it could spend, and the calls of others leave that alone.
pub spent-check :
    (config : TokenBucketRateLimitConfig) (key k : String) (now : ℕ) (m : Buckets)
    → config.enabled ≡ true
    → IsSound config
    → IsValid m
    → spent ((check config k now m).0 && (k == key))
        + budget config now (Map.get key (check config k now m).1)
      ≤ budget config now (Map.get key m)
spent-check config key k now m on sound v = rw (check-on config k now m on) (
    unfold check_enabled in
    (le_trans (spent-check_live config key k now (evict_idle_buckets config now m))
      (budget-evict config now key m sound v)))
