-- ===== src/AuthBroker/RateLimit.antt =====
-- auth-broker/src/auth/rate_limit.rs: the token bucket of each (tenant, source address). An instant
-- is a number of nanoseconds on the monotonic clock, `f64` is an interface (`Doubles`), and a number
-- of type `u32` is a number below 2 ^ 32.
pub mod Doubles
pub mod Bounds
pub mod Guarded
pub mod Traffic
pub mod Waiting
pub mod Burst
pub mod Sweeping
mod Tests
use botwork.Common.{
  ℕ, ◌-◌, ◌*◌, max, Bool, true, false, not, ◌||◌, Option, none, some, [], ltb, eqb, if◌then◌else◌,
  length, nat_eq, list_eq, option_eq, pair_eq, Result, ok, err,
}
use botwork.Common.Text.{Text, bytes, parse_unsigned}
use botwork.Common.Map
use botwork.Common.Map.{Map}
use botwork.AuthBroker.RateLimit.Doubles.{Double, second, u32_mod}

abbrev pub bucket_stale_ttl : ℕ
bucket_stale_ttl = 5 * 60 * second

abbrev pub env_rate_limit_rps : Text
env_rate_limit_rps = bytes "BOTWORK_AUTH_BROKER_RATE_LIMIT_RPS"

abbrev pub env_rate_limit_burst : Text
env_rate_limit_burst = bytes "BOTWORK_AUTH_BROKER_RATE_LIMIT_BURST"

abbrev pub default_rate_per_second : ℕ
default_rate_per_second = 10

abbrev pub default_burst : ℕ
default_burst = 20

pub record RateLimitConfig : Type 0 where
  pub rate_per_second : ℕ
  pub burst : ℕ
  pub disabled : Bool

abbrev pub default : RateLimitConfig
default = record {
  rate_per_second = default_rate_per_second;
  burst = default_burst;
  disabled = false;
}

-- The malformed value is logged and dropped.
abbrev pub parse_u32_str : Option Text → Option ℕ
parse_u32_str none = none
parse_u32_str (some val) = parse_unsigned u32_mod val

abbrev pub with_rps : Option ℕ → RateLimitConfig → RateLimitConfig
with_rps none config = config
with_rps (some rps) config =
    if eqb rps 0 then record config { disabled = true } else record config { rate_per_second = rps }

abbrev pub with_burst : Option ℕ → RateLimitConfig → RateLimitConfig
with_burst none config = config
with_burst (some burst) config = if eqb burst 0 then config else record config { burst = burst }

unfoldable pub from_lookup : (Text → Option Text) → RateLimitConfig
from_lookup lookup =
    let config = with_rps (parse_u32_str (lookup env_rate_limit_rps)) default in
    with_burst (parse_u32_str (lookup env_rate_limit_burst)) config

-- `RateLimitConfig::disabled`
abbrev pub without_limit : RateLimitConfig
without_limit = record default { disabled = true }

abbrev pub is_disabled : RateLimitConfig → Bool
is_disabled config = config.disabled || eqb config.rate_per_second 0

abbrev pub RateLimitKey : Type 0
RateLimitKey = Text × Text

module _ (f64 : Double) where
  open f64 use {F64, of_u32, as_secs, ceil, plus, minus, times, over, lower, greater, ge}

  pub record Bucket : Type 0 where
    pub tokens : F64
    pub last_access : ℕ

  abbrev pub new_bucket : F64 → ℕ → Bucket
  new_bucket capacity now = record { tokens = capacity; last_access = now }

  -- `saturating_duration_since` is the subtraction that stops at 0.
  abbrev pub refilled : Bucket → F64 → F64 → ℕ → F64
  refilled bucket rate capacity now =
      lower (plus bucket.tokens (times (as_secs (now - bucket.last_access)) rate)) capacity

  -- In whole seconds.
  abbrev pub retry_after : F64 → F64 → ℕ
  retry_after tokens rate = max (ceil (greater (over (minus (of_u32 1) tokens) rate) (of_u32 0))) 1

  unfoldable pub try_consume : Bucket → F64 → F64 → ℕ → Result ℕ (Unit {0}) × Bucket
  try_consume bucket rate capacity now =
      let tokens = refilled bucket rate capacity now in
      if ge tokens (of_u32 1)
      then (ok tt, record { tokens = minus tokens (of_u32 1); last_access = now })
      else (err (retry_after tokens rate), record { tokens = tokens; last_access = now })

  abbrev pub is_stale : Bucket → ℕ → ℕ → Bool
  is_stale bucket now stale_after = ltb stale_after (now - bucket.last_access)

  pub record RateLimiter : Type 0 where
    pub buckets : Map RateLimitKey Bucket
    pub config : RateLimitConfig

  abbrev pub new : RateLimitConfig → RateLimiter
  new config = record { buckets = []; config = config }

  -- `entry(key).or_insert_with(..)`
  abbrev pub bucket_of : Option Bucket → F64 → ℕ → Bucket
  bucket_of none capacity now = new_bucket capacity now
  bucket_of (some bucket) capacity now = bucket

  unfoldable pub check : RateLimiter → Text → Text → ℕ → Result ℕ (Unit {0}) × RateLimiter
  unfolding try_consume
  check limiter tenant ip now =
      let rate = of_u32 limiter.config.rate_per_second in
      let capacity = of_u32 limiter.config.burst in
      let bucket = bucket_of (Map.get (tenant, ip) limiter.buckets) capacity now in
      let (answer, bucket') = try_consume bucket rate capacity now in
      if is_disabled limiter.config
      then (ok tt, limiter)
      else (answer, record limiter { buckets = Map.insert (tenant, ip) bucket' limiter.buckets })

  unfoldable pub sweep : RateLimiter → ℕ → ℕ × RateLimiter
  sweep limiter now =
      let kept =
        Map.retain (λ _ bucket. not (is_stale bucket now bucket_stale_ttl)) limiter.buckets in
      if is_disabled limiter.config
      then (0, limiter)
      else (length limiter.buckets - length kept, record limiter { buckets = kept })
