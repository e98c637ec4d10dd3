-- ===== src/AuthBroker/RateLimit/Bounds.antt =====
-- What a bucket may hold, what a refused caller is told, and how many requests one instant admits.
use botwork.Common.{
  ℕ, ◌-◌, ◌*◌, ◌≤◌, ◌<◌, ◌≡◌, refl, true, Option, none, some, arith, nat_eq, list_eq, option_eq,
  pair_eq, ok, err,
}
use botwork.Common.Text.{Text, parse_unsigned_bound}
use botwork.AuthBroker.RateLimit.Doubles.{Double, second, u32_mod}
use botwork.AuthBroker.RateLimit.{
  RateLimitConfig, with_rps, with_burst, parse_u32_str, from_lookup, env_rate_limit_rps,
  env_rate_limit_burst, Bucket, new_bucket, refilled, try_consume,
}

-- Both numbers are positive and fit into 32 bits.
pub record IsSound (config : RateLimitConfig) : Type 0 where
  pub rate_positive : 0 < config.rate_per_second
  pub rate_fits : config.rate_per_second < u32_mod
  pub burst_positive : 0 < config.burst
  pub burst_fits : config.burst < u32_mod

with_rps-IsSound :
    (rps : Option ℕ) (c : RateLimitConfig)
    → ((n : ℕ) → rps ≡ some n → n < u32_mod)
    → IsSound c
    → IsSound (with_rps rps c)
with_rps-IsSound none c fits h = h
with_rps-IsSound (some n) c fits h = ground (arith, fits n refl)

with_burst-IsSound :
    (burst : Option ℕ) (c : RateLimitConfig)
    → ((n : ℕ) → burst ≡ some n → n < u32_mod)
    → IsSound c
    → IsSound (with_burst burst c)
with_burst-IsSound none c fits h = h
with_burst-IsSound (some n) c fits h = ground (arith, fits n refl)

parse_u32_str_fits : (val : Option Text) (n : ℕ) → parse_u32_str val ≡ some n → n < u32_mod
parse_u32_str_fits none n h = cc
parse_u32_str_fits (some val) n h = parse_unsigned_bound u32_mod val h

-- Whatever the two variables hold, the rate and the burst that come out are positive and fit into
-- 32 bits.
pub from_lookup-IsSound : (lookup : Text → Option Text) → IsSound (from_lookup lookup)
unfolding from_lookup
from_lookup-IsSound lookup =
    with_burst-IsSound (parse_u32_str (lookup env_rate_limit_burst)) _
      (λ n h. parse_u32_str_fits _ n h)
      (with_rps-IsSound (parse_u32_str (lookup env_rate_limit_rps)) _
        (λ n h. parse_u32_str_fits _ n h) (ground arith))

module _ (f64 : Double) where
  open f64 use {F64, of_u32, as_secs, ceil, plus, minus, times, over, lower, greater, ge}

  -- Between nothing and the burst.
  pub record IsWithin (capacity : ℕ) (bucket : Bucket f64) : Type 0 where
    pub above_zero : ge bucket.tokens (of_u32 0) ≡ true
    pub below_capacity : ge (of_u32 capacity) bucket.tokens ≡ true

  pub refilled_ge :
      (bucket : Bucket f64) (rate capacity now k n : ℕ)
      → IsWithin capacity bucket
      → capacity < u32_mod
      → rate < u32_mod
      → k * second ≤ now - bucket.last_access
      → n ≤ k * rate
      → n ≤ capacity
      → ge (refilled f64 bucket (of_u32 rate) (of_u32 capacity) now) (of_u32 n) ≡ true
  refilled_ge bucket rate capacity now k n w fits rate_fits waited enough room =
      let elapsed =
        f64.times_ge (now - bucket.last_access) k rate n waited enough (omega arith) rate_fits in
      f64.lower_ge _ n capacity (f64.plus_ge bucket.tokens _ n w.above_zero elapsed) room fits

  -- One request keeps a bucket within its bounds, whatever the clock says.
  pub try_consume-IsWithin :
      (bucket : Bucket f64) (rate capacity now : ℕ)
      → IsWithin capacity bucket
      → capacity < u32_mod
      → rate < u32_mod
      → IsWithin capacity (try_consume f64 bucket (of_u32 rate) (of_u32 capacity) now).1
  unfolding try_consume
  try_consume-IsWithin bucket rate capacity now w fits rate_fits =
      let tokens = refilled f64 bucket (of_u32 rate) (of_u32 capacity) now in
      let positive =
        refilled_ge bucket rate capacity now 0 0 w fits rate_fits (omega arith) (omega arith)
          (omega arith) in
      let small : ge (of_u32 capacity) tokens ≡ true = f64.lower_le _ capacity fits in
      ground
        (arith, positive, small, f64.minus_one_ge tokens, f64.minus_one_le tokens capacity small)

  -- refusal: one second
  pub try_consume_wait :
      (bucket : Bucket f64) (rate capacity now wait : ℕ)
      → IsWithin capacity bucket
      → capacity < u32_mod
      → 0 < rate
      → rate < u32_mod
      → (try_consume f64 bucket (of_u32 rate) (of_u32 capacity) now).0 ≡ err wait
      → wait ≡ 1
  unfolding try_consume
  try_consume_wait bucket rate capacity now wait w fits positive_rate rate_fits h =
      let tokens = refilled f64 bucket (of_u32 rate) (of_u32 capacity) now in
      let positive =
        refilled_ge bucket rate capacity now 0 0 w fits rate_fits (omega arith) (omega arith)
          (omega arith) in
      let deficit = f64.from_one_le tokens positive in
      let secs = f64.greater_le _ (f64.over_le _ rate positive_rate rate_fits deficit) in
      ground (arith, f64.ceil_le _ secs)

  -- On a whole number of tokens, no time adds nothing.
  pub refilled_whole :
      (n rate capacity now : ℕ)
      → n ≤ capacity
      → capacity < u32_mod
      → rate < u32_mod
      → refilled f64
          (record { tokens = of_u32 n; last_access = now })
          (of_u32 rate)
          (of_u32 capacity)
          now
        ≡ of_u32 n
  refilled_whole n rate capacity now small fits rate_fits =
      let still : now - now ≡ 0 = omega arith in
      ground (
        arith,
        still,
        f64.times_zero rate rate_fits,
        f64.plus_zero n (omega arith),
        f64.lower_whole n capacity fits small,
      )

  -- A bucket that has been left alone for a second has a token.
  pub try_consume_rested :
      (bucket : Bucket f64) (config : RateLimitConfig) (now : ℕ)
      → IsSound config
      → IsWithin config.burst bucket
      → second ≤ now - bucket.last_access
      → (try_consume f64 bucket (of_u32 config.rate_per_second) (of_u32 config.burst) now).0 ≡ ok tt
  unfolding try_consume
  try_consume_rested bucket config now sound within waited =
      let token =
        refilled_ge bucket config.rate_per_second config.burst now 1 1 within sound.burst_fits
          sound.rate_fits (omega (arith, waited)) (omega (arith, sound.rate_positive))
          (omega (arith, sound.burst_positive)) in
      ground (arith, token)

  -- A new bucket has a token.
  pub try_consume_new :
      (config : RateLimitConfig) (now : ℕ)
      → IsSound config
      → (try_consume f64
          (new_bucket f64 (of_u32 config.burst) now)
          (of_u32 config.rate_per_second)
          (of_u32 config.burst)
          now).0
        ≡ ok tt
  unfolding try_consume
  try_consume_new config now sound = ground (
    arith,
    refilled_whole config.burst config.rate_per_second config.burst now,
    f64.ge-of_u32 config.burst 1,
    sound.burst_positive,
    sound.burst_fits,
    sound.rate_fits,
  )
