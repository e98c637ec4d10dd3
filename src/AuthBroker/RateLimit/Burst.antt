-- ===== src/AuthBroker/RateLimit/Burst.antt =====
-- How many requests of one caller a single instant admits.
use botwork.Common.{
  ℕ, zero, suc, ◌≤◌, min, ◌≡◌, refl, ap, false, none, List, [], ◌∷◌, arith, count, nat_eq, list_eq,
  option_eq, pair_eq, Result, ok, succeeded,
}
use botwork.Common.Text.{Text}
use botwork.Common.Map
use botwork.Common.Map.{get-insert_self}
use botwork.AuthBroker.RateLimit.Doubles.{Double}
use botwork.AuthBroker.RateLimit.{
  RateLimitConfig, is_disabled, RateLimitKey, Bucket, try_consume, RateLimiter, bucket_of,
}
use botwork.AuthBroker.RateLimit.Bounds.{IsSound, refilled_whole}
use botwork.AuthBroker.RateLimit.Guarded.{Buckets, limiter_of, consumed, check_on}
use botwork.AuthBroker.RateLimit.Traffic.{Event, asks}
use botwork.AuthBroker.RateLimit.Sweeping.{answers}

-- One caller, over and over.
abbrev pub attempts : ℕ → Text → Text → List Event
attempts zero tenant ip = []
attempts (suc n) tenant ip = asks tenant ip ∷ attempts n tenant ip

module _ (f64 : Double) (config : RateLimitConfig) (sound : IsSound config) where
  open f64 use {F64, of_u32, ge}

  abbrev holding : ℕ → ℕ → Bucket f64
  holding k now = record { tokens = of_u32 k; last_access = now }

  consume : Bucket f64 → ℕ → Result ℕ (Unit {0}) × Bucket f64
  consume bucket now =
      try_consume f64 bucket (of_u32 config.rate_per_second) (of_u32 config.burst) now

  consume_some :
      (k now : ℕ)
      → suc k ≤ config.burst
      → consume (holding (suc k) now) now ≡ (ok tt, holding k now)
  unfolding try_consume consume
  consume_some k now room =
      let one = f64.minus_one (suc k) (omega (arith, room, sound.burst_fits)) (omega arith) in
      ground (
        arith,
        one,
        refilled_whole f64 (suc k) config.rate_per_second config.burst now room sound.burst_fits
            sound.rate_fits,
        f64.ge-of_u32 (suc k) 1 (omega (arith, room, sound.burst_fits)) (omega arith),
      )

  consume_none :
      (now : ℕ)
      → (succeeded (consume (holding 0 now) now).0 ≡ false)
        × ((consume (holding 0 now) now).1 ≡ holding 0 now)
  unfolding try_consume consume
  consume_none now = ground (
    arith,
    refilled_whole f64 0 config.rate_per_second config.burst now (omega arith) sound.burst_fits
        sound.rate_fits,
    f64.ge-of_u32 0 1 (omega arith) (omega arith),
  )

  -- The bucket that a request finds after one that left `k` tokens.
  next_bucket :
      (bucket : Bucket f64) (k now : ℕ) (m : Buckets f64) (key : RateLimitKey)
      → bucket ≡ holding k now
      → bucket_of f64 (Map.get key (Map.insert key bucket m)) (of_u32 config.burst) now
        ≡ holding k now
  next_bucket bucket k now m key h = rw (get-insert_self key bucket m) h

  granted :
      (n k now : ℕ) (m : Buckets f64) (tenant ip : Text)
      → is_disabled config ≡ false
      → k ≤ config.burst
      → bucket_of f64 (Map.get (tenant, ip) m) (of_u32 config.burst) now ≡ holding k now
      → count succeeded (answers f64 (attempts n tenant ip) (now, limiter_of f64 config m))
        ≡ min n k
  unfolding answers consume
  granted zero k now m tenant ip on room h = ground arith
  granted (suc n) zero now m tenant ip on room h =
      let key : RateLimitKey = (tenant, ip) in
      let bucket = consumed f64 (limiter_of f64 config m) key now in
      let left : bucket ≡ holding 0 now = rw (consumed, h) (consume_none now).1 in
      let rest =
        granted n 0 now (Map.insert key bucket m) tenant ip on (omega arith)
          (next_bucket bucket 0 now m key left) in
      rw (check_on f64 config now m tenant ip on) (ground (arith, h, consume_none now, rest))
  granted (suc n) (suc k) now m tenant ip on room h =
      let key : RateLimitKey = (tenant, ip) in
      let bucket = consumed f64 (limiter_of f64 config m) key now in
      let left : bucket ≡ holding k now =
        rw (consumed, h) (ap (λ r. r.1) (consume_some k now room)) in
      let rest =
        granted n k now (Map.insert key bucket m) tenant ip on (omega (arith, room))
          (next_bucket bucket k now m key left) in
      rw (check_on f64 config now m tenant ip on) (ground (arith, h, consume_some k now room, rest))

-- Where limiting is on, of `n` requests that one caller sends at one instant to a limiter that does
-- not know the caller, as many are admitted as the burst allows and the others are refused, whatever
-- other callers' buckets there are. The rate and the burst are positive and fit into 32 bits.
pub burst_at_once :
    (f64 : Double) (limiter : RateLimiter f64) (n now : ℕ) (tenant ip : Text)
    → IsSound limiter.config
    → is_disabled limiter.config ≡ false
    → Map.get (tenant, ip) limiter.buckets ≡ none
    → count succeeded (answers f64 (attempts n tenant ip) (now, limiter))
      ≡ min n limiter.config.burst
burst_at_once f64 limiter n now tenant ip sound on unknown =
    let config = limiter.config in
    granted f64 config sound n config.burst now limiter.buckets tenant ip on (omega arith)
      (rw (unknown) refl)
