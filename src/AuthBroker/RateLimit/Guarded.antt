-- ===== src/AuthBroker/RateLimit/Guarded.antt =====
-- The limiter's invariant, which every request and every sweep keeps.
use botwork.Common.{
  ℕ, ◌<◌, ◌≡◌, refl, inl, inr, Bool, false, not, some, arith, on_branches, Option-cases, nat_eq,
  list_eq, option_eq, pair_eq, Result,
}
use botwork.Common.Text.{Text}
use botwork.Common.Map
use botwork.Common.Map.{get-insert, get_retained, insert-Distinct, retain-Distinct}
use botwork.AuthBroker.RateLimit.Doubles.{Double, u32_mod}
use botwork.AuthBroker.RateLimit.{
  RateLimitConfig, is_disabled, is_stale, bucket_stale_ttl, RateLimitKey, Bucket, new_bucket,
  try_consume, RateLimiter, bucket_of, check, sweep,
}
use botwork.AuthBroker.RateLimit.Bounds.{IsSound, IsWithin, try_consume-IsWithin}

module _ (f64 : Double) where
  open f64 use {F64, of_u32, ge}

  abbrev pub Buckets : Type 0
  Buckets = Map.Map RateLimitKey (Bucket f64)

  abbrev pub limiter_of : RateLimitConfig → Buckets → RateLimiter f64
  limiter_of config m = record { buckets = m; config = config }

  -- The keys are distinct and every bucket is within its bounds.
  pub record IsGuarded (limiter : RateLimiter f64) : Type 0 where
    pub distinct : Map.Distinct limiter.buckets
    pub within :
        (key : RateLimitKey) (bucket : Bucket f64)
        → Map.get key limiter.buckets ≡ some bucket
        → IsWithin f64 limiter.config.burst bucket

  new_bucket-IsWithin :
      (burst now : ℕ) → burst < u32_mod → IsWithin f64 burst (new_bucket f64 (of_u32 burst) now)
  new_bucket-IsWithin burst now fits =
      ground (arith, f64.ge-of_u32 burst 0, f64.ge-of_u32 burst burst)

  -- The bucket that a request finds, or that is made for it.
  pub bucket_of-IsWithin :
      (limiter : RateLimiter f64) (key : RateLimitKey) (now : ℕ)
      → IsGuarded limiter
      → limiter.config.burst < u32_mod
      → IsWithin f64 limiter.config.burst
          (bucket_of f64 (Map.get key limiter.buckets) (of_u32 limiter.config.burst) now)
  bucket_of-IsWithin limiter key now guarded fits =
      elim (Option-cases (Map.get key limiter.buckets)) [
        | inl absent ↦ ground (arith, absent, new_bucket-IsWithin limiter.config.burst now fits)
        | inr (bucket, found) ↦ ground (arith, found, guarded.within key bucket found)
      ]

  insert-IsGuarded :
      (limiter : RateLimiter f64) (key : RateLimitKey) (bucket : Bucket f64)
      → IsGuarded limiter
      → IsWithin f64 limiter.config.burst bucket
      → IsGuarded (record limiter { buckets = Map.insert key bucket limiter.buckets })
  insert-IsGuarded limiter key bucket guarded fits = record {
    distinct = insert-Distinct key bucket limiter.buckets guarded.distinct;
    within = λ k b h. ground (arith, get-insert key k bucket limiter.buckets, guarded.within k b);
  }

  -- The bucket that a request leaves behind.
  abbrev pub consumed : RateLimiter f64 → RateLimitKey → ℕ → Bucket f64
  consumed limiter key now =
      let config = limiter.config in
      (try_consume f64 (bucket_of f64 (Map.get key limiter.buckets) (of_u32 config.burst) now)
        (of_u32 config.rate_per_second) (of_u32 config.burst) now).1

  pub consumed-IsGuarded :
      (limiter : RateLimiter f64) (key : RateLimitKey) (now : ℕ)
      → IsSound limiter.config
      → IsGuarded limiter
      → IsGuarded
          (record limiter { buckets = Map.insert key (consumed limiter key now) limiter.buckets })
  consumed-IsGuarded limiter key now sound guarded =
      let config = limiter.config in
      let bucket = bucket_of f64 (Map.get key limiter.buckets) (of_u32 config.burst) now in
      let fits = bucket_of-IsWithin limiter key now guarded sound.burst_fits in
      insert-IsGuarded limiter key _ guarded (
        try_consume-IsWithin f64 bucket config.rate_per_second config.burst now fits
          sound.burst_fits sound.rate_fits)

  -- Where limiting is on, the caller's bucket is refilled and consumed.
  pub check_on :
      (config : RateLimitConfig) (now : ℕ) (m : Buckets) (tenant ip : Text)
      → is_disabled config ≡ false
      → check f64 (limiter_of config m) tenant ip now ≡ (
        (try_consume f64
            (bucket_of f64 (Map.get (tenant, ip) m) (of_u32 config.burst) now)
            (of_u32 config.rate_per_second)
            (of_u32 config.burst)
            now).0,
        limiter_of config
            (Map.insert (tenant, ip) (consumed (limiter_of config m) (tenant, ip) now) m),
      )
  unfolding check
  check_on config now m tenant ip on = rw (on) refl

  pub check-IsGuarded :
      (limiter : RateLimiter f64) (tenant ip : Text) (now : ℕ)
      → IsSound limiter.config
      → IsGuarded limiter
      → IsGuarded (check f64 limiter tenant ip now).1
  unfolding check
  check-IsGuarded limiter tenant ip now sound guarded =
      on_branches (λ (r : Result ℕ (Unit {0}) × RateLimiter f64). IsGuarded r.1)
        (is_disabled limiter.config) guarded
        (consumed-IsGuarded limiter (tenant, ip) now sound guarded)

  abbrev pub is_fresh : ℕ → RateLimitKey → Bucket f64 → Bool
  is_fresh now _ bucket = not (is_stale f64 bucket now bucket_stale_ttl)

  pub retained-IsGuarded :
      (limiter : RateLimiter f64) (now : ℕ)
      → IsGuarded limiter
      → IsGuarded (record limiter { buckets = Map.retain (is_fresh now) limiter.buckets })
  retained-IsGuarded limiter now guarded = record {
    distinct = retain-Distinct (is_fresh now) limiter.buckets guarded.distinct;
    within = λ k b h.
        guarded.within k b (get_retained (is_fresh now) k limiter.buckets guarded.distinct h).0;
  }

  pub sweep-IsGuarded :
      (limiter : RateLimiter f64) (now : ℕ)
      → IsGuarded limiter
      → IsGuarded (sweep f64 limiter now).1
  unfolding sweep
  sweep-IsGuarded limiter now guarded =
      on_branches (λ (r : ℕ × RateLimiter f64). IsGuarded r.1) (is_disabled limiter.config) guarded
        (retained-IsGuarded limiter now guarded)
