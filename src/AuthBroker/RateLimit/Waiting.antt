-- ===== src/AuthBroker/RateLimit/Waiting.antt =====
-- A caller who waits for a second is served.
use botwork.Common.{
  ℕ, ◌+◌, ◌-◌, ◌≤◌, ◌≡◌, ◌⊎◌, inl, inr, Bool, true, false, not, some, List, [], ◌∷◌, arith,
  on_branches, Option-cases, all, ◌==◌, nat_eq, list_eq, option_eq, pair_eq, Result, ok,
}
use botwork.Common.Text.{Text}
use botwork.Common.Map
use botwork.Common.Map.{get-insert_self, get-insert, get_retained}
use botwork.AuthBroker.RateLimit.Doubles.{Double, second}
use botwork.AuthBroker.RateLimit.{
  RateLimitConfig, is_disabled, RateLimitKey, Bucket, try_consume, RateLimiter, new, bucket_of,
  check, sweep,
}
use botwork.AuthBroker.RateLimit.Bounds.{IsSound, try_consume_rested, try_consume_new}
use botwork.AuthBroker.RateLimit.Guarded.{is_fresh, IsGuarded}
use botwork.AuthBroker.RateLimit.Traffic.{
  Event, asks, sweeps, passes, Moment, step, after, step-IsSound, step-IsGuarded, after-IsGuarded,
  new-IsGuarded,
}

module _ (f64 : Double) where
  open f64 use {F64, of_u32}

  -- An event in which the caller does not ask.
  abbrev pub is_silent : RateLimitKey → Event → Bool
  is_silent key (asks tenant ip) = not ((tenant, ip) == key)
  is_silent key sweeps = true
  is_silent key (passes time) = true

  -- The caller's bucket was not used after a moment.
  abbrev IsRested : RateLimitKey → ℕ → RateLimiter f64 → Type 0
  IsRested key last limiter =
      (bucket : Bucket f64) → Map.get key limiter.buckets ≡ some bucket → bucket.last_access ≤ last

  try_consume-last_access :
      (bucket : Bucket f64) (rate capacity : F64) (now : ℕ)
      → (try_consume f64 bucket rate capacity now).1.last_access ≡ now
  unfolding try_consume
  try_consume-last_access bucket rate capacity now = ground arith

  -- A bucket goes in that was used early enough, or that is not the caller's.
  insert-IsRested :
      (key k : RateLimitKey) (last : ℕ) (bucket : Bucket f64) (limiter : RateLimiter f64)
      → (bucket.last_access ≤ last) ⊎ ((k == key) ≡ false)
      → IsRested key last limiter
      → IsRested key last (record limiter { buckets = Map.insert k bucket limiter.buckets })
  insert-IsRested key k last bucket limiter h rested b found =
      ground (arith, get-insert k key bucket limiter.buckets, rested b)

  check-IsRested :
      (key : RateLimitKey) (last : ℕ) (limiter : RateLimiter f64) (tenant ip : Text) (now : ℕ)
      → (now ≤ last) ⊎ (((tenant, ip) == key) ≡ false)
      → IsRested key last limiter
      → IsRested key last (check f64 limiter tenant ip now).1
  unfolding check
  check-IsRested key last limiter tenant ip now h rested =
      let bucket =
        bucket_of f64 (Map.get (tenant, ip) limiter.buckets) (of_u32 limiter.config.burst) now in
      let used =
        try_consume-last_access bucket (of_u32 limiter.config.rate_per_second)
          (of_u32 limiter.config.burst) now in
      on_branches (λ (r : Result ℕ (Unit {0}) × RateLimiter f64). IsRested key last r.1)
        (is_disabled limiter.config) rested
        (insert-IsRested key (tenant, ip) last _ limiter (ground (arith, used, h)) rested)

  sweep-IsRested :
      (key : RateLimitKey) (last : ℕ) (limiter : RateLimiter f64) (now : ℕ)
      → IsGuarded f64 limiter
      → IsRested key last limiter
      → IsRested key last (sweep f64 limiter now).1
  unfolding sweep
  sweep-IsRested key last limiter now guarded rested =
      on_branches (λ (r : ℕ × RateLimiter f64). IsRested key last r.1) (is_disabled limiter.config)
        rested
        (λ b h. rested b (get_retained (is_fresh f64 now) key limiter.buckets guarded.distinct h).0)

  step-IsRested :
      (key : RateLimitKey) (last : ℕ) (e : Event) (m : Moment f64)
      → is_silent key e ≡ true
      → IsGuarded f64 m.1
      → IsRested key last m.1
      → IsRested key last (step f64 e m).1
  step-IsRested key last (asks tenant ip) (now, limiter) silent guarded rested =
      check-IsRested key last limiter tenant ip now (inr (ground (arith, silent))) rested
  step-IsRested key last sweeps (now, limiter) silent guarded rested =
      sweep-IsRested key last limiter now guarded rested
  step-IsRested key last (passes time) (now, limiter) silent guarded rested = rested

  after-IsRested :
      (key : RateLimitKey) (last : ℕ) (es : List Event) (m : Moment f64)
      → all (is_silent key) es ≡ true
      → IsSound m.1.config
      → IsGuarded f64 m.1
      → IsRested key last m.1
      → IsRested key last (after f64 es m).1
  unfolding after
  after-IsRested key last [] m silent sound guarded rested = rested
  after-IsRested key last (e ∷ es) m silent sound guarded rested =
      after-IsRested key last es (step f64 e m) (ground (arith, silent))
        (step-IsSound f64 e m sound) (step-IsGuarded f64 e m sound guarded)
        (step-IsRested key last e m (ground (arith, silent)) guarded rested)

  -- No bucket was used after the present.
  after-IsCurrent :
      (key : RateLimitKey) (es : List Event) (m : Moment f64)
      → IsSound m.1.config
      → IsGuarded f64 m.1
      → IsRested key m.0 m.1
      → IsRested key (after f64 es m).0 (after f64 es m).1
  unfolding after
  after-IsCurrent key [] m sound guarded rested = rested
  after-IsCurrent key (asks tenant ip ∷ es) (now, limiter) sound guarded rested =
      let e = asks tenant ip in
      let m : Moment f64 = (now, limiter) in
      after-IsCurrent key es (step f64 e m) (step-IsSound f64 e m sound)
        (step-IsGuarded f64 e m sound guarded)
        (check-IsRested key now limiter tenant ip now (inl (omega arith)) rested)
  after-IsCurrent key (sweeps ∷ es) (now, limiter) sound guarded rested =
      let m : Moment f64 = (now, limiter) in
      after-IsCurrent key es (step f64 sweeps m) (step-IsSound f64 sweeps m sound)
        (step-IsGuarded f64 sweeps m sound guarded)
        (sweep-IsRested key now limiter now guarded rested)
  after-IsCurrent key (passes time ∷ es) (now, limiter) sound guarded rested =
      after-IsCurrent key es (now + time, limiter) sound guarded (λ b h. omega (arith, rested b h))

  check_rested :
      (limiter : RateLimiter f64) (tenant ip : Text) (last now : ℕ)
      → IsSound limiter.config
      → IsGuarded f64 limiter
      → IsRested (tenant, ip) last limiter
      → last + second ≤ now
      → (check f64 limiter tenant ip now).0 ≡ ok tt
  unfolding check
  check_rested limiter tenant ip last now sound guarded rested waited =
      elim (Option-cases (Map.get (tenant, ip) limiter.buckets)) [
        | inl absent ↦ ground (arith, absent, try_consume_new f64 limiter.config now sound)
        | inr (bucket, found) ↦
            let within = guarded.within (tenant, ip) bucket found in
            let long : second ≤ now - bucket.last_access =
              omega (arith, rested bucket found, waited) in
            ground
              (arith, found, try_consume_rested f64 bucket limiter.config now sound within long)
      ]

  -- After any sequence of events, a caller who then does not ask for a second or more is admitted,
  -- whatever else happens meanwhile: other callers' requests, sweeps and passing time. So a refused
  -- caller who waits for the second that the refusal names is served. The rate and the burst are
  -- positive and fit into 32 bits.
  pub check-after_wait :
      (config : RateLimitConfig) (before between : List Event) (start : ℕ) (tenant ip : Text)
      → IsSound config
      → all (is_silent (tenant, ip)) between ≡ true
      → (after f64 before (start, new f64 config)).0 + second
        ≤ (after f64 between (after f64 before (start, new f64 config))).0
      → (check f64
          (after f64 between (after f64 before (start, new f64 config))).1
          tenant
          ip
          (after f64 between (after f64 before (start, new f64 config))).0).0
        ≡ ok tt
  check-after_wait config before between start tenant ip sound silent waited =
      let key : RateLimitKey = (tenant, ip) in
      let m = after f64 before (start, new f64 config) in
      let (guarded, sound') =
        after-IsGuarded f64 before (start, new f64 config) sound (new-IsGuarded f64 config) in
      let (guarded', sound'') = after-IsGuarded f64 between m sound' guarded in
      let current =
        after-IsCurrent key before (start, new f64 config) sound (new-IsGuarded f64 config)
          (λ b h. cc) in
      let rested = after-IsRested key m.0 between m silent sound' guarded current in
      check_rested _ tenant ip m.0 _ sound'' guarded' rested waited
