-- ===== src/AuthBroker/RateLimit/Sweeping.antt =====
-- Evicting idle buckets changes no answer, as long as a bucket is full again by the time it is idle.
use botwork.Common.{
  ℕ, ◌+◌, ◌-◌, ◌*◌, ◌≤◌, ◌≡◌, refl, sym, ap, ◌∙◌, ◌⊎◌, inl, inr, true, false, Option, none, some,
  List, [], ◌∷◌, arith, ltb→lt, Bool-cases, ◌==◌, nat_eq, list_eq, option_eq, pair_eq, Result,
}
use botwork.Common.Map
use botwork.Common.Map.{get-insert, get-retain, get_retained}
use botwork.AuthBroker.RateLimit.Doubles.{Double, second}
use botwork.AuthBroker.RateLimit.{
  is_stale, bucket_stale_ttl, RateLimitConfig, is_disabled, RateLimitKey, Bucket, refilled,
  try_consume, new, bucket_of, check, sweep,
}
use botwork.AuthBroker.RateLimit.Bounds.{IsSound, IsWithin, refilled_whole}
use botwork.AuthBroker.RateLimit.Guarded.{
  Buckets, limiter_of, check_on, is_fresh, consumed, consumed-IsGuarded, retained-IsGuarded,
  IsGuarded,
}
use botwork.AuthBroker.RateLimit.Traffic.{Event, asks, sweeps, passes, Moment, new-IsGuarded}

-- The same events without the sweeps.
abbrev pub unswept : List Event → List Event
unswept [] = []
unswept (asks tenant ip ∷ es) = asks tenant ip ∷ unswept es
unswept (sweeps ∷ es) = unswept es
unswept (passes time ∷ es) = passes time ∷ unswept es

module _ (f64 : Double) where
  open f64 use {F64, of_u32, as_secs, times, ge, plus}

  -- What the callers are told, in order.
  unfoldable pub answers : List Event → Moment f64 → List (Result ℕ (Unit {0}))
  answers [] moment = []
  answers (asks tenant ip ∷ es) (now, limiter) =
      let (answer, limiter') = check f64 limiter tenant ip now in
      answer ∷ answers es (now, limiter')
  answers (sweeps ∷ es) (now, limiter) = answers es (now, (sweep f64 limiter now).1)
  answers (passes time ∷ es) (now, limiter) = answers es (now + time, limiter)

  -- What a request does depends on what the bucket holds after the refill.
  same_tokens :
      (b c : Bucket f64) (rate capacity : F64) (now : ℕ)
      → refilled f64 b rate capacity now ≡ refilled f64 c rate capacity now
      → try_consume f64 b rate capacity now ≡ try_consume f64 c rate capacity now
  unfolding try_consume
  same_tokens b c rate capacity now e = rw (e) refl

  -- An idle bucket is full.
  refilled_stale :
      (bucket : Bucket f64) (config : RateLimitConfig) (now : ℕ)
      → IsSound config
      → config.burst ≤ 300 * config.rate_per_second
      → IsWithin f64 config.burst bucket
      → is_stale f64 bucket now bucket_stale_ttl ≡ true
      → refilled f64 bucket (of_u32 config.rate_per_second) (of_u32 config.burst) now
        ≡ of_u32 config.burst
  refilled_stale bucket config now sound enough within stale =
      let long : 300 * second ≤ now - bucket.last_access =
        omega (arith, ltb→lt bucket_stale_ttl (now - bucket.last_access) stale) in
      let gain =
        f64.times_ge (now - bucket.last_access) 300 config.rate_per_second config.burst long enough
          sound.burst_fits sound.rate_fits in
      f64.lower_full _ config.burst sound.burst_positive
        (f64.plus_ge bucket.tokens _ config.burst within.above_zero gain)

  -- Two tables agree on a key, or the first lacks a bucket that is idle in the second.
  abbrev Agrees : ℕ → Option (Bucket f64) → Option (Bucket f64) → Type 0
  Agrees now o p =
      (o ≡ p)
      ⊎ ((o ≡ none)
          × (b : Bucket f64) × (p ≡ some b)
          × (is_stale f64 b now bucket_stale_ttl ≡ true))

  -- Of two limiters with the same configuration, the first was swept more often.
  record IsSweptFrom (now : ℕ) (config : RateLimitConfig) (m n : Buckets f64) : Type 0 where
    guarded : IsGuarded f64 (limiter_of f64 config m)
    guarded_too : IsGuarded f64 (limiter_of f64 config n)
    agrees : (key : RateLimitKey) → Agrees now (Map.get key m) (Map.get key n)

  Agrees-try_consume :
      (o p : Option (Bucket f64)) (config : RateLimitConfig) (now : ℕ)
      → IsSound config
      → config.burst ≤ 300 * config.rate_per_second
      → ((b : Bucket f64) → p ≡ some b → IsWithin f64 config.burst b)
      → Agrees now o p
      → try_consume f64
          (bucket_of f64 o (of_u32 config.burst) now)
          (of_u32 config.rate_per_second)
          (of_u32 config.burst)
          now
        ≡ try_consume f64
            (bucket_of f64 p (of_u32 config.burst) now)
            (of_u32 config.rate_per_second)
            (of_u32 config.burst)
            now
  Agrees-try_consume o p config now sound enough within (inl e) = rw (e) refl
  Agrees-try_consume o p config now sound enough within (inr (absent, b, found, stale)) =
      let full = refilled_stale b config now sound enough (within b found) stale in
      let fresh =
        refilled_whole f64 config.burst config.rate_per_second config.burst now (omega arith)
          sound.burst_fits sound.rate_fits in
      rw (absent, found) (same_tokens _ b _ _ now (fresh ∙ sym full))

  module _ (config : RateLimitConfig) (sound : IsSound config)
      (refills : config.burst ≤ 300 * config.rate_per_second) where
    same_answer :
        (now : ℕ) (m n : Buckets f64) (key : RateLimitKey)
        → IsSweptFrom now config m n
        → try_consume f64
            (bucket_of f64 (Map.get key m) (of_u32 config.burst) now)
            (of_u32 config.rate_per_second)
            (of_u32 config.burst)
            now
          ≡ try_consume f64
              (bucket_of f64 (Map.get key n) (of_u32 config.burst) now)
              (of_u32 config.rate_per_second)
              (of_u32 config.burst)
              now
    same_answer now m n key r =
        Agrees-try_consume (Map.get key m) (Map.get key n) config now sound refills
          (r.guarded_too.within key) (r.agrees key)

    insert-Agrees :
        (now : ℕ) (m n : Buckets f64) (k : RateLimitKey) (b : Bucket f64)
        → ((key : RateLimitKey) → Agrees now (Map.get key m) (Map.get key n))
        → (key : RateLimitKey)
        → Agrees now (Map.get key (Map.insert k b m)) (Map.get key (Map.insert k b n))
    insert-Agrees now m n k b agrees key =
        rw (get-insert k key b m, get-insert k key b n)
          elim (Bool-cases (k == key)) [
            | inl same ↦ inl (rw (same) refl)
            | inr other ↦ rw (other) (agrees key)
          ]

    later-Agrees :
        (now time : ℕ) (o p : Option (Bucket f64)) → Agrees now o p → Agrees (now + time) o p
    later-Agrees now time o p (inl e) = inl e
    later-Agrees now time o p (inr (absent, b, found, stale)) =
        inr (absent, b, found, ground (arith, stale))

    keep-Agrees :
        (now : ℕ) (key : RateLimitKey) (o p : Option (Bucket f64))
        → Agrees now o p
        → Agrees now (Map.keep_if (is_fresh f64 now) key o) p
    keep-Agrees now key none p h = h
    keep-Agrees now key (some b) p (inl e) =
        elim (Bool-cases (is_stale f64 b now bucket_stale_ttl)) [
          | inl stale ↦ inr (ground (arith, stale), b, sym e, stale)
          | inr fresh ↦ inl (ground (arith, fresh, e))
        ]
    keep-Agrees now key (some b) p (inr h) = cc

    ask-IsSweptFrom :
        (now : ℕ) (m n : Buckets f64) (key : RateLimitKey)
        → IsSweptFrom now config m n
        → IsSweptFrom now config
            (Map.insert key (consumed f64 (limiter_of f64 config m) key now) m)
            (Map.insert key (consumed f64 (limiter_of f64 config n) key now) n)
    ask-IsSweptFrom now m n key r = record {
      guarded = consumed-IsGuarded f64 (limiter_of f64 config m) key now sound r.guarded;
      guarded_too = consumed-IsGuarded f64 (limiter_of f64 config n) key now sound r.guarded_too;
      agrees =
          rw (consumed, same_answer now m n key r)
            (insert-Agrees now m n key (consumed f64 (limiter_of f64 config n) key now) r.agrees);
    }

    sweep-IsSweptFrom :
        (now : ℕ) (m n : Buckets f64)
        → IsSweptFrom now config m n
        → IsSweptFrom now config (Map.retain (is_fresh f64 now) m) n
    sweep-IsSweptFrom now m n r = record {
      guarded = retained-IsGuarded f64 (limiter_of f64 config m) now r.guarded;
      guarded_too = r.guarded_too;
      agrees = λ key.
          rw (get-retain (is_fresh f64 now) key m r.guarded.distinct)
            (keep-Agrees now key (Map.get key m) (Map.get key n) (r.agrees key));
    }

    later-IsSweptFrom :
        (now time : ℕ) (m n : Buckets f64)
        → IsSweptFrom now config m n
        → IsSweptFrom (now + time) config m n
    later-IsSweptFrom now time m n r = record {
      guarded = r.guarded;
      guarded_too = r.guarded_too;
      agrees = λ key. later-Agrees now time (Map.get key m) (Map.get key n) (r.agrees key);
    }

    sweep_on :
        (now : ℕ) (m : Buckets f64)
        → is_disabled config ≡ false
        → (sweep f64 (limiter_of f64 config m) now).1
          ≡ limiter_of f64 config (Map.retain (is_fresh f64 now) m)
    unfolding sweep
    sweep_on now m on = rw (on) refl

    answers_on :
        (es : List Event) (now : ℕ) (m n : Buckets f64)
        → is_disabled config ≡ false
        → IsSweptFrom now config m n
        → answers es (now, limiter_of f64 config m)
          ≡ answers (unswept es) (now, limiter_of f64 config n)
    unfolding answers
    answers_on [] now m n on r = refl
    answers_on (asks tenant ip ∷ es) now m n on r =
        let head = ap (λ a. a.0) (same_answer now m n (tenant, ip) r) in
        let tail = answers_on es now _ _ on (ask-IsSweptFrom now m n (tenant, ip) r) in
        rw (check_on f64 config now m tenant ip on, check_on f64 config now n tenant ip on)
          (cc (head, tail))
    answers_on (sweeps ∷ es) now m n on r =
        rw (sweep_on now m on) (answers_on es now _ n on (sweep-IsSweptFrom now m n r))
    answers_on (passes time ∷ es) now m n on r =
        answers_on es (now + time) m n on (later-IsSweptFrom now time m n r)

    answers_off :
        (es : List Event) (now : ℕ) (m : Buckets f64)
        → is_disabled config ≡ true
        → answers es (now, limiter_of f64 config m)
          ≡ answers (unswept es) (now, limiter_of f64 config m)
    unfolding answers check sweep
    answers_off [] now m off = refl
    answers_off (asks tenant ip ∷ es) now m off = rw (off, answers_off es now m off) refl
    answers_off (sweeps ∷ es) now m off = rw (off) (answers_off es now m off)
    answers_off (passes time ∷ es) now m off = answers_off es (now + time) m off

  -- The sweeps of the background task change no caller's answer, whatever the order of requests,
  -- sweeps and passing time. The rate and the burst are positive and fit into 32 bits, and the burst
  -- is at most what the rate refills in the 300 seconds after which a bucket is idle.
  pub answers-unswept :
      (config : RateLimitConfig) (es : List Event) (start : ℕ)
      → IsSound config
      → config.burst ≤ 300 * config.rate_per_second
      → answers es (start, new f64 config) ≡ answers (unswept es) (start, new f64 config)
  answers-unswept config es start sound refills =
      let empty : IsSweptFrom start config [] [] = record {
        guarded = new-IsGuarded f64 config;
        guarded_too = new-IsGuarded f64 config;
        agrees = λ key. inl refl;
      } in
      elim (Bool-cases (is_disabled config)) [
        | inl off ↦ answers_off config sound refills es start [] off
        | inr on ↦ answers_on config sound refills es start [] [] on empty
      ]
