-- ===== src/AuthBroker/RateLimit/Traffic.antt =====
-- Requests, sweeps and the passing of time in any order, from a limiter that starts empty.
use botwork.Common.{ℕ, ◌+◌, ◌≡◌, List, [], ◌∷◌, arith, nat_eq, list_eq, option_eq, pair_eq, err}
use botwork.Common.Text.{Text}
use botwork.Common.Map
use botwork.Common.Map.{get-insert_self, get-insert, get_retained}
use botwork.AuthBroker.RateLimit.Doubles.{Double}
use botwork.AuthBroker.RateLimit.{RateLimitConfig, RateLimiter, new, bucket_of, check, sweep}
use botwork.AuthBroker.RateLimit.Bounds.{IsSound, try_consume_wait}
use botwork.AuthBroker.RateLimit.Guarded.{
  IsGuarded, bucket_of-IsWithin, check-IsGuarded, sweep-IsGuarded,
}

pub data Event : Type 0 where
  asks : Text → Text → Event
  sweeps : Event
  passes : ℕ → Event

module _ (f64 : Double) where
  open f64 use {F64, of_u32, ge}

  abbrev pub Moment : Type 0
  Moment = ℕ × RateLimiter f64

  abbrev pub step : Event → Moment → Moment
  step (asks tenant ip) (now, limiter) = (now, (check f64 limiter tenant ip now).1)
  step sweeps (now, limiter) = (now, (sweep f64 limiter now).1)
  step (passes time) (now, limiter) = (now + time, limiter)

  unfoldable pub after : List Event → Moment → Moment
  after [] moment = moment
  after (e ∷ es) moment = after es (step e moment)

  pub step-IsSound : (e : Event) (m : Moment) → IsSound m.1.config → IsSound (step e m).1.config
  unfolding check sweep
  step-IsSound (asks tenant ip) (now, limiter) sound = ground (arith, sound)
  step-IsSound sweeps (now, limiter) sound = ground (arith, sound)
  step-IsSound (passes time) (now, limiter) sound = sound

  pub step-IsGuarded :
      (e : Event) (m : Moment) → IsSound m.1.config → IsGuarded f64 m.1 → IsGuarded f64 (step e m).1
  step-IsGuarded (asks tenant ip) (now, limiter) sound guarded =
      check-IsGuarded f64 limiter tenant ip now sound guarded
  step-IsGuarded sweeps (now, limiter) sound guarded = sweep-IsGuarded f64 limiter now guarded
  step-IsGuarded (passes time) (now, limiter) sound guarded = guarded

  pub after-IsGuarded :
      (es : List Event) (m : Moment)
      → IsSound m.1.config
      → IsGuarded f64 m.1
      → (IsGuarded f64 (after es m).1) × (IsSound (after es m).1.config)
  unfolding after
  after-IsGuarded [] m sound guarded = (guarded, sound)
  after-IsGuarded (e ∷ es) m sound guarded =
      after-IsGuarded es (step e m) (step-IsSound e m sound) (step-IsGuarded e m sound guarded)

  pub new-IsGuarded : (config : RateLimitConfig) → IsGuarded f64 (new f64 config)
  new-IsGuarded config = record { distinct = tt; within = λ k b h. cc }

  -- After any sequence of requests, sweeps and passing time, the keys of the limiter are distinct and
  -- every bucket holds at least nothing and at most the burst. The configuration that the limiter
  -- started with has a rate and a burst that are positive and fit into 32 bits.
  pub reachable-IsGuarded :
      (config : RateLimitConfig) (es : List Event) (now : ℕ)
      → IsSound config
      → IsGuarded f64 (after es (now, new f64 config)).1
  reachable-IsGuarded config es now sound =
      (after-IsGuarded es (now, new f64 config) sound (new-IsGuarded config)).0

  pub refused_wait :
      (limiter : RateLimiter f64) (tenant ip : Text) (now wait : ℕ)
      → IsSound limiter.config
      → IsGuarded f64 limiter
      → (check f64 limiter tenant ip now).0 ≡ err wait
      → wait ≡ 1
  unfolding check
  refused_wait limiter tenant ip now wait sound guarded h =
      let config = limiter.config in
      let within = bucket_of-IsWithin f64 limiter (tenant, ip) now guarded sound.burst_fits in
      ground (
        arith,
        try_consume_wait f64
            (bucket_of f64 (Map.get (tenant, ip) limiter.buckets) (of_u32 config.burst) now)
            config.rate_per_second config.burst now wait within sound.burst_fits sound.rate_positive
            sound.rate_fits,
      )

  -- A request that is refused after any sequence of requests, sweeps and passing time is told to wait
  -- for exactly one second, whatever the rate and the burst are: they only have to be positive and to
  -- fit into 32 bits.
  pub check_wait :
      (config : RateLimitConfig) (es : List Event) (start : ℕ) (tenant ip : Text) (wait : ℕ)
      → IsSound config
      → (check f64
          (after es (start, new f64 config)).1
          tenant
          ip
          (after es (start, new f64 config)).0).0
        ≡ err wait
      → wait ≡ 1
  check_wait config es start tenant ip wait sound h =
      let (guarded, sound') =
        after-IsGuarded es (start, new f64 config) sound (new-IsGuarded config) in
      refused_wait _ tenant ip _ wait sound' guarded h
