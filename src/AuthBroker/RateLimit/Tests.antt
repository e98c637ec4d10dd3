-- ===== src/AuthBroker/RateLimit/Tests.antt =====
-- Whole thousandths of tokens and seconds, and one caller.
use botwork.Common.{
  ℕ, ◌+◌, ◌-◌, ◌*◌, ◌/◌, ◌≤◌, min, max, ◌≡◌, refl, true, false, Option, some, List, [], ◌∷◌, arith,
  leb, if◌then◌else◌, length, count, ◌==◌, nat_eq, list_eq, option_eq, pair_eq, ok, err, succeeded,
}
use botwork.Common.Text.{Text, bytes, parse_unsigned}
use botwork.AuthBroker.RateLimit.{
  RateLimitConfig, from_lookup, env_rate_limit_rps, try_consume, check, sweep, new,
}
use botwork.AuthBroker.RateLimit.Bounds.{IsSound}
use botwork.AuthBroker.RateLimit.Guarded.{IsGuarded}
use botwork.AuthBroker.RateLimit.Traffic.{
  Event, asks, sweeps, passes, after, reachable-IsGuarded, check_wait,
}
use botwork.AuthBroker.RateLimit.Waiting.{check-after_wait}
use botwork.AuthBroker.RateLimit.Sweeping.{answers, unswept, answers-unswept}
use botwork.AuthBroker.RateLimit.Burst.{attempts, burst_at_once}
use native.Mathlib.Nat.{mul-le-mul_right, div-le_self}
use botwork.AuthBroker.RateLimit.Doubles.{Double, second}

whole_seconds : (d k : ℕ) → k * second ≤ d → 1000 * k ≤ d / 1000000
whole_seconds d k h = omega (arith, h)

scaled :
    (d k r n : ℕ)
    → k * second ≤ d
    → n ≤ k * r
    → leb (1000 * n) (d / 1000000 * (1000 * r / 1000)) ≡ true
scaled d k r n waited enough =
    let whole : 1000 * r / 1000 ≡ r = omega arith in
    let gain = mul-le-mul_right r (whole_seconds d k waited) in ground (arith, whole, gain)

thousandths : Double
thousandths = record {
  F64 = ℕ;
  of_u32 = λ n. 1000 * n;
  as_secs = λ d. d / 1000000;
  ceil = λ x. (x + 999) / 1000;
  plus = λ x y. x + y;
  minus = λ x y. x - y;
  times = λ x y. x * (y / 1000);
  over = λ x y. x / (y / 1000);
  lower = min;
  greater = max;
  ge = λ x y. leb y x;
  ge-of_u32 = λ n m _ _. ground arith;
  plus_zero = λ n _. omega arith;
  plus_ge = λ x y n _ h. ground arith;
  minus_one = λ n _ _. omega arith;
  minus_one_ge = λ x h. ground arith;
  minus_one_le = λ x n h. ground arith;
  from_one_le = λ x h. ground arith;
  times_zero = λ r _. omega arith;
  times_ge = λ d k r n waited enough _ _. scaled d k r n waited enough;
  over_le = λ x r _ _ h. ground (arith, div-le_self x (1000 * r / 1000));
  lower_whole = λ n m _ h. ground arith;
  lower_full = λ x n _ h. ground arith;
  lower_ge = λ x n m h small _. ground (arith, small);
  lower_le = λ x n _. ground arith;
  greater_le = λ x h. ground arith;
  ceil_le = λ x h. ground arith;
}

abbrev acme : Text
acme = bytes "acme"

abbrev near : Text
near = bytes "10.0.0.1"

abbrev far : Text
far = bytes "10.0.0.2"

-- One token a second, and two at once.
abbrev slow : RateLimitConfig
slow = record { rate_per_second = 1; burst = 2; disabled = false }

slow-IsSound : IsSound slow
slow-IsSound = ground arith

abbrev two : List Event
two = asks acme near ∷ asks acme near ∷ []

abbrev long_pause : List Event
long_pause = asks acme near ∷ passes (400 * second) ∷ sweeps ∷ asks acme near ∷ []

abbrev environment : Text → Option Text
environment key = if key == env_rate_limit_rps then some (bytes "+5") else some (bytes "0")

runs : Unit {0}
unfolding from_lookup try_consume check sweep after answers thousandths parse_unsigned
runs = tt

-- The rate is read, and a burst of zero is ignored.
from_lookup_runs :
    from_lookup environment ≡ record { rate_per_second = 5; burst = 20; disabled = false }
unfolding runs
from_lookup_runs = refl

check_runs :
    answers thousandths (attempts 3 acme near) (0, new thousandths slow)
    ≡ ok tt ∷ ok tt ∷ err 1 ∷ []
unfolding runs
check_runs = refl

sweep_runs : length (after thousandths long_pause (0, new thousandths slow)).1.buckets ≡ 1
unfolding runs
sweep_runs = refl

reachable-IsGuarded_example :
    IsGuarded thousandths (after thousandths long_pause (7, new thousandths slow)).1
reachable-IsGuarded_example = reachable-IsGuarded thousandths slow long_pause 7 slow-IsSound

refused :
    (check thousandths
      (after thousandths two (0, new thousandths slow)).1
      acme
      near
      (after thousandths two (0, new thousandths slow)).0).0
    ≡ err 1
unfolding runs
refused = refl

check_wait_example : ◌≡◌ {A = ℕ} 1 1
check_wait_example = check_wait thousandths slow two 0 acme near 1 slow-IsSound refused

waited :
    (after thousandths two (0, new thousandths slow)).0 + second
    ≤ (after thousandths
        (asks acme far ∷ passes second ∷ [])
        (after thousandths two (0, new thousandths slow))).0
unfolding runs
waited = omega arith

check-after_wait_example :
    (check thousandths
      (after thousandths
        (asks acme far ∷ passes second ∷ [])
        (after thousandths two (0, new thousandths slow))).1
      acme
      near
      (after thousandths
        (asks acme far ∷ passes second ∷ [])
        (after thousandths two (0, new thousandths slow))).0).0
    ≡ ok tt
check-after_wait_example =
    check-after_wait thousandths slow two (asks acme far ∷ passes second ∷ []) 0 acme near
      slow-IsSound refl waited

answers-unswept_example :
    answers thousandths long_pause (0, new thousandths slow)
    ≡ answers thousandths (unswept long_pause) (0, new thousandths slow)
answers-unswept_example = answers-unswept thousandths slow long_pause 0 slow-IsSound (omega arith)

burst_at_once_example :
    count succeeded (answers thousandths (attempts 3 acme near) (9, new thousandths slow)) ≡ min 3 2
burst_at_once_example =
    burst_at_once thousandths (new thousandths slow) 3 9 acme near slow-IsSound refl refl
