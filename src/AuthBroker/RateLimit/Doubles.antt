-- ===== src/AuthBroker/RateLimit/Doubles.antt =====
-- `f64` as the rate limiter uses it: an interface, with the laws of IEEE 754 on whole numbers below
-- 2 ^ 32 and on comparisons with them. A comparison that holds rules out NaN; rounding is monotone,
-- and exact on those whole numbers.
use botwork.Common.{
  ℕ, ◌-◌, ◌*◌, ◌^◌, ◌≤◌, ◌<◌, ◌≡◌, Bool, true, leb, nat_eq, list_eq, option_eq, pair_eq,
}

-- A duration or an instant is a number of nanoseconds.
abbrev pub second : ℕ
second = 1000000000

abbrev pub u32_mod : ℕ
u32_mod = 2 ^ 32

pub record Double : Type 1 where
  pub F64 : Type 0
  -- `as f64`, `Duration::as_secs_f64` and `.ceil() as u64`
  pub of_u32 : ℕ → F64
  pub as_secs : ℕ → F64
  pub ceil : F64 → ℕ
  -- `+`, `-`, `*`, `/`, `f64::min` and `f64::max`
  pub plus : F64 → F64 → F64
  pub minus : F64 → F64 → F64
  pub times : F64 → F64 → F64
  pub over : F64 → F64 → F64
  pub lower : F64 → F64 → F64
  pub greater : F64 → F64 → F64
  -- `>=`
  pub ge : F64 → F64 → Bool
  pub ge-of_u32 : (n m : ℕ) → n < u32_mod → m < u32_mod → ge (of_u32 n) (of_u32 m) ≡ leb m n
  pub plus_zero : (n : ℕ) → n < u32_mod → plus (of_u32 n) (of_u32 0) ≡ of_u32 n
  pub plus_ge :
      (x y : F64) (n : ℕ)
      → ge x (of_u32 0) ≡ true
      → ge y (of_u32 n) ≡ true
      → ge (plus x y) (of_u32 n) ≡ true
  pub minus_one : (n : ℕ) → n < u32_mod → 0 < n → minus (of_u32 n) (of_u32 1) ≡ of_u32 (n - 1)
  pub minus_one_ge : (x : F64) → ge x (of_u32 1) ≡ true → ge (minus x (of_u32 1)) (of_u32 0) ≡ true
  pub minus_one_le :
      (x : F64) (n : ℕ) → ge (of_u32 n) x ≡ true → ge (of_u32 n) (minus x (of_u32 1)) ≡ true
  pub from_one_le : (x : F64) → ge x (of_u32 0) ≡ true → ge (of_u32 1) (minus (of_u32 1) x) ≡ true
  pub times_zero : (r : ℕ) → r < u32_mod → times (as_secs 0) (of_u32 r) ≡ of_u32 0
  -- In `k` whole seconds the product is at least `k * r`.
  pub times_ge :
      (d k r n : ℕ)
      → k * second ≤ d
      → n ≤ k * r
      → n < u32_mod
      → r < u32_mod
      → ge (times (as_secs d) (of_u32 r)) (of_u32 n) ≡ true
  pub over_le :
      (x : F64) (r : ℕ)
      → 0 < r
      → r < u32_mod
      → ge (of_u32 1) x ≡ true
      → ge (of_u32 1) (over x (of_u32 r)) ≡ true
  pub lower_whole : (n m : ℕ) → m < u32_mod → n ≤ m → lower (of_u32 n) (of_u32 m) ≡ of_u32 n
  pub lower_full :
      (x : F64) (n : ℕ) → 0 < n → ge x (of_u32 n) ≡ true → lower x (of_u32 n) ≡ of_u32 n
  pub lower_ge :
      (x : F64) (n m : ℕ)
      → ge x (of_u32 n) ≡ true
      → n ≤ m
      → m < u32_mod
      → ge (lower x (of_u32 m)) (of_u32 n) ≡ true
  pub lower_le : (x : F64) (n : ℕ) → n < u32_mod → ge (of_u32 n) (lower x (of_u32 n)) ≡ true
  pub greater_le : (x : F64) → ge (of_u32 1) x ≡ true → ge (of_u32 1) (greater x (of_u32 0)) ≡ true
  pub ceil_le : (x : F64) → ge (of_u32 1) x ≡ true → ceil x ≤ 1
