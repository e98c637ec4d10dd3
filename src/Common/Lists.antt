-- ===== src/Common/Lists.antt =====
-- Lists measured by native numbers, and predicates on their elements.
use Prim.Native.Nat.{ℕ, suc, ◌+◌, ◌<◌}
use mathlib.Core.Path.{◌≡◌, refl}
use mathlib.Core.Bool.{Bool, true, false, not, ◌&&◌, ◌||◌}
use mathlib.Core.List.{List, [], ◌∷◌, ◌++◌, map}
use native.Mathlib.Omega.{arith}
use botwork.Common.Tests.{if◌then◌else◌}

module _ {ℓ} {A : Type ℓ} where
  abbrev pub length : List A → ℕ
  length [] = 0
  length (x ∷ xs) = suc (length xs)

  abbrev pub is_empty : List A → Bool
  is_empty [] = true
  is_empty (x ∷ xs) = false

  abbrev pub all : (A → Bool) → List A → Bool
  all p [] = true
  all p (x ∷ xs) = p x && all p xs

  abbrev pub any : (A → Bool) → List A → Bool
  any p [] = false
  any p (x ∷ xs) = p x || any p xs

  abbrev pub filter : (A → Bool) → List A → List A
  filter p [] = []
  filter p (x ∷ xs) = let rest = filter p xs in if p x then x ∷ rest else rest

  -- How many elements pass a test.
  abbrev pub count : (A → Bool) → List A → ℕ
  count p [] = 0
  count p (x ∷ xs) = let rest = count p xs in if p x then suc rest else rest

  pub length-append : (xs ys : List A) → length (xs ++ ys) ≡ length xs + length ys
  length-append [] ys = omega arith
  length-append (x ∷ xs) ys = omega (arith, length-append xs ys)

-- A change that makes no element pass a test keeps a list free of such elements.
pub any-map-false :
    {A : Type 0} (q : A → Bool) (g : A → A) (rs : List A)
    → ((r : A) → q r ≡ false → q (g r) ≡ false)
    → any q rs ≡ false
    → any q (map g rs) ≡ false
any-map-false q g [] keeps h = refl
any-map-false q g (r ∷ rs) keeps h = ground (arith, keeps r, any-map-false q g rs keeps)

-- If an element passes two tests, and another one only the first of them, two pass the first.
some_pass :
    {A : Type 0} (p a : A → Bool) (rs : List A) → any (λ r. p r && a r) rs ≡ true → 0 < count p rs
some_pass p a [] h = cc
some_pass p a (r ∷ rs) h = ground (arith, some_pass p a rs)

pub any_of_both :
    {A : Type 0} (p a : A → Bool) (rs : List A)
    → any (λ r. p r && a r) rs ≡ true
    → any (λ r. p r && not (a r)) rs ≡ true
    → 1 < count p rs
any_of_both p a [] h g = cc
any_of_both p a (r ∷ rs) h g =
    ground (arith, any_of_both p a rs, some_pass p a rs, some_pass p (λ s. not (a s)) rs)

module _ {ℓ κ} {A : Type ℓ} where
  abbrev pub All : (A → Type κ) → List A → Type κ
  All P [] = Unit
  All P (x ∷ xs) = P x × All P xs
