-- ===== src/Common/Ipv4.antt =====
-- `str::parse::<Ipv4Addr>` of the standard library.
use Prim.Native.Nat.{ℕ, ◌+◌, ◌-◌, ◌*◌, ◌^◌, ◌<◌}
use mathlib.Core.Path.{◌≡◌, refl}
use mathlib.Core.Bool.{◌||◌}
use mathlib.Core.Option.{Option, none, some}
use mathlib.Core.List.{List, [], ◌∷◌}
use native.Mathlib.Omega.{arith}
use botwork.Common.Tests.{leb, eqb, if◌then◌else◌}
use botwork.Common.Lists.{length}
use botwork.Common.Options.{◌>>=◌, bind_some}
use botwork.Common.Text.{Text, bytes, is_digit, split}

-- The value of a row of digits.
digits_from : ℕ → Text → Option ℕ
digits_from n [] = some n
digits_from n (c ∷ s) =
    let rest = digits_from (n * 10 + (c - b'0')) s in if is_digit c then rest else none

-- At most 255, in one to three digits, with no leading zero.
octet_value : Text → Option ℕ
octet_value s = do n ← digits_from 0 s; if leb n 255 then some n else none

octet : Text → Option ℕ
unfolding digits_from octet_value
octet [] = none
octet (c ∷ []) = octet_value (c ∷ [])
octet (c ∷ d ∷ s) = if eqb c b'0' || leb 2 (length s) then none else octet_value (c ∷ d ∷ s)

dotted_quad : List Text → Option ℕ
unfolding octet
dotted_quad (a ∷ b ∷ c ∷ d ∷ []) = do
  a' ← octet a
  b' ← octet b
  c' ← octet c
  d' ← octet d
  some (((a' * 256 + b') * 256 + c') * 256 + d')
dotted_quad _ = none

-- `str::parse::<Ipv4Addr>`
unfoldable pub parse_ipv4 : Text → Option ℕ
unfolding dotted_quad
parse_ipv4 s = dotted_quad (split b'.' s)

parse_ipv4_runs :
    (parse_ipv4 (bytes "10.0.0.1") ≡ some 167772161)
    × (parse_ipv4 (bytes "10.0.0.256") ≡ none)
    × (parse_ipv4 (bytes "10.0.0.01") ≡ none)
    × (parse_ipv4 (bytes "10.0.0") ≡ none)
unfolding parse_ipv4 split
parse_ipv4_runs = (refl, refl, refl, refl)

octet_value-lt : (s : Text) (n : ℕ) → octet_value s ≡ some n → n < 256
unfolding octet_value
octet_value-lt s n h = ground arith

octet-lt : (s : Text) (n : ℕ) → octet s ≡ some n → n < 256
unfolding octet
octet-lt [] n h = cc
octet-lt (c ∷ []) n h = octet_value-lt (c ∷ []) n h
octet-lt (c ∷ d ∷ s) n h = ground (arith, octet_value-lt (c ∷ d ∷ s) n)

dotted_quad-lt : (pieces : List Text) (n : ℕ) → dotted_quad pieces ≡ some n → n < 2 ^ 32
unfolding dotted_quad
dotted_quad-lt (a ∷ b ∷ c ∷ d ∷ []) n h =
    let (a', ea, ha) = bind_some (octet a) _ h in
    let (b', eb, hb) = bind_some (octet b) _ ha in
    let (c', ec, hc) = bind_some (octet c) _ hb in
    let (d', ed, hd) = bind_some (octet d) _ hc in
    ground (arith, octet-lt a a' ea, octet-lt b b' eb, octet-lt c c' ec, octet-lt d d' ed, hd)
dotted_quad-lt _ n h = cc

-- An address is a number of 32 bits.
pub parse_ipv4-lt : (s : Text) (n : ℕ) → parse_ipv4 s ≡ some n → n < 2 ^ 32
unfolding parse_ipv4
parse_ipv4-lt s n h = dotted_quad-lt (split b'.' s) n h
