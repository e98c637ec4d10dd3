-- ===== src/Common/Text.antt =====
-- Texts as their UTF-8 bytes. The program's patterns and separators are ASCII, so its tests on
-- characters are tests on bytes.
use Prim.Native.Nat.{ℕ, zero, suc, ◌+◌, ◌-◌, ◌*◌, ◌/◌, ◌%◌, ◌<◌}
use Prim.Native.Char.{code}
use Prim.Native.String.{String}
use mathlib.Core.Path.{◌≡◌, refl}
use mathlib.Core.Bool.{Bool, true, false, not, ◌&&◌, ◌||◌}
use mathlib.Core.Option.{Option, none, some}
use mathlib.Core.List.{List, [], ◌∷◌, ◌++◌}
use botwork.Common.Tests.{ltb, leb, eqb, eqb_iff, Bool-cases, if◌then◌else◌}
use botwork.Common.Classes.{◌==◌, nat_eq, list_eq, list_beq_iff}
use botwork.Common.Lists.{length, all, is_empty}
use mathlib.Core.Logic.{◌↔◌, ◌≢◌, inl, inr}
use native.Mathlib.Omega.{arith}

abbrev pub Text : Type 0
Text = List ℕ

pub text_iff : (s t : Text) → ((s == t) ≡ true) ↔ (s ≡ t)
text_iff s t = list_beq_iff s t

pub text_differs : (s t : Text) → (s == t) ≡ false → s ≢ t
text_differs s t h e = ground (arith, text_iff s t)

-- The bytes of an ASCII literal.
abbrev pub bytes : String → Text
bytes String.[] = []
bytes (String.◌∷◌ c s) = code c ∷ bytes s

abbrev pub is_lower : ℕ → Bool
is_lower c = leb b'a' c && leb c b'z'

abbrev pub is_upper : ℕ → Bool
is_upper c = leb b'A' c && leb c b'Z'

abbrev pub is_digit : ℕ → Bool
is_digit c = leb b'0' c && leb c b'9'

abbrev pub is_alphanumeric : ℕ → Bool
is_alphanumeric c = is_lower c || (is_upper c || is_digit c)

-- `str::to_ascii_lowercase`
abbrev pub to_ascii_lowercase : Text → Text
to_ascii_lowercase [] = []
to_ascii_lowercase (c ∷ s) = (if is_upper c then c + 32 else c) ∷ to_ascii_lowercase s

-- `str::to_ascii_uppercase`
abbrev pub to_ascii_uppercase : Text → Text
to_ascii_uppercase [] = []
to_ascii_uppercase (c ∷ s) = (if is_lower c then c - 32 else c) ∷ to_ascii_uppercase s

-- `str::strip_prefix`
abbrev pub strip_prefix : Text → Text → Option Text
strip_prefix [] s = some s
strip_prefix (p ∷ ps) [] = none
strip_prefix (p ∷ ps) (c ∷ s) = if eqb p c then strip_prefix ps s else none

-- `str::starts_with`
abbrev pub starts_with : Text → Text → Bool
starts_with [] s = true
starts_with (p ∷ ps) [] = false
starts_with (p ∷ ps) (c ∷ s) = eqb p c && starts_with ps s

-- `char::is_whitespace` on ASCII
abbrev pub is_whitespace : ℕ → Bool
is_whitespace c = eqb c 32 || (leb 9 c && leb c 13)

abbrev trim_start : Text → Text
trim_start [] = []
trim_start (c ∷ s) = if is_whitespace c then trim_start s else c ∷ s

abbrev trim_end : Text → Text
trim_end [] = []
trim_end (c ∷ s) =
    let rest = trim_end s in if is_empty rest && is_whitespace c then [] else c ∷ rest

-- `str::trim`
abbrev pub trim : Text → Text
trim s = trim_end (trim_start s)

-- One step of a split: a byte joins the first piece, a separator opens a new one.
abbrev pub split_step : ℕ → ℕ → List Text → List Text
split_step sep c [] = []
split_step sep c (piece ∷ pieces) = if eqb c sep then [] ∷ piece ∷ pieces else (c ∷ piece) ∷ pieces

-- `str::split` at one byte: there is always one piece more than there are separators.
unfoldable pub split : ℕ → Text → List Text
split sep [] = [] ∷ []
split sep (c ∷ s) = split_step sep c (split sep s)

-- A split has a first piece.
pub split-pieces :
    (sep : ℕ) (s : Text) → (piece : Text) × (pieces : List Text) × (split sep s ≡ piece ∷ pieces)
unfolding split
split-pieces sep [] = ([], [], refl)
split-pieces sep (c ∷ s) =
    let (piece, pieces, h) = split-pieces sep s in
    elim (Bool-cases (eqb c sep)) [
      | inl e ↦ ([], piece ∷ pieces, ground (arith, h, e))
      | inr e ↦ (c ∷ piece, pieces, ground (arith, h, e))
    ]

-- A text without the separator is one piece.
abbrev pub is_piece : ℕ → Text → Bool
is_piece sep s = all (λ c. not (eqb c sep)) s

pub split-append :
    (sep : ℕ) (s rest : Text)
    → is_piece sep s ≡ true
    → split sep (s ++ sep ∷ rest) ≡ s ∷ split sep rest
unfolding split
split-append sep [] rest h = let (piece, pieces, e) = split-pieces sep rest in ground (arith, e)
split-append sep (c ∷ s) rest h = ground (arith, split-append sep s rest)

pub split_whole : (sep : ℕ) (s : Text) → is_piece sep s ≡ true → split sep s ≡ s ∷ []
unfolding split
split_whole sep [] h = refl
split_whole sep (c ∷ s) h = ground (arith, split_whole sep s)

-- The pieces with the separator between them.
abbrev pub join : ℕ → List Text → Text
join sep [] = []
join sep (piece ∷ []) = piece
join sep (piece ∷ next ∷ pieces) = piece ++ sep ∷ join sep (next ∷ pieces)

join-split_step :
    (sep c : ℕ) (piece : Text) (pieces : List Text)
    → join sep (split_step sep c (piece ∷ pieces)) ≡ c ∷ join sep (piece ∷ pieces)
join-split_step sep c piece [] = ground (arith, eqb_iff c sep)
join-split_step sep c piece (next ∷ pieces) = ground (arith, eqb_iff c sep)

pub join-split : (sep : ℕ) (s : Text) → join sep (split sep s) ≡ s
unfolding split
join-split sep [] = refl
join-split sep (c ∷ s) =
    let (piece, pieces, e) = split-pieces sep s in
    let again = join-split sep s in ground (arith, e, again, join-split_step sep c piece pieces)

pub strip_prefix-some : (p s rest : Text) → strip_prefix p s ≡ some rest → s ≡ p ++ rest
strip_prefix-some [] s rest h = ground arith
strip_prefix-some (c ∷ p) [] rest h = cc
strip_prefix-some (c ∷ p) (d ∷ s) rest h = ground (arith, strip_prefix-some p s rest, eqb_iff c d)

-- `str::trim_start_matches` with a text that is not empty: at most `length s` prefixes come off.
pub trim_from : ℕ → Text → Text → Text
trim_from zero p s = s
trim_from (suc fuel) p s = elim (strip_prefix p s) [ none ↦ s | some rest ↦ trim_from fuel p rest ]

unfoldable pub trim_start_matches : Text → Text → Text
unfolding trim_from
trim_start_matches p s = trim_from (length s) p s

-- `split` followed by a filter that drops the empty pieces.
abbrev pub non_empty : List Text → List Text
non_empty [] = []
non_empty ([] ∷ pieces) = non_empty pieces
non_empty ((c ∷ s) ∷ pieces) = (c ∷ s) ∷ non_empty pieces

-- The decimal digits of a number below 10 ^ fuel, most significant first.
pub decimal_from : ℕ → ℕ → Text
decimal_from zero n = []
decimal_from (suc fuel) n =
    let front = decimal_from fuel (n / 10) in
    if ltb n 10 then (n + b'0') ∷ [] else front ++ (n % 10 + b'0') ∷ []

-- `u64` has at most twenty digits.
unfoldable pub decimal : ℕ → Text
unfolding decimal_from
decimal n = decimal_from 20 n

decimal_runs : decimal 8443 ≡ bytes "8443"
unfolding decimal
decimal_runs = refl

split_runs : split b'/' (bytes "a//b") ≡ bytes "a" ∷ [] ∷ bytes "b" ∷ []
unfolding split
split_runs = refl

-- The value of a text of digits, most significant first.
abbrev pub digits_value : ℕ → Text → Option ℕ
digits_value n [] = some n
digits_value n (c ∷ s) =
    let rest = digits_value (n * 10 + (c - b'0')) s in if is_digit c then rest else none

-- The number must fit.
abbrev pub within : ℕ → Option ℕ → Option ℕ
within bound none = none
within bound (some n) = if ltb n bound then some n else none

abbrev pub unsigned_digits : ℕ → Text → Option ℕ
unsigned_digits bound [] = none
unsigned_digits bound (c ∷ s) = within bound (digits_value 0 (c ∷ s))

-- `str::parse` into an unsigned integer below a bound: one `+` may stand in front of the digits.
unfoldable pub parse_unsigned : ℕ → Text → Option ℕ
parse_unsigned bound [] = none
parse_unsigned bound (c ∷ s) =
    if eqb c b'+' then unsigned_digits bound s else unsigned_digits bound (c ∷ s)

within_bound : (bound : ℕ) (o : Option ℕ) {n : ℕ} → within bound o ≡ some n → n < bound
within_bound bound none h = cc
within_bound bound (some m) h = ground arith

unsigned_digits_bound :
    (bound : ℕ) (s : Text) {n : ℕ} → unsigned_digits bound s ≡ some n → n < bound
unsigned_digits_bound bound [] h = cc
unsigned_digits_bound bound (c ∷ s) h = within_bound bound (digits_value 0 (c ∷ s)) h

pub parse_unsigned_bound :
    (bound : ℕ) (s : Text) {n : ℕ} → parse_unsigned bound s ≡ some n → n < bound
unfolding parse_unsigned
parse_unsigned_bound bound [] h = cc
parse_unsigned_bound bound (c ∷ s) h =
    ground (arith, unsigned_digits_bound bound s, unsigned_digits_bound bound (c ∷ s))
