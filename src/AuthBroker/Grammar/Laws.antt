-- ===== src/AuthBroker/Grammar/Laws.antt =====
-- The letter case of a name makes no difference to its check (auth-broker/src/grammar.rs).
use botwork.Common.{
  ℕ, ◌+◌, ◌≡◌, refl, Bool, [], ◌∷◌, arith, if◌then◌else◌, length, all, nat_eq, list_eq, option_eq,
}
use botwork.Common.Text.{Text, is_upper, to_ascii_lowercase}
use botwork.AuthBroker.Grammar.{is_name_byte, name_re, normalise_name, is_reserved, validate_name}

length-lowercase : (s : Text) → length (to_ascii_lowercase s) ≡ length s
length-lowercase [] = refl
length-lowercase (c ∷ s) = omega (arith, length-lowercase s)

lower_name_byte : (c : ℕ) → is_name_byte (if is_upper c then c + 32 else c) ≡ is_name_byte c
lower_name_byte c = ground arith

all-lowercase : (s : Text) → all is_name_byte (to_ascii_lowercase s) ≡ all is_name_byte s
all-lowercase [] = refl
all-lowercase (c ∷ s) = ground (arith, lower_name_byte c, all-lowercase s)

lowercase_twice : (s : Text) → to_ascii_lowercase (to_ascii_lowercase s) ≡ to_ascii_lowercase s
lowercase_twice [] = refl
lowercase_twice (c ∷ s) = ground (arith, lowercase_twice s)

name_re-normalise : (name : Text) → name_re (normalise_name name) ≡ name_re name
unfolding name_re
name_re-normalise name = ground (arith, length-lowercase name, all-lowercase name)

is_reserved-normalise : (name : Text) → is_reserved (normalise_name name) ≡ is_reserved name
is_reserved-normalise name = rw (lowercase_twice name) refl

-- A name and its lower-case form get the same answer, reserved names included: a reserved name
-- cannot be taken by writing it in capitals.
pub validate_name-normalise :
    (name : Text) (checks_reserved : Bool)
    → validate_name (normalise_name name) checks_reserved ≡ validate_name name checks_reserved
unfolding validate_name
validate_name-normalise name checks_reserved =
    rw (name_re-normalise name, is_reserved-normalise name) refl
