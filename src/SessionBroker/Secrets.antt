-- ===== src/SessionBroker/Secrets.antt =====
-- session-broker/src/secrets.rs: the secrets that auth-broker hands out for a spawn, and the pairs of
-- names and values that the launcher gets. `from_utf8_lossy` is a parameter, the log is left out.
pub mod Bounds
mod Tests
use botwork.Common.{
  ℕ, ◌*◌, Bool, ◌||◌, List, [], ◌∷◌, ◌++◌, map, ltb, leb, if◌then◌else◌, length, any, ◌==◌, nat_eq,
  list_eq, option_eq, pair_eq,
}
use botwork.Common.Text.{Text, bytes, is_lower, is_upper, is_digit, to_ascii_uppercase}

abbrev pub max_secret_entries : ℕ
max_secret_entries = 64

abbrev pub max_secret_value_bytes : ℕ
max_secret_value_bytes = 64 * 1024

pub record FetchedSecret : Type 0 where
  pub service : Text
  pub name : Text
  pub kind : Text
  pub value : Text

abbrev pub sanitize_byte : ℕ → ℕ
sanitize_byte b = if is_lower b || (is_upper b || is_digit b) then b else b'_'

-- A letter in upper case, a digit as it is, every other byte as `_`.
unfoldable pub sanitize_segment : Text → Text
sanitize_segment input = to_ascii_uppercase (map sanitize_byte input)

abbrev pub raw_name : FetchedSecret → Text
unfolding sanitize_segment
raw_name secret = sanitize_segment secret.service ++ bytes "_" ++ sanitize_segment secret.name

pub record SecretPairs : Type 0 where
  pub out : List (Text × Text)
  pub seen : List Text

abbrev pub no_pairs : SecretPairs
no_pairs = record { out = []; seen = [] }

abbrev pub is_seen : Text → List Text → Bool
is_seen name seen = any (λ other. other == name) seen

-- One turn of the loop. Once the list is full, each further turn leaves it as it is.
unfoldable pub push_secret : (Text → Text) → FetchedSecret → SecretPairs → SecretPairs
unfolding sanitize_segment
push_secret from_utf8_lossy secret pairs =
    if leb max_secret_entries (length pairs.out)
    then pairs
    else if ltb max_secret_value_bytes (length secret.value)
    then pairs
    else if is_seen (raw_name secret) pairs.seen
    then pairs
    else record {
      out = pairs.out ++ (raw_name secret, from_utf8_lossy secret.value) ∷ [];
      seen = raw_name secret ∷ pairs.seen;
    }

abbrev pub push_secrets : (Text → Text) → List FetchedSecret → SecretPairs → SecretPairs
push_secrets from_utf8_lossy [] pairs = pairs
push_secrets from_utf8_lossy (secret ∷ secrets) pairs =
    push_secrets from_utf8_lossy secrets (push_secret from_utf8_lossy secret pairs)

unfoldable pub build_secret_pairs : (Text → Text) → List FetchedSecret → List (Text × Text)
unfolding push_secret
build_secret_pairs from_utf8_lossy secrets = (push_secrets from_utf8_lossy secrets no_pairs).out
