-- ===== src/SessionBroker/Secrets/Tests.antt =====
-- Two secrets whose names differ only in a byte that is not kept.
use botwork.Common.{
  ◌≤◌, String, ◌≡◌, refl, List, [], ◌∷◌, length, count, nat_eq, list_eq, option_eq, pair_eq,
}
use botwork.Common.Text.{Text, bytes}
use botwork.SessionBroker.Secrets.{FetchedSecret, sanitize_segment, push_secret, build_secret_pairs}
use botwork.SessionBroker.Secrets.Bounds.{named, build_secret_pairs_bound}

abbrev secret : String → String → FetchedSecret
secret name value = record {
  service = bytes "github.com";
  name = bytes name;
  kind = bytes "token";
  value = bytes value;
}

abbrev secrets : List FetchedSecret
secrets = secret "my-pat" "s1" ∷ secret "my.pat" "s2" ∷ secret "key" "s3" ∷ []

first_kept :
    build_secret_pairs (λ raw. raw) secrets
    ≡ (bytes "GITHUB_COM_MY_PAT", bytes "s1") ∷ (bytes "GITHUB_COM_KEY", bytes "s3") ∷ []
unfolding sanitize_segment push_secret build_secret_pairs
first_kept = refl

build_secret_pairs_bound_example :
    (length (build_secret_pairs (λ raw. raw) secrets) ≤ 64)
    × ((name : Text) → count (named name) (build_secret_pairs (λ raw. raw) secrets) ≤ 1)
build_secret_pairs_bound_example = build_secret_pairs_bound (λ raw. raw) secrets
