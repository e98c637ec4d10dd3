-- ===== src/AuthBroker/Grammar/Tests.antt =====
-- The grammar and its paths at concrete inputs.
use botwork.Common.{
  ◌≡◌, refl, true, false, none, some, nat_eq, list_eq, option_eq, pair_eq, ok, err,
}
use botwork.Common.Text.{bytes, split, trim_start_matches}
use botwork.AuthBroker.Grammar.{
  api, name_re, validate_name, validate_tenant_name, parse_original_path, reserved,
}
use botwork.AuthBroker.Grammar.Paths.{parse-NamesAreValid}

acme_is_valid : validate_name (bytes "acme") true ≡ ok tt
unfolding validate_name name_re
acme_is_valid = refl

main_is_valid : validate_name (bytes "Main_2") false ≡ ok tt
unfolding validate_name name_re
main_is_valid = refl

shell_is_valid : validate_name (bytes "shell") false ≡ ok tt
unfolding validate_name name_re
shell_is_valid = refl

reserved_in_capitals : validate_tenant_name (bytes "Admin") ≡ err reserved
unfolding validate_name name_re
reserved_in_capitals = refl

tenant_of_api : parse_original_path (bytes "/api/tenant/acme/x") ≡ some (api (some (bytes "acme")))
unfolding parse_original_path validate_name name_re split trim_start_matches
tenant_of_api = refl

parse-NamesAreValid_example : validate_tenant_name (bytes "acme") ≡ ok tt
parse-NamesAreValid_example =
    parse-NamesAreValid (bytes "/api/tenant/acme/x") (api (some (bytes "acme"))) tenant_of_api

-- `trim_start_matches` takes the prefix off again and again.
repeated_prefix : parse_original_path (bytes "/api/auth//api/auth/") ≡ none
unfolding parse_original_path trim_start_matches split
repeated_prefix = refl
