-- ===== src/AuthBroker/Grammar.antt =====
-- auth-broker/src/grammar.rs: the names of tenants, workspaces and plugins, and the paths that the
-- authorisation filter reads them from.
pub mod Laws
pub mod Paths
mod Tests
use botwork.Common.{
  ℕ, Bool, true, false, not, ◌&&◌, ◌||◌, Option, none, some, List, [], ◌∷◌, leb, eqb, if◌then◌else◌,
  length, is_empty, all, any, ◌==◌, nat_eq, list_eq, option_eq, Result, ok, err,
}
use botwork.Common.Text.{
  Text, bytes, is_alphanumeric, to_ascii_lowercase, starts_with, trim_start_matches, split,
  non_empty,
}

pub data NameError : Type 0 where
  invalid reserved : NameError

pub data ParsedPath : Type 0 where
  api_auth_login api_auth_protected : ParsedPath
  api : Option Text → ParsedPath
  spa : Text → ParsedPath
  mcp : Text → Text → Text → ParsedPath

abbrev pub reserved_tenant_names : List Text
reserved_tenant_names =
    bytes "admin" ∷ bytes "api" ∷ bytes "auth" ∷ bytes "static" ∷ bytes "stats" ∷ bytes "logs" ∷ []

-- `^[A-Za-z0-9_-]{1,63}$`
abbrev pub is_name_byte : ℕ → Bool
is_name_byte c = is_alphanumeric c || (eqb c b'_' || eqb c b'-')

unfoldable pub name_re : Text → Bool
name_re name = leb 1 (length name) && (leb (length name) 63 && all is_name_byte name)

abbrev pub normalise_name : Text → Text
normalise_name name = to_ascii_lowercase name

abbrev pub is_reserved : Text → Bool
is_reserved name =
    any (λ candidate. normalise_name candidate == normalise_name name) reserved_tenant_names

unfoldable pub validate_name : Text → Bool → Result NameError Unit
unfolding name_re
validate_name name checks_reserved =
    if not (name_re name)
    then err invalid
    else if checks_reserved && is_reserved name
    then err reserved
    else ok tt

abbrev pub validate_tenant_name : Text → Result NameError Unit
validate_tenant_name name = validate_name name true

abbrev pub validate_workspace_name : Text → Result NameError Unit
validate_workspace_name name = validate_name name false

abbrev pub validate_plugin_name : Text → Result NameError Unit
validate_plugin_name name = validate_name name false

abbrev pub is_ok : Result NameError Unit → Bool
is_ok (ok u) = true
is_ok (err e) = false

-- The segments after `api`.
abbrev pub api_tenant : List Text → Option ParsedPath
api_tenant [] = some (api none)
api_tenant (word ∷ []) = if word == bytes "tenant" then none else some (api none)
api_tenant (word ∷ tenant ∷ _) =
    if word == bytes "tenant"
    then if is_ok (validate_tenant_name tenant) then some (api (some tenant)) else none
    else some (api none)

-- `segments.next()?` takes `api` off.
abbrev pub api_path : List Text → Option ParsedPath
api_path [] = none
api_path (first ∷ segments) = api_tenant segments

abbrev pub tenant_path : List Text → Option ParsedPath
tenant_path (tenant ∷ []) = if is_ok (validate_tenant_name tenant) then some (spa tenant) else none
tenant_path (tenant ∷ namespace ∷ plugin ∷ _) =
    if is_ok (validate_tenant_name tenant)
      && (is_ok (validate_workspace_name namespace) && is_ok (validate_plugin_name plugin))
    then some (mcp tenant namespace plugin)
    else none
tenant_path [] = none
tenant_path (tenant ∷ namespace ∷ []) = none

abbrev pub segments_of : Text → List Text
segments_of path = non_empty (split b'/' path)

unfoldable pub parse_original_path : Text → Option ParsedPath
unfolding trim_start_matches split
parse_original_path path =
    if path == bytes "/api/auth/login" || starts_with (bytes "/api/auth/login/") path
    then some api_auth_login
    else if path == bytes "/api/auth"
    then none
    else if starts_with (bytes "/api/auth/") path
    then if not (is_empty (trim_start_matches (bytes "/api/auth/") path))
      then some api_auth_protected
      else none
    else if path == bytes "/api" || starts_with (bytes "/api/") path
    then api_path (segments_of path)
    else tenant_path (segments_of path)
