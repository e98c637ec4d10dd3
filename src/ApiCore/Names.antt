-- ===== src/ApiCore/Names.antt =====
-- api-core/src/names.rs: the copy of the name grammar that the API checks with.
pub mod Parity
mod Tests
use botwork.Common.{
  Bool, ◌&&◌, ◌||◌, List, [], ◌∷◌, leb, eqb, if◌then◌else◌, length, all, any, ◌==◌, nat_eq, list_eq,
  option_eq, Result, ok, err,
}
use botwork.Common.{◌>>◌}
use botwork.Common.Text.{Text, bytes, is_alphanumeric, to_ascii_lowercase}

pub data NameError : Type 0 where
  invalid reserved : NameError

-- `^[A-Za-z0-9_-]{1,63}$`
unfoldable pub name_regex : Text → Bool
name_regex name =
    leb 1 (length name)
    && (leb (length name) 63 && all (λ c. is_alphanumeric c || (eqb c b'_' || eqb c b'-')) name)

abbrev pub reserved_tenant_names : List Text
reserved_tenant_names =
    bytes "admin" ∷ bytes "api" ∷ bytes "auth" ∷ bytes "static" ∷ bytes "stats" ∷ bytes "logs" ∷ []

abbrev pub normalise_name : Text → Text
normalise_name name = to_ascii_lowercase name

abbrev pub validate_format : Text → Result NameError Unit
validate_format name = if name_regex name then ok tt else err invalid

abbrev pub validate_tenant_name : Text → Result NameError Unit
validate_tenant_name name = do
  validate_format name
  if any (λ r. r == normalise_name name) reserved_tenant_names then err reserved else ok tt

abbrev pub validate_workspace_name : Text → Result NameError Unit
validate_workspace_name name = validate_format name

abbrev pub validate_plugin_name : Text → Result NameError Unit
validate_plugin_name name = validate_format name
