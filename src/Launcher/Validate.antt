-- ===== src/Launcher/Validate.antt =====
-- launcher/src/validate.rs: what the launcher accepts from a caller. The image allow-list is a
-- regular expression of the operator, so its test is a parameter; the other patterns are fixed and
-- written out as tests on bytes.
mod Normal
pub mod Confinement
pub mod Names
mod Tests
use botwork.Common.{
  ℕ, Bool, false, not, ◌&&◌, ◌||◌, Option, none, some, List, [], ◌∷◌, ◌++◌, ltb, leb, eqb,
  if◌then◌else◌, length, is_empty, all, any, ◌==◌, nat_eq, list_eq, option_eq, Result, ok, err,
}
use botwork.Common.Text.{
  Text, bytes, is_lower, is_upper, is_digit, is_alphanumeric, starts_with, strip_prefix, split,
  join,
}

pub record Validators : Type 0 where
  pub image_re : Text → Bool
  pub staging_base : Text
  pub agents_base : Text

abbrev pub tenants : Text
tenants = bytes "/var/lib/botwork/tenants"

-- `Validators::new`
abbrev pub new : (Text → Bool) → Validators
new image_re = record { image_re = image_re; staging_base = tenants; agents_base = tenants }

pub data LauncherError : Type 0 where
  bad_request : Text → LauncherError

-- `[a-z][a-z0-9-]{0,30}`
abbrev pub is_tenant_byte : ℕ → Bool
is_tenant_byte c = is_lower c || (is_digit c || eqb c b'-')

abbrev pub tenant_re : Text → Bool
tenant_re [] = false
tenant_re (c ∷ s) = is_lower c && (leb (length s) 30 && all is_tenant_byte s)

-- `[a-f0-9]{12}`
abbrev pub is_hex : ℕ → Bool
is_hex c = (leb b'a' c && leb c b'f') || is_digit c

abbrev pub is_token : Text → Bool
is_token s = eqb (length s) 12 && all is_hex s

-- `[A-Za-z0-9_-]{1,64}`
abbrev pub is_agent_byte : ℕ → Bool
is_agent_byte c = is_alphanumeric c || (eqb c b'_' || eqb c b'-')

abbrev pub is_agent : Text → Bool
is_agent s = leb 1 (length s) && (leb (length s) 64 && all is_agent_byte s)

-- `^mcp_session_[a-f0-9]{12}$`
abbrev pub valid_name : Text → Bool
valid_name value = elim (strip_prefix (bytes "mcp_session_") value) [
  | none ↦ false
  | some token ↦ is_token token
]

-- `^[a-z0-9_-]+$`
abbrev pub valid_network : Text → Bool
valid_network value =
    not (is_empty value)
    && all (λ c. is_lower c || (is_digit c || (eqb c b'_' || eqb c b'-'))) value

abbrev pub valid_image : Validators → Text → Bool
valid_image v value = v.image_re value

-- The segments below a base: none of the patterns matches a slash.
pub below : Text → Text → Option (List Text)
unfolding split
below base value = elim (strip_prefix (base ++ b'/' ∷ []) value) [
  | none ↦ none
  | some rest ↦ some (split b'/' rest)
]

-- `^{base}/{tenant}/staging/[a-f0-9]{12}$`
abbrev pub is_staging : Option (List Text) → Bool
is_staging (some (t ∷ word ∷ token ∷ [])) =
    tenant_re t && (word == bytes "staging" && is_token token)
is_staging _ = false

pub valid_staging_path : Validators → Text → Bool
valid_staging_path v value = is_staging (below v.staging_base value)

-- `^{base}/{tenant}/workspaces/{tenant}/agents/[A-Za-z0-9_-]{1,64}$`
abbrev pub is_agent_dir : Option (List Text) → Bool
is_agent_dir (some (t ∷ word ∷ w ∷ word' ∷ agent ∷ [])) =
    tenant_re t
    && (word == bytes "workspaces" && (tenant_re w && (word' == bytes "agents" && is_agent agent)))
is_agent_dir _ = false

pub valid_agent_dir : Validators → Text → Bool
valid_agent_dir v value = is_agent_dir (below v.agents_base value)

pub is_sensitive_env : Text → Bool
is_sensitive_env name = starts_with (bytes "BOTWORK_SECRET_") name

abbrev pub is_label_suffix : Text → Bool
is_label_suffix [] = false
is_label_suffix (c ∷ s) =
    is_lower c && all (λ b. is_lower b || (is_digit b || (eqb b b'_' || eqb b b'-'))) s

pub valid_label_name : Text → Bool
valid_label_name name =
    if ltb 128 (length name) then false else elim (strip_prefix (bytes "io.botworkz.") name) [
      | none ↦ false
      | some suffix ↦ is_label_suffix suffix
    ]

abbrev pub reserved_env_names : List Text
reserved_env_names = bytes "PATH" ∷ bytes "LD_PRELOAD" ∷ bytes "LD_LIBRARY_PATH" ∷ []

pub valid_env_name : Text → Bool
valid_env_name [] = false
valid_env_name (first ∷ s) =
    let name = first ∷ s in
    if not (is_upper first || eqb first b'_')
    then false
    else if any (λ byte. not (is_upper byte || (is_digit byte || eqb byte b'_'))) s
    then false
    else if any (λ r. r == name) reserved_env_names
    then false
    else not (starts_with (bytes "DOCKER_") name)

-- `Path::components` on the segments after the root, with the last one pushed first: empty
-- segments and `.` are no components, `..` pops.
abbrev pub pop : List Text → List Text
pop [] = []
pop (part ∷ stack) = stack

abbrev pub component : List Text → Text → List Text
component stack segment =
    if is_empty segment || segment == bytes "."
    then stack
    else if segment == bytes ".."
    then pop stack
    else segment ∷ stack

abbrev pub components : List Text → List Text → List Text
components stack [] = stack
components stack (segment ∷ segments) = components (component stack segment) segments

abbrev pub reversed : List Text → List Text → List Text
reversed [] done = done
reversed (part ∷ stack) done = reversed stack (part ∷ done)

pub pushed : Text → Text
unfolding split
pushed path = join b'/' (reversed (components [] (split b'/' path)) [])

pub normalize_path : Text → Text
normalize_path [] = []
normalize_path (c ∷ path) = if eqb c b'/' then b'/' ∷ pushed path else pushed (c ∷ path)

abbrev pub safe_path : Bool → Text → Text → Text → Result LauncherError Text
safe_path valid base message value =
    if not valid
    then err (bad_request message)
    else let safe = normalize_path value in
      if not (starts_with (base ++ b'/' ∷ []) safe) then err (bad_request message) else ok safe

pub safe_staging_path : Validators → Text → Result LauncherError Text
unfolding valid_staging_path normalize_path
safe_staging_path v value =
    safe_path (valid_staging_path v value) v.staging_base (bytes "invalid staging_path") value

pub safe_agent_dir : Validators → Text → Result LauncherError Text
unfolding valid_agent_dir normalize_path
safe_agent_dir v value =
    safe_path (valid_agent_dir v value) v.agents_base (bytes "invalid agent_dir") value
