-- ===== src/SessionBroker/Routes.antt =====
-- session-broker/src/ext_proc.rs, the part without state: request paths, headers, and the changes to
-- the headers that route a request. Texts are bytes; `from_utf8_lossy` is a parameter. Header names
-- and content types are ASCII.
pub mod Paths
mod Tests
use botwork.Common.{
  ℕ, Bool, true, false, not, ◌&&◌, ◌||◌, Option, none, some, List, [], ◌∷◌, ◌++◌, leb, eqb,
  if◌then◌else◌, length, is_empty, all, any, ◌==◌, nat_eq, list_eq, option_eq, pair_eq,
}
use botwork.Common.Text.{
  trim, Text, bytes, is_lower, is_digit, starts_with, to_ascii_lowercase, decimal,
}
use botwork.Common.Map
use botwork.Common.Map.{Map}

-- `[a-z][a-z0-9-]{0,30}`: TENANT_RE, WORKSPACE_RE and each part of the path.
abbrev pub is_part_byte : ℕ → Bool
is_part_byte c = is_lower c || (is_digit c || eqb c b'-')

abbrev pub is_part : Text → Bool
is_part [] = false
is_part (c ∷ s) = is_lower c && (all is_part_byte s && leb (length s) 30)

-- Up to the first byte of a kind, which the second half starts with.
unfoldable pub span : ℕ → Text → Text × Text
span stop [] = ([], [])
span stop (c ∷ s) =
    let (front, rest) = span stop s in if eqb c stop then ([], c ∷ s) else (c ∷ front, rest)

abbrev pub split_path_and_query : Text → Text × Text
split_path_and_query path = span b'?' path

-- One part of the path, with what follows it.
abbrev pub part : Text → Option (Text × Text)
part [] = none
part (c ∷ s) =
    let (name, rest) = span b'/' s in if eqb c b'/' && is_part name then some (name, rest) else none

abbrev pub remainder : Text → Option Text
remainder rest = if any (λ c. eqb c 10) rest then none else some rest

pub record Captures : Type 0 where
  pub tenant : Text
  pub workspace : Text
  pub plugin : Text
  pub rest : Text

abbrev pub capture_rest : Text → Text → Text → Option Text → Option Captures
capture_rest tenant workspace plugin none = none
capture_rest tenant workspace plugin (some rest) =
    some (record { tenant = tenant; workspace = workspace; plugin = plugin; rest = rest })

abbrev pub capture_plugin : Text → Text → Option (Text × Text) → Option Captures
capture_plugin tenant workspace none = none
capture_plugin tenant workspace (some (plugin, rest)) =
    capture_rest tenant workspace plugin (remainder rest)

abbrev pub capture_workspace : Text → Option (Text × Text) → Option Captures
capture_workspace tenant none = none
capture_workspace tenant (some (workspace, rest)) = capture_plugin tenant workspace (part rest)

abbrev pub capture_tenant : Option (Text × Text) → Option Captures
capture_tenant none = none
capture_tenant (some (tenant, rest)) = capture_workspace tenant (part rest)

-- TENANT_WORKSPACE_PLUGIN_PATH_RE. What follows the plugin is empty or starts with a slash, and `.`
-- does not match a newline.
unfoldable pub captures : Text → Option Captures
unfolding span
captures base = capture_tenant (part base)

abbrev pub names_of : Option Captures → Option (Text × Text × Text)
names_of none = none
names_of (some c) = some (c.tenant, c.workspace, c.plugin)

unfoldable pub parse_tenant_workspace_plugin : Text → Option (Text × Text × Text)
unfolding captures span
parse_tenant_workspace_plugin path =
    let (base_path, _) = split_path_and_query path in names_of (captures base_path)

abbrev pub body_of : Text → Text → Text
body_of plugin_path rest =
    let prefix = if plugin_path == bytes "/" then [] else plugin_path in
    if is_empty (prefix ++ rest) then bytes "/" else prefix ++ rest

abbrev pub rewritten : Text → Text → Option Captures → Option (Text × Text × Text × Text)
rewritten plugin_path query none = none
rewritten plugin_path query (some c) =
    some (c.tenant, c.workspace, c.plugin, body_of plugin_path c.rest ++ query)

unfoldable pub parse_full_path : Text → Text → Option (Text × Text × Text × Text)
unfolding captures span
parse_full_path path plugin_path =
    let (base_path, query) = split_path_and_query path in
    rewritten plugin_path query (captures base_path)

unfoldable pub forward_path : Text → Text → Text
unfolding parse_full_path
forward_path path plugin_path = elim (parse_full_path path plugin_path) [
  | some (_, _, _, rewritten) ↦ rewritten
  | none ↦ if is_empty path then bytes "/" else path
]

pub record HeaderValue : Type 0 where
  pub key : Text
  pub value : Text
  pub raw_value : Text

abbrev pub value_of : (Text → Text) → HeaderValue → Text
value_of from_utf8_lossy header =
    if not (is_empty header.value) then header.value else from_utf8_lossy header.raw_value

-- A later header of the same name replaces an earlier one.
abbrev pub extract_from : (Text → Text) → List HeaderValue → Map Text Text → Map Text Text
extract_from from_utf8_lossy [] extracted = extracted
extract_from from_utf8_lossy (header ∷ headers) extracted =
    extract_from from_utf8_lossy headers
      (Map.insert (to_ascii_lowercase header.key) (value_of from_utf8_lossy header) extracted)

unfoldable pub extract_headers : (Text → Text) → List HeaderValue → Map Text Text
extract_headers from_utf8_lossy headers = extract_from from_utf8_lossy headers []

unfoldable pub content_type_is_json : Text → Text → Bool
content_type_is_json method content_type =
    if method == bytes "GET"
    then true
    else starts_with (bytes "application/json") (to_ascii_lowercase (trim content_type))

unfoldable pub staging_path : Text → Text → Text
staging_path tenant_name token =
    bytes "/var/lib/botwork/tenants/" ++ tenant_name ++ bytes "/staging/" ++ token

unfoldable pub upstream : Text → ℕ → Text
unfolding decimal
upstream container_name port = container_name ++ bytes ":" ++ decimal port

pub data UpstreamAuth : Type 0 where
  no_auth : UpstreamAuth
  bearer : Text → UpstreamAuth

-- The value to set, and whether the client's own header goes.
unfoldable pub route_authorization_for_transport : UpstreamAuth → Option Text → Option Text × Bool
route_authorization_for_transport (bearer service) (some value) = (some value, false)
route_authorization_for_transport no_auth value = (none, true)
route_authorization_for_transport (bearer service) none = (none, true)

-- Every header is set under `OverwriteIfExistsOrAdd`.
pub record HeaderMutation : Type 0 where
  pub set_headers : List (Text × Text)
  pub remove_headers : List Text

abbrev pub set_path : Option Text → List (Text × Text)
set_path none = []
set_path (some path) = (bytes ":path", path) ∷ []

abbrev pub set_authorization : Option Text → List (Text × Text)
set_authorization none = []
set_authorization (some value) = (bytes "authorization", bytes "Bearer " ++ value) ∷ []

unfoldable pub upstream_header_mutation : Text → Option Text → Option Text → Bool → HeaderMutation
upstream_header_mutation upstream_name rewritten_path upstream_authorization strip_authorization =
    record {
      set_headers =
          (bytes "x-session-upstream", upstream_name) ∷ set_path rewritten_path
          ++ set_authorization upstream_authorization;
      remove_headers =
          bytes "x-botwork-cap" ∷ (if strip_authorization then bytes "authorization" ∷ [] else []);
    }
