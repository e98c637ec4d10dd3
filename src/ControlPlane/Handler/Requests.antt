-- ===== src/ControlPlane/Handler/Requests.antt =====
-- The checks of a `POST /sessions` body (control-plane/src/handler.rs), in the order of the source.
use botwork.Common.{
  ℕ, ◌^◌, ◌<◌, ◌≡◌, arith, Bool, true, false, not, ◌&&◌, ◌||◌, Option, none, some, [], ◌∷◌, leb,
  eqb, length, is_empty, all, nat_eq, list_eq, Result, ok, err, ◌>>=◌, ◌>>◌,
}
use botwork.Common.Text.{Text, bytes, is_lower, is_digit, strip_prefix}
use botwork.Common.Ipv4.{parse_ipv4}
use botwork.ControlPlane.Sessions.{SessionRecord}

-- `^mcp_session_[a-z0-9]+$`
unfoldable pub valid_session_id : Text → Bool
valid_session_id id = elim (strip_prefix (bytes "mcp_session_") id) [
  | none ↦ false
  | some token ↦ not (is_empty token) && all (λ c. is_lower c || is_digit c) token
]

-- `^[a-z][a-z0-9-]{0,30}$`
unfoldable pub valid_name : Text → Bool
valid_name [] = false
valid_name (c ∷ s) =
    is_lower c && (leb (length s) 30 && all (λ d. is_lower d || (is_digit d || eqb d b'-')) s)

pub data Field : Type 0 where
  session_id_field container_ip_field tenant_field workspace_field plugin_field : Field

-- Why a body is refused with 400 `invalid_request`.
pub data Invalid : Type 0 where
  no_body : Invalid
  missing malformed : Field → Invalid

pub record PostBody (Json : Type 0) : Type 0 where
  pub session_id : Option Text
  pub container_ip : Option Text
  pub tenant : Option Text
  pub workspace : Option Text
  pub plugin : Option Text
  pub egress_policy : Option Json

abbrev require : Option Text → Field → Result Invalid Text
require none f = err (missing f)
require (some t) f = ok t

abbrev guard : Bool → Field → Result Invalid Unit
guard true f = ok tt
guard false f = err (malformed f)

abbrev address : Option ℕ → Result Invalid ℕ
address none = err (malformed container_ip_field)
address (some ip) = ok ip

-- `payload.egress_policy.unwrap_or(Value::Null)`
abbrev or_null : {Json : Type 0} → Json → Option Json → Json
or_null null none = null
or_null null (some j) = j

module _ {Json : Type 0} (null : Json) where
  checked : PostBody Json → Result Invalid (SessionRecord Json)
  unfolding valid_session_id valid_name parse_ipv4
  checked p = do
    id ← require p.session_id session_id_field
    raw_ip ← require p.container_ip container_ip_field
    tenant ← require p.tenant tenant_field
    workspace ← require p.workspace workspace_field
    plugin ← require p.plugin plugin_field
    guard (valid_session_id id) session_id_field
    guard (valid_name tenant) tenant_field
    guard (valid_name workspace) workspace_field
    guard (valid_name plugin) plugin_field
    ip ← address (parse_ipv4 raw_ip)
    ok (record {
      session_id = id;
      container_ip = ip;
      tenant = tenant;
      workspace = workspace;
      plugin = plugin;
      egress_policy = or_null null p.egress_policy;
    })

  unfoldable pub validate : Option (PostBody Json) → Result Invalid (SessionRecord Json)
  unfolding checked
  validate none = err no_body
  validate (some p) = checked p

  pub egress-validate :
      (body : PostBody Json) (r : SessionRecord Json)
      → body.egress_policy ≡ none
      → validate (some body) ≡ ok r
      → r.egress_policy ≡ null
  unfolding validate checked
  egress-validate body r open_end valid = ground arith

  -- The shape that every record in the table has.
  pub record IsWellShaped (r : SessionRecord Json) : Type 0 where
    pub id_shape : valid_session_id r.session_id ≡ true
    pub tenant_shape : valid_name r.tenant ≡ true
    pub workspace_shape : valid_name r.workspace ≡ true
    pub plugin_shape : valid_name r.plugin ≡ true
    pub ip_range : r.container_ip < 2 ^ 32
