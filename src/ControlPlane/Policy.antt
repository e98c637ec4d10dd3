-- ===== src/ControlPlane/Policy.antt =====
-- control-plane/src/policy.rs: the sessions of a snapshot compiled into envoy's RBAC policies. The
-- protobuf messages around them, which are the same on every call, are left out.
pub mod Meaning
mod Tests
use botwork.Common.{
  ℕ, Option, none, some, List, [], ◌∷◌, ◌++◌, if◌then◌else◌, ◌==◌, nat_eq, list_eq, option_eq,
}
use botwork.Common.Options.{◌>>=◌}
use botwork.Common.Text.{Text, bytes, decimal}
use botwork.Common.Map
use botwork.Common.Map.{Map}
use botwork.Common.Json.{JsonApi}
use botwork.ControlPlane.Sessions.{SessionRecord}

pub data Permission : Type 0 where
  any_true : Permission
  authority : Text → Permission

-- A principal is the `direct_remote_ip` of one address (`/32`).
pub record Policy : Type 0 where
  pub permissions : List Permission
  pub principals : List ℕ

-- `"{host}:{port}"`
pub authority_of : Text → ℕ → Text
unfolding decimal
authority_of host port = host ++ b':' ∷ decimal port

authority_header_match : Text → ℕ → Permission
authority_header_match host port = authority (authority_of host port)

abbrev policy_name : Text → Text
policy_name id = bytes "session_" ++ id

module _ (api : JsonApi) where
  open api use {Json, as_str, as_u64, as_array, get}

  pub egress_mode : Json → Option Text
  egress_mode egress = elim (as_str egress) [
    | some s ↦ some s
    | none ↦ do v ← get (bytes "mode") egress; as_str v
  ]

  port_permissions : Text → List Json → List Permission
  unfolding authority_header_match
  port_permissions host [] = []
  port_permissions host (port ∷ ports) = elim (as_u64 port) [
    | none ↦ port_permissions host ports
    | some p ↦ authority_header_match host p ∷ port_permissions host ports
  ]

  pub host_of : Json → Option Text
  host_of entry = do v ← get (bytes "host") entry; as_str v

  pub ports_of : Json → Option (List Json)
  ports_of entry = do v ← get (bytes "ports") entry; as_array v

  -- An entry with no host or no ports is passed over (`continue`).
  entry_permissions : Json → List Permission
  unfolding port_permissions
  entry_permissions entry = elim (host_of entry) [
    | none ↦ []
    | some host ↦ elim (ports_of entry) [ none ↦ [] | some ports ↦ port_permissions host ports ]
  ]

  allow_permissions : List Json → List Permission
  unfolding entry_permissions
  allow_permissions [] = []
  allow_permissions (entry ∷ entries) = entry_permissions entry ++ allow_permissions entries

  abbrev unless_empty : List Permission → Option (List Permission)
  unless_empty [] = none
  unless_empty (p ∷ ps) = some (p ∷ ps)

  pub allow_of : Json → Option (List Json)
  allow_of egress = do v ← get (bytes "allow") egress; as_array v

  allow_list : Option (List Json) → Option (List Permission)
  unfolding allow_permissions
  allow_list none = none
  allow_list (some entries) = unless_empty (allow_permissions entries)

  pub permissions_for_egress : Json → Option (List Permission)
  unfolding allow_list
  permissions_for_egress egress =
      let mode = egress_mode egress in
      if mode == some (bytes "all")
      then some (any_true ∷ [])
      else if mode == some (bytes "none")
      then none
      else allow_list (allow_of egress)

  principal_for_ip : ℕ → ℕ
  principal_for_ip ip = ip

  policy_of : SessionRecord Json → Option (Text × Policy)
  unfolding permissions_for_egress principal_for_ip
  policy_of r = do
    permissions ← permissions_for_egress r.egress_policy
    some (
      policy_name r.session_id,
      record { permissions = permissions; principals = principal_for_ip r.container_ip ∷ [] },
    )

  -- `collect` into a `HashMap`: a later policy of the same name replaces an earlier one.
  collect : Map Text Policy → List (SessionRecord Json) → Map Text Policy
  unfolding policy_of
  collect policies [] = policies
  collect policies (r ∷ records) = elim (policy_of r) [
    | none ↦ collect policies records
    | some (name, policy) ↦ collect (Map.insert name policy policies) records
  ]

  pub build_rbac_policies : List (SessionRecord Json) → Map Text Policy
  unfolding collect
  build_rbac_policies records = collect [] records
