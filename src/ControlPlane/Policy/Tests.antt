-- ===== src/ControlPlane/Policy/Tests.antt =====
-- The policies of two sessions: one with an allow list, one open to everything.
use botwork.Common.{
  ℕ, ◌≡◌, refl, true, false, ◌&&◌, none, some, List, [], ◌∷◌, eqb, any, nat_eq, list_eq, option_eq,
  ok,
}
use botwork.Common.Text.{Text, text_differs, bytes, decimal, split}
use botwork.Common.Ipv4.{parse_ipv4}
use botwork.Common.Json.Values.{Value, null, num, str, nil, cons, end, field, arr, obj, values}
use botwork.ControlPlane.Sessions.{SessionRecord}
use botwork.ControlPlane.Handler.{PostBody, validate, valid_session_id, valid_name}
use botwork.ControlPlane.Policy.{
  authority_of, egress_mode, host_of, ports_of, allow_of, build_rbac_policies,
}
use botwork.ControlPlane.Policy.Meaning.{
  permits, egress_opens, permits-build_rbac_policies, no_policy_is_denied,
}

-- `{ "allow": [{ "host": "api.github.com", "ports": [443, "x"] }, { "host": "void" }] }`
abbrev allow_github : Value
allow_github = obj (
    field (bytes "allow")
      (arr (
        cons
          (obj (
            field (bytes "host") (str (bytes "api.github.com"))
              (field (bytes "ports") (arr (cons (num 443) (cons (str (bytes "x")) nil))) end)))
          (cons (obj (field (bytes "host") (str (bytes "void")) end)) nil)))
      end)

abbrev session : Text → ℕ → Value → SessionRecord Value
session id ip egress = record {
  session_id = id;
  container_ip = ip;
  tenant = bytes "acme";
  workspace = bytes "main";
  plugin = bytes "shell";
  egress_policy = egress;
}

abbrev two_sessions : List (SessionRecord Value)
two_sessions =
    session (bytes "mcp_session_a1") 167772161 allow_github
    ∷ session (bytes "mcp_session_b2") 167772162 (str (bytes "all"))
    ∷ []

permits-build_rbac_policies_example :
    permits (build_rbac_policies values two_sessions) 167772161 (bytes "api.github.com:443")
    ≡ any
        (λ r.
          eqb r.container_ip 167772161
          && egress_opens values (bytes "api.github.com:443") r.egress_policy)
        two_sessions
permits-build_rbac_policies_example =
    permits-build_rbac_policies values two_sessions 167772161 (bytes "api.github.com:443")
      ((text_differs (bytes "mcp_session_a1") (bytes "mcp_session_b2") refl, tt), (tt, tt))

opened : egress_opens values (bytes "api.github.com:443") allow_github ≡ true
unfolding egress_mode host_of ports_of allow_of authority_of decimal
opened = refl

closed : egress_opens values (bytes "api.github.com:80") allow_github ≡ false
unfolding egress_mode host_of ports_of allow_of authority_of decimal
closed = refl

abbrev shell_body : PostBody Value
shell_body = record {
  session_id = some (bytes "mcp_session_a1");
  container_ip = some (bytes "10.0.0.1");
  tenant = some (bytes "acme");
  workspace = some (bytes "main");
  plugin = some (bytes "shell");
  egress_policy = none;
}

shell_is_valid :
    validate null (some shell_body) ≡ ok (session (bytes "mcp_session_a1") 167772161 null)
unfolding validate valid_session_id valid_name parse_ipv4 split
shell_is_valid = refl

no_policy_is_denied_example :
    permits
      (build_rbac_policies values (session (bytes "mcp_session_a1") 167772161 null ∷ []))
      167772161
      (bytes "api.github.com:443")
    ≡ false
no_policy_is_denied_example =
    no_policy_is_denied values shell_body (session (bytes "mcp_session_a1") 167772161 null)
      167772161 (bytes "api.github.com:443") refl shell_is_valid
