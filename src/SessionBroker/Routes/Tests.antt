-- ===== src/SessionBroker/Routes/Tests.antt =====
-- Paths and headers at concrete inputs.
use botwork.Common.{
  ◌≡◌, refl, true, false, none, some, [], ◌∷◌, ◌++◌, nat_eq, list_eq, option_eq, pair_eq,
}
use botwork.Common.Text.{bytes, decimal}
use botwork.Common.Map
use botwork.SessionBroker.Routes.{
  span, captures, parse_tenant_workspace_plugin, parse_full_path, forward_path, body_of,
  content_type_is_json, staging_path, upstream, route_authorization_for_transport,
  upstream_header_mutation, extract_headers,
}
use botwork.SessionBroker.Routes.Paths.{base_path, parse_full_path-base_path}

routes : Unit {0}
unfolding span captures parse_tenant_workspace_plugin parse_full_path forward_path
    content_type_is_json staging_path upstream route_authorization_for_transport
    upstream_header_mutation extract_headers decimal
routes = tt

parse_runs :
    parse_tenant_workspace_plugin (bytes "/acme/main/fetch/x?y=/z")
    ≡ some (bytes "acme", bytes "main", bytes "fetch")
unfolding routes
parse_runs = refl

parse_refuses :
    (parse_tenant_workspace_plugin (bytes "/acme/main") ≡ none)
    × (parse_tenant_workspace_plugin (bytes "/Acme/main/fetch") ≡ none)
unfolding routes
parse_refuses = (refl, refl)

forward_runs :
    (forward_path (bytes "/acme/main/fetch?q=1") (bytes "/") ≡ bytes "/?q=1")
    × (forward_path [] (bytes "/mcp") ≡ bytes "/")
unfolding routes
forward_runs = (refl, refl)

upstream_runs : upstream (bytes "mcp_session_a") 8000 ≡ bytes "mcp_session_a:8000"
unfolding routes
upstream_runs = refl

json_runs : content_type_is_json (bytes "POST") (bytes " Application/JSON; charset=utf-8") ≡ true
unfolding routes
json_runs = refl

mutation_runs :
    (upstream_header_mutation (bytes "c:1") none (some (bytes "t")) false).set_headers
    ≡ (bytes "x-session-upstream", bytes "c:1") ∷ (bytes "authorization", bytes "Bearer t") ∷ []
unfolding routes
mutation_runs = refl

last_header_wins :
    Map.get (bytes "host") (
      extract_headers
        (λ raw. raw)
        (record { key = bytes "Host"; value = bytes "a"; raw_value = [] }
          ∷ record { key = bytes "host"; value = []; raw_value = bytes "b" }
          ∷ []))
    ≡ some (bytes "b")
unfolding routes
last_header_wins = refl

parse_full_path-base_path_example :
    let path =
      base_path (bytes "acme") (bytes "main") (bytes "fetch") (bytes "/x") ++ bytes "?q=1" in
    (parse_tenant_workspace_plugin path ≡ some (bytes "acme", bytes "main", bytes "fetch"))
    × (parse_full_path path (bytes "/mcp")
        ≡ some (
          bytes "acme",
          bytes "main",
          bytes "fetch",
          body_of (bytes "/mcp") (bytes "/x") ++ bytes "?q=1",
        ))
    × (forward_path path (bytes "/mcp") ≡ body_of (bytes "/mcp") (bytes "/x") ++ bytes "?q=1")
parse_full_path-base_path_example =
    parse_full_path-base_path (bytes "acme") (bytes "main") (bytes "fetch") (bytes "/x")
      (bytes "?q=1") (bytes "/mcp") refl refl refl refl refl refl refl
