-- ===== src/SessionBroker/Requests/Tests.antt =====
-- One session, its owner, and a request for it after its end.
use botwork.Common.{
  ℕ, String, ◌≡◌, refl, Bool, true, false, Option, none, some, List, [], ◌∷◌, arith, nat_eq,
  list_eq, option_eq, pair_eq,
}
use botwork.Common.Text.{Text, bytes, decimal}
use botwork.SessionBroker.Routes.{
  HeaderValue, extract_headers, no_auth, span, captures, parse_tenant_workspace_plugin,
  parse_full_path, forward_path, upstream, route_authorization_for_transport, content_type_is_json,
}
use botwork.SessionBroker.Transports.{
  AppState, TransportState, liveness_bump, is_tombstoned, check_container_liveness,
  evict_dead_session, prune_expired, count_up, cancel_grace,
}
use botwork.SessionBroker.Transports.Steps.{◌⟶*◌, passes, sweeps_tombstones, here, after}
use botwork.SessionBroker.Requests.{
  PerStreamState, immediate_response, request_headers_route, read_headers, handle_get,
  handle_delete, handle_post, handle_request_headers,
}
use botwork.SessionBroker.Requests.Isolation.{IsOwn, is_route, routed-IsOwn}
use botwork.SessionBroker.Requests.Ended.{ended_is_unroutable, evicted}

abbrev transport : TransportState ℕ
transport = record {
  container_name = bytes "c";
  container_ip = bytes "10.0.0.1";
  staging_token = bytes "ab";
  tenant_name = bytes "acme";
  workspace = bytes "main";
  plugin_name = bytes "fetch";
  port = 8000;
  path = bytes "/mcp";
  upstream_auth = no_auth;
  upstream_authorization = none;
  agent_id = none;
  egress_policy = none;
}

abbrev state : AppState ℕ
state = record {
  transport_sessions = (bytes "m1", transport) ∷ [];
  tombstones = [];
  liveness_cache = [];
  stream_liveness = [];
  disconnect_grace = 30;
  effects = [];
}

abbrev stream : PerStreamState
stream = record {
  method = bytes "POST";
  path = [];
  authority = [];
  mcp_session_id = none;
  content_type = [];
  content_type_is_json = false;
  client_addr = bytes "unknown";
  chosen_upstream = none;
  trusted_tenant = [];
  cap = none;
  teardown_on_response = none;
  liveness_session_id = none;
}

abbrev header : String → String → HeaderValue
header key value = record { key = bytes key; value = bytes value; raw_value = [] }

abbrev asked_by : String → List HeaderValue
asked_by tenant =
    header ":method" "get"
    ∷ header ":path" "/acme/main/fetch"
    ∷ header "Mcp-Session-Id" "m1"
    ∷ header "x-botwork-tenant" tenant
    ∷ []

abbrev running : Text → Option Bool
running container_name = some true

requests : Unit {0}
unfolding decimal span captures parse_tenant_workspace_plugin parse_full_path forward_path upstream
    route_authorization_for_transport content_type_is_json extract_headers read_headers count_up
    cancel_grace liveness_bump is_tombstoned check_container_liveness evict_dead_session handle_get
    handle_delete handle_post handle_request_headers
requests = tt

owner_routed :
    (handle_request_headers (λ raw. raw) running 1 (asked_by "acme") stream state).0
    ≡ request_headers_route (upstream (bytes "c") 8000) (bytes "/mcp") none true
unfolding requests
owner_routed = refl

other_refused :
    (handle_request_headers (λ raw. raw) running 1 (asked_by "zeta") stream state).0
    ≡ immediate_response 403 (bytes "session tenant mismatch")
unfolding requests
other_refused = refl

named :
    (read_headers (extract_headers (λ raw. raw) (asked_by "acme")) stream).mcp_session_id
    ≡ some (bytes "m1")
unfolding requests
named = refl

abbrev ended : AppState ℕ
ended = evict_dead_session state (bytes "m1") transport 1

later : (1, ended) ⟶* (9, record ended { tombstones = (prune_expired ended.tombstones 9).1 })
unfolding requests
later = after (passes 8) (after sweeps_tombstones here)

routed-IsOwn_example :
    IsOwn
      (read_headers (extract_headers (λ raw. raw) (asked_by "acme")) stream)
      state.transport_sessions
      (upstream (bytes "c") 8000)
      none
      true
routed-IsOwn_example =
    routed-IsOwn (λ raw. raw) running 1 (asked_by "acme") stream state (upstream (bytes "c") 8000)
      (bytes "/mcp") none true owner_routed

ended_is_unroutable_example :
    is_route
      (handle_request_headers
        (λ raw. raw)
        running
        9
        (asked_by "acme")
        stream
        (record ended { tombstones = (prune_expired ended.tombstones 9).1 })).0
    ≡ false
ended_is_unroutable_example =
    ended_is_unroutable (bytes "m1") 1 ended
      (9, record ended { tombstones = (prune_expired ended.tombstones 9).1 }) (λ raw. raw) running
      (asked_by "acme") stream (evicted state transport) later (omega arith) named
