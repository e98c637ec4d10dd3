-- ===== src/SessionBroker/Spawning/Tests.antt =====
-- A POST without a session id, accepted and refused by control-plane.
use botwork.Common.{
  ℕ, String, ◌≡◌, refl, ◌⊎◌, true, false, none, some, List, [], ◌∷◌, is_none, nat_eq, list_eq,
  option_eq, pair_eq, Result, ok, err,
}
use botwork.Common.Text.{Text, bytes, decimal}
use botwork.SessionBroker.Routes.{
  HeaderValue, bearer, span, captures, parse_tenant_workspace_plugin, parse_full_path, forward_path,
  staging_path, upstream, extract_headers, content_type_is_json, route_authorization_for_transport,
}
use botwork.SessionBroker.Secrets.{FetchedSecret, sanitize_segment, push_secret, build_secret_pairs}
use botwork.SessionBroker.Clients.{
  PluginDescriptor, Services, ControlPlaneError, internal, control_plane_status_code,
  control_plane_to_string, launcher_status_code, launcher_to_string,
}
use botwork.SessionBroker.Transports.{
  AppState, liveness_bump, is_tombstoned, check_container_liveness, evict_dead_session,
}
use botwork.SessionBroker.Requests.{
  PerStreamState, immediate_response, request_headers_route, read_headers, handle_get,
  handle_delete, handle_post, handle_request_headers,
}
use botwork.SessionBroker.Requests.Isolation.{is_route, IsOwn}
use botwork.SessionBroker.Launching.{
  launch_request, SpawnState, teardown_unannounced_container, spawn_new_container,
}
use botwork.SessionBroker.Spawning.{resolve_spawn_upstream_authorization, spawn, request_headers}
use botwork.SessionBroker.Spawning.Gate.{IsAnnounced, IsWithdrawn}
use botwork.SessionBroker.Spawning.Served.{
  served-IsAnnounced, refused-IsWithdrawn, routed-IsAllowed,
}

abbrev descriptor : PluginDescriptor ℕ ℕ
descriptor = record {
  image = bytes "fetch:1";
  port = 8000;
  path = bytes "/mcp";
  upstream_auth = bearer (bytes "github");
  resources = 0;
  env = [];
  config_blob = none;
  egress = none;
}

abbrev secret : FetchedSecret
secret = record {
  service = bytes "github";
  name = bytes "pat";
  kind = bytes "token";
  value = bytes "s3";
}

-- Control-plane's answer is the argument.
abbrev services : Result ControlPlaneError (Unit {0}) → Services ℕ ℕ
services answer = record {
  resolve = λ tenant workspace plugin. ok descriptor;
  fetch_secrets = λ held. some (secret ∷ []);
  launch_session = λ request. ok (bytes "10.0.0.2");
  elapsed = 5;
  cold_start_timeout = 30;
  probe_ready = λ ip port remaining. true;
  post_session = λ request. answer;
  token = bytes "0a1b2c3d4e5f";
  utc_now = bytes "now";
  from_utf8 = λ raw. some raw;
  from_utf8_lossy = λ raw. raw;
}

abbrev accepting : Services ℕ ℕ
accepting = services (ok tt)

abbrev refusing : Services ℕ ℕ
refusing = services (err (internal (bytes "down")))

abbrev stream : PerStreamState
stream = record {
  method = bytes "POST";
  path = bytes "/acme/main/fetch";
  authority = [];
  mcp_session_id = none;
  content_type = [];
  content_type_is_json = false;
  client_addr = bytes "unknown";
  chosen_upstream = none;
  trusted_tenant = bytes "acme";
  cap = some (bytes "cap");
  teardown_on_response = none;
  liveness_session_id = none;
}

abbrev state : AppState ℕ
state = record {
  transport_sessions = [];
  tombstones = [];
  liveness_cache = [];
  stream_liveness = [];
  disconnect_grace = 30;
  effects = [];
}

abbrev before : SpawnState ℕ ℕ
before = record { pending_init = []; calls = [] }

abbrev header : String → String → HeaderValue
header key value = record { key = bytes key; value = bytes value; raw_value = [] }

abbrev headers : List HeaderValue
headers =
    header ":path" "/acme/main/fetch"
    ∷ header "x-botwork-tenant" "acme"
    ∷ header "x-botwork-cap" "cap"
    ∷ []

spawning : Unit {0}
unfolding launch_request decimal span captures parse_tenant_workspace_plugin parse_full_path
    forward_path upstream staging_path sanitize_segment push_secret build_secret_pairs
    control_plane_status_code control_plane_to_string launcher_status_code launcher_to_string
    teardown_unannounced_container resolve_spawn_upstream_authorization spawn_new_container spawn
    request_headers route_authorization_for_transport content_type_is_json extract_headers
    read_headers liveness_bump is_tombstoned check_container_liveness evict_dead_session handle_get
    handle_delete handle_post handle_request_headers
spawning = tt

abbrev to : Text
to = bytes "mcp_session_0a1b2c3d4e5f:8000"

spawned :
    (spawn accepting (bytes "st") stream before).0
    ≡ request_headers_route to (bytes "/mcp") (some (bytes "s3")) false
unfolding spawning
spawned = refl

refused :
    (spawn refusing (bytes "st") stream before).0
    ≡ immediate_response 503
        (bytes "control-plane denied session: control-plane internal error: down")
unfolding spawning
refused = refl

not_routed : is_route (spawn refusing (bytes "st") stream before).0 ≡ false
unfolding spawning
not_routed = refl

handled :
    (request_headers accepting (λ name. none) 1 headers (bytes "st") stream state before).0
    ≡ request_headers_route to (bytes "/mcp") (some (bytes "s3")) false
unfolding spawning
handled = refl

served-IsAnnounced_example :
    IsAnnounced accepting
      (bytes "st")
      stream
      before
      (spawn accepting (bytes "st") stream before).2
      to
      (some (bytes "s3"))
    × (false ≡ is_none (some (bytes "s3")))
served-IsAnnounced_example =
    served-IsAnnounced accepting (bytes "st") stream before to (bytes "/mcp") (some (bytes "s3"))
      false spawned

refused-IsWithdrawn_example :
    IsWithdrawn refusing (bytes "acme") before (spawn refusing (bytes "st") stream before).2
refused-IsWithdrawn_example = refused-IsWithdrawn refusing (bytes "st") stream before not_routed

routed-IsAllowed_example :
    IsOwn
      (read_headers (extract_headers (λ raw. raw) headers) stream)
      state.transport_sessions
      to
      (some (bytes "s3"))
      false
    ⊎ IsAnnounced accepting
        (bytes "st")
        (handle_request_headers (λ raw. raw) (λ name. none) 1 headers stream state).1
        before
        (request_headers accepting (λ name. none) 1 headers (bytes "st") stream state before).3
        to
        (some (bytes "s3"))
routed-IsAllowed_example =
    routed-IsAllowed accepting (λ name. none) 1 headers (bytes "st") stream state before to
      (bytes "/mcp") (some (bytes "s3")) false handled
