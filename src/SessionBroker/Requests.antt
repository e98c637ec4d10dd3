-- ===== src/SessionBroker/Requests.antt =====
-- session-broker/src/ext_proc.rs, `handle_request_headers` for requests of known sessions: who may use
-- which session, and where the request goes. The branch of a POST without a session id, which spawns
-- a container, ends in `spawns` here. Docker's answers and `from_utf8_lossy` are parameters; the log
-- is left out.
pub mod Isolation
pub mod Ended
mod Tests
use botwork.Common.{
  ℕ, String, Bool, not, Option, none, some, List, [], if◌then◌else◌, is_empty, ◌==◌, nat_eq,
  list_eq, option_eq, pair_eq,
}
use botwork.Common.Text.{Text, bytes, trim, to_ascii_uppercase}
use botwork.Common.Map
use botwork.Common.Map.{Map}
use botwork.SessionBroker.Routes.{
  HeaderValue, extract_headers, content_type_is_json, is_part, parse_tenant_workspace_plugin,
  forward_path, upstream, route_authorization_for_transport,
}
use botwork.SessionBroker.Transports.{
  AppState, TransportState, TeardownInfo, teardown_of, is_tombstoned, check_container_liveness,
  evict_dead_session, liveness_bump,
}

pub record PerStreamState : Type 0 where
  pub method : Text
  pub path : Text
  pub authority : Text
  pub mcp_session_id : Option Text
  pub content_type : Text
  pub content_type_is_json : Bool
  pub client_addr : Text
  pub chosen_upstream : Option Text
  pub trusted_tenant : Text
  pub cap : Option Text
  pub teardown_on_response : Option TeardownInfo
  pub liveness_session_id : Option Text

-- The upstream, the path, the authorization to set, and whether the client's own is removed.
pub data Response : Type 0 where
  immediate_response : ℕ → Text → Response
  request_headers_route : Text → Text → Option Text → Bool → Response
  request_headers_continue spawns : Response

abbrev pub unknown : Response
unknown = immediate_response 404 (bytes "unknown mcp-session-id")

abbrev pub or_else : Option Text → Option Text → Option Text
or_else none o = o
or_else (some v) o = some v

abbrev pub unwrap_or : Text → Option Text → Text
unwrap_or fallback none = fallback
unwrap_or fallback (some v) = v

abbrev pub trimmed : Option Text → Option Text
trimmed none = none
trimmed (some v) = some (trim v)

abbrev pub header : String → Map Text Text → Option Text
header name headers = Map.get (bytes name) headers

-- What the stream takes from the headers.
unfoldable pub read_headers : Map Text Text → PerStreamState → PerStreamState
read_headers headers stream =
    let method =
      to_ascii_uppercase
        (unwrap_or (bytes "POST") (or_else (header ":method" headers) (header "method" headers))) in
    let content_type = unwrap_or [] (header "content-type" headers) in
    record stream {
      method = method;
      path = unwrap_or stream.path (or_else (header ":path" headers) (header "path" headers));
      authority =
          unwrap_or stream.authority
            (or_else (header ":authority" headers) (header "host" headers));
      mcp_session_id = header "mcp-session-id" headers;
      content_type = content_type;
      content_type_is_json = content_type_is_json method content_type;
      client_addr =
          unwrap_or (bytes "unknown") (
            or_else (header "x-envoy-external-address" headers) (header "x-forwarded-for" headers));
      trusted_tenant = unwrap_or [] (trimmed (header "x-botwork-tenant" headers));
      cap = trimmed (header "x-botwork-cap" headers);
    }

-- The names in the path against the session's; a different plugin is only logged.
abbrev pub check_path : Option (Text × Text × Text) → Text → Text → Option Response
check_path none trusted_tenant workspace = none
check_path (some (path_tenant, path_workspace, path_plugin)) trusted_tenant workspace =
    if not (path_tenant == trusted_tenant)
    then some (immediate_response 403 (bytes "tenant path/header mismatch"))
    else if not (path_workspace == workspace)
    then some (immediate_response 403 (bytes "session workspace mismatch"))
    else none

abbrev pub Handled : Type 0 → Type 0
Handled Json = Response × PerStreamState × AppState Json

-- How a session's request is served.
abbrev pub Admission : Type 0 → Type 0
Admission Json = PerStreamState → AppState Json → Text → TransportState Json → Handled Json

module _ {Json : Type 0} where
  abbrev pub check_owner : PerStreamState → TransportState Json → Option Response
  check_owner stream t =
      if not (t.tenant_name == stream.trusted_tenant)
      then some (immediate_response 403 (bytes "session tenant mismatch"))
      else check_path (parse_tenant_workspace_plugin stream.path) stream.trusted_tenant t.workspace

  abbrev pub upstream_of : TransportState Json → Text
  upstream_of t = upstream t.container_name t.port

  abbrev pub route : PerStreamState → TransportState Json → Response
  route stream t =
      let (authorization, strip) =
        route_authorization_for_transport t.upstream_auth t.upstream_authorization in
      request_headers_route (upstream_of t) (forward_path stream.path t.path) authorization strip

  -- A GET or a POST counts as an open stream of the session.
  abbrev pub admit_stream :
      PerStreamState → AppState Json → Text → TransportState Json → Handled Json
  admit_stream stream state id t = (
    route stream t,
    record stream { chosen_upstream = some (upstream_of t); liveness_session_id = some id },
    liveness_bump state id,
  )

  -- A DELETE tears the session down when the response comes back.
  abbrev pub admit_delete :
      PerStreamState → AppState Json → Text → TransportState Json → Handled Json
  admit_delete stream state id t = (
    route stream t,
    record stream {
      chosen_upstream = some (upstream_of t);
      teardown_on_response = some (teardown_of id t);
    },
    state,
  )

  abbrev pub owned :
      Admission Json → PerStreamState → AppState Json → Text → TransportState Json → Handled Json
  owned admit stream state id t = elim (check_owner stream t) [
    | some refusal ↦ (refusal, stream, state)
    | none ↦ admit stream state id t
  ]

  -- A session whose container is gone is evicted.
  abbrev pub alive :
      Admission Json
      → (Text → Option Bool)
      → ℕ
      → PerStreamState
      → AppState Json
      → Text
      → TransportState Json
      → Handled Json
  alive admit inspect now stream state id t =
      let (is_running, state') =
        check_container_liveness (inspect t.container_name) state t.container_name now in
      if not is_running
      then (unknown, stream, evict_dead_session state' id t now)
      else owned admit stream state' id t

  abbrev pub served :
      Admission Json
      → PerStreamState
      → AppState Json
      → Text
      → Option (TransportState Json)
      → Handled Json
  served serve stream state id none = (unknown, stream, state)
  served serve stream state id (some t) = serve stream state id t

  -- The tombstone first, then the table.
  abbrev pub known : Admission Json → ℕ → PerStreamState → AppState Json → Text → Handled Json
  known serve now stream state id =
      let (tombstoned, state') = is_tombstoned state id now in
      if tombstoned
      then (unknown, stream, state')
      else served serve stream state' id (Map.get id state'.transport_sessions)

  -- Without a session id the answer is `missing`.
  abbrev pub with_session :
      Response → Admission Json → ℕ → PerStreamState → AppState Json → Option Text → Handled Json
  with_session missing serve now stream state none = (missing, stream, state)
  with_session missing serve now stream state (some id) = known serve now stream state id

  unfoldable pub handle_get : ℕ → PerStreamState → AppState Json → Handled Json
  handle_get now stream state =
      let missing = immediate_response 400 (bytes "missing Mcp-Session-Id header") in
      with_session missing (owned admit_stream) now stream state stream.mcp_session_id

  unfoldable pub handle_delete :
      (Text → Option Bool) → ℕ → PerStreamState → AppState Json → Handled Json
  handle_delete inspect now stream state =
      let missing = immediate_response 404 (bytes "missing Mcp-Session-Id header") in
      with_session missing (alive admit_delete inspect now) now stream state stream.mcp_session_id

  unfoldable pub handle_post :
      (Text → Option Bool) → ℕ → PerStreamState → AppState Json → Handled Json
  handle_post inspect now stream state =
      with_session spawns (alive admit_stream inspect now) now stream state stream.mcp_session_id

  abbrev pub by_method : (Text → Option Bool) → ℕ → PerStreamState → AppState Json → Handled Json
  by_method inspect now stream state =
      if stream.method == bytes "GET"
      then handle_get now stream state
      else if stream.method == bytes "DELETE"
      then handle_delete inspect now stream state
      else if stream.method == bytes "POST"
      then handle_post inspect now stream state
      else (request_headers_continue, stream, state)

  unfoldable pub handle_request_headers :
      (Text → Text)
      → (Text → Option Bool)
      → ℕ
      → List HeaderValue
      → PerStreamState
      → AppState Json
      → Handled Json
  unfolding read_headers handle_get handle_delete handle_post
  handle_request_headers from_utf8_lossy inspect now headers stream state =
      let stream' = read_headers (extract_headers from_utf8_lossy headers) stream in
      if is_empty stream'.trusted_tenant
      then (immediate_response 401 (bytes "missing x-botwork-tenant header"), stream', state)
      else if not (is_part stream'.trusted_tenant)
      then (immediate_response 400 (bytes "invalid x-botwork-tenant header"), stream', state)
      else by_method inspect now stream' state
