-- ===== src/SessionBroker/Spawning.antt =====
-- session-broker/src/ext_proc.rs, the branch of `handle_request_headers` for a POST without a session
-- id: it spawns a container, which serves only after control-plane accepted it. What the other
-- services answer through their clients (config_broker.rs, secrets.rs, launcher.rs, control_plane.rs)
-- is a parameter, as are the random token in hexadecimal, the time and `from_utf8`; the calls that
-- change something are kept as a list, latest first. The log is left out.
pub mod Gate
pub mod Served
mod Tests
use botwork.Common.{
  ℕ, Bool, not, Option, none, some, List, [], ◌∷◌, ◌++◌, if◌then◌else◌, is_none, is_empty, filter,
  ◌==◌, nat_eq, list_eq, option_eq, pair_eq, Result, ok, err,
}
use botwork.Common.Text.{Text, bytes}
use botwork.Common.Map
use botwork.Common.Map.{Map}
use botwork.SessionBroker.Routes.{
  HeaderValue, UpstreamAuth, bearer, no_auth, is_part, parse_tenant_workspace_plugin, forward_path,
  upstream,
}
use botwork.SessionBroker.Secrets.{FetchedSecret, build_secret_pairs}
use botwork.SessionBroker.Clients.{
  launcher_status_code, launcher_to_string, PluginDescriptor, Services,
}
use botwork.SessionBroker.Transports.{AppState}
use botwork.SessionBroker.Requests.{
  PerStreamState, Response, immediate_response, request_headers_route, request_headers_continue,
  spawns, handle_request_headers,
}
use botwork.SessionBroker.Launching.{SpawnState, Spawned, spawn_new_container}

abbrev pub decoded : Option Text → Result Text (Option Text)
decoded (some value) = ok (some value)
decoded none = err (bytes "configured upstream authorization secret must be valid UTF-8")

abbrev pub single_secret :
    (Text → Option Text) → Text → List FetchedSecret → Result Text (Option Text)
single_secret from_utf8 service [] =
    err (bytes "configured upstream authorization secret was not found")
single_secret from_utf8 service (secret ∷ []) = decoded (from_utf8 secret.value)
single_secret from_utf8 service (secret ∷ other ∷ more) =
    err (bytes "ambiguous upstream authorization secret for service '" ++ service ++ bytes "'")

unfoldable pub resolve_spawn_upstream_authorization :
    (Text → Option Text) → UpstreamAuth → List FetchedSecret → Result Text (Option Text)
resolve_spawn_upstream_authorization from_utf8 no_auth secrets = ok none
resolve_spawn_upstream_authorization from_utf8 (bearer service) secrets =
    single_secret from_utf8 service (filter (λ secret. secret.service == service) secrets)

abbrev pub config_env_name : Text
config_env_name = bytes "BOTWORK_MCP_CONFIG"

abbrev pub config_env : Option Text → List (Text × Text)
config_env none = []
config_env (some blob) = (config_env_name, blob) ∷ []

module _ {Json Resources : Type 0} (services : Services Json Resources) where
  abbrev pub Answer : Type 0
  Answer = Response × PerStreamState × SpawnState Json Resources

  -- The container waits for the answer to the stream's first request.
  abbrev pub initialize : Text → Text → PerStreamState → Spawned services → Answer
  unfolding upstream launcher_status_code launcher_to_string
  initialize stream_id path stream (err e, s) =
      (immediate_response (launcher_status_code e) (launcher_to_string e), stream, s)
  initialize stream_id path stream (ok pending, s) =
      let to = upstream pending.container_name pending.descriptor.port in
      (
        request_headers_route to path pending.upstream_authorization
            (is_none pending.upstream_authorization),
        record stream { chosen_upstream = some to },
        record s { pending_init = Map.insert stream_id pending s.pending_init },
      )

  abbrev pub authorized :
      Text
      → Text
      → Text
      → PluginDescriptor Json Resources
      → List FetchedSecret
      → PerStreamState
      → Result Text (Option Text)
      → SpawnState Json Resources
      → Answer
  unfolding spawn_new_container forward_path build_secret_pairs upstream launcher_status_code
      launcher_to_string
  authorized stream_id workspace plugin_name descriptor secrets stream (err message) s =
      (immediate_response 500 message, stream, s)
  authorized stream_id workspace plugin_name descriptor secrets stream (ok authorization) s =
      initialize stream_id (forward_path stream.path descriptor.path) stream (
        spawn_new_container services stream.trusted_tenant workspace plugin_name descriptor
          authorization (descriptor.env ++ config_env descriptor.config_blob)
          (build_secret_pairs services.from_utf8_lossy secrets) s)

  abbrev pub with_secrets :
      Text
      → Text
      → Text
      → PluginDescriptor Json Resources
      → PerStreamState
      → Option (List FetchedSecret)
      → SpawnState Json Resources
      → Answer
  unfolding resolve_spawn_upstream_authorization spawn_new_container forward_path build_secret_pairs
      upstream launcher_status_code launcher_to_string
  with_secrets stream_id workspace plugin_name descriptor stream none s =
      (immediate_response 503 (bytes "spawn secrets fetch failed"), stream, s)
  with_secrets stream_id workspace plugin_name descriptor stream (some secrets) s =
      authorized stream_id workspace plugin_name descriptor secrets stream
        (resolve_spawn_upstream_authorization services.from_utf8 descriptor.upstream_auth secrets) s

  -- A cap that is missing or empty is refused.
  abbrev pub with_cap :
      Text
      → Text
      → Text
      → PluginDescriptor Json Resources
      → PerStreamState
      → Option Text
      → SpawnState Json Resources
      → Answer
  unfolding resolve_spawn_upstream_authorization spawn_new_container forward_path build_secret_pairs
      upstream launcher_status_code launcher_to_string
  with_cap stream_id workspace plugin_name descriptor stream none s =
      (immediate_response 503 (bytes "spawn requires x-botwork-cap"), stream, s)
  with_cap stream_id workspace plugin_name descriptor stream (some cap) s =
      if is_empty cap
      then (immediate_response 503 (bytes "spawn requires x-botwork-cap"), stream, s)
      else with_secrets stream_id workspace plugin_name descriptor stream
          (services.fetch_secrets cap) s

  abbrev pub resolved :
      Text
      → Text
      → Text
      → PerStreamState
      → Result (ℕ × Text) (PluginDescriptor Json Resources)
      → SpawnState Json Resources
      → Answer
  unfolding with_cap
  resolved stream_id workspace plugin_name stream (err (status, message)) s =
      (immediate_response status message, stream, s)
  resolved stream_id workspace plugin_name stream (ok descriptor) s =
      with_cap stream_id workspace plugin_name descriptor stream stream.cap s

  abbrev pub named :
      Text → PerStreamState → Option (Text × Text × Text) → SpawnState Json Resources → Answer
  named stream_id stream none s =
      let usage = bytes "workspace required: use /<tenant>/<workspace>/<plugin>" in
      (immediate_response 400 usage, stream, s)
  named stream_id stream (some (tenant, workspace, plugin_name)) s =
      if not (is_part workspace)
      then (immediate_response 400 (bytes "invalid workspace"), stream, s)
      else if not (tenant == stream.trusted_tenant)
      then (immediate_response 403 (bytes "tenant path/header mismatch"), stream, s)
      else resolved stream_id workspace plugin_name stream
          (services.resolve stream.trusted_tenant workspace plugin_name) s

  unfoldable pub spawn : Text → PerStreamState → SpawnState Json Resources → Answer
  unfolding parse_tenant_workspace_plugin
  spawn stream_id stream s = named stream_id stream (parse_tenant_workspace_plugin stream.path) s

  -- The whole of `handle_request_headers`.
  abbrev pub spawn_or_answer :
      Text
      → Response
      → PerStreamState
      → AppState Json
      → SpawnState Json Resources
      → Response × PerStreamState × AppState Json × SpawnState Json Resources
  unfolding spawn
  spawn_or_answer stream_id spawns stream state s =
      let (response, stream', s') = spawn stream_id stream s in (response, stream', state, s')
  spawn_or_answer stream_id (immediate_response code body) stream state s =
      (immediate_response code body, stream, state, s)
  spawn_or_answer stream_id (request_headers_route to path authorization strip) stream state s =
      (request_headers_route to path authorization strip, stream, state, s)
  spawn_or_answer stream_id request_headers_continue stream state s =
      (request_headers_continue, stream, state, s)

  unfoldable pub request_headers :
      (Text → Option Bool)
      → ℕ
      → List HeaderValue
      → Text
      → PerStreamState
      → AppState Json
      → SpawnState Json Resources
      → Response × PerStreamState × AppState Json × SpawnState Json Resources
  unfolding spawn
  request_headers inspect now headers stream_id stream state s =
      let (response, stream', state') =
        handle_request_headers services.from_utf8_lossy inspect now headers stream state in
      spawn_or_answer stream_id response stream' state' s
