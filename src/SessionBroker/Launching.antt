-- ===== src/SessionBroker/Launching.antt =====
-- session-broker/src/ext_proc.rs, `spawn_new_container`: a container serves only after control-plane
-- accepted it. What the other services answer is a parameter (`Clients.Services`); the calls that
-- change something are kept as a list, latest first. The log is left out.
use botwork.Common.{
  ℕ, ◌-◌, Bool, not, ◌&&◌, Option, List, [], ◌∷◌, ◌++◌, eqb, if◌then◌else◌, nat_eq, list_eq,
  option_eq, pair_eq, Result, ok, err,
}
use botwork.Common.Text.{Text, bytes}
use botwork.Common.Map.{Map}
use botwork.SessionBroker.Routes.{staging_path}
use botwork.SessionBroker.Clients.{
  ControlPlaneError, LauncherError, control_plane, probe_timeout, PluginDescriptor, LaunchRequest,
  PostSessionRequest, PendingInit, Services,
}

-- The calls: the request for a launch (container and staging path), a POST that was accepted, the
-- request for a teardown, which goes out in a task of its own and whose answer is ignored, and the
-- row of a worker (plugin, container and address), whose failure is only logged.
pub data Call (Json : Type 0) : Type 0 where
  launch_called : Text → Text → Call Json
  announced : PostSessionRequest Json → Call Json
  teardown_called : Text → Text → Call Json
  record_spawn : Text → Text → Text → Call Json

pub record SpawnState (Json Resources : Type 0) : Type 0 where
  pub pending_init : Map Text (PendingInit Json Resources)
  pub calls : List (Call Json)

module _ {Json Resources : Type 0} (services : Services Json Resources) where
  abbrev pub Spawn : Type 0
  Spawn = SpawnState Json Resources

  abbrev pub call : Call Json → Spawn → Spawn
  call c s = record s { calls = c ∷ s.calls }

  abbrev pub container_name : Text
  container_name = bytes "mcp_session_" ++ services.token

  abbrev pub staging : Text → Text
  unfolding staging_path
  staging tenant_name = staging_path tenant_name services.token

  unfoldable pub teardown_unannounced_container : Text → Text → Spawn → Spawn
  teardown_unannounced_container name path s = call (teardown_called name path) s

  abbrev pub labels_of : Text → Text → Text → List (Text × Text)
  labels_of tenant_name workspace plugin_name =
      (bytes "io.botworkz.tenant", tenant_name)
      ∷ (bytes "io.botworkz.workspace", workspace)
      ∷ (bytes "io.botworkz.plugin", plugin_name)
      ∷ []

  abbrev pub is_ready : Text → ℕ → Bool
  is_ready container_ip port =
      let remaining = services.cold_start_timeout - services.elapsed in
      not (eqb remaining 0) && services.probe_ready container_ip port remaining

  abbrev pub post_request :
      Text → Text → Text → PluginDescriptor Json Resources → Text → PostSessionRequest Json
  post_request tenant_name workspace plugin_name descriptor container_ip = record {
    session_id = container_name;
    container_ip = container_ip;
    tenant = tenant_name;
    workspace = workspace;
    plugin = plugin_name;
    egress_policy = descriptor.egress;
  }

  abbrev pub Spawned : Type 0
  Spawned = Result LauncherError (PendingInit Json Resources) × Spawn

  abbrev pub pending_of :
      Text
      → Text
      → Text
      → PluginDescriptor Json Resources
      → Option Text
      → Text
      → PendingInit Json Resources
  pending_of tenant_name workspace plugin_name descriptor upstream_authorization container_ip =
      record {
        container_name = container_name;
        container_ip = container_ip;
        staging_token = services.token;
        tenant_name = tenant_name;
        workspace = workspace;
        plugin_name = plugin_name;
        descriptor = descriptor;
        upstream_authorization = upstream_authorization;
        created_at = services.utc_now;
      }

  -- The hard gate: only a POST that control-plane accepted lets the container serve.
  unfoldable pub announce :
      PostSessionRequest Json
      → Text
      → PendingInit Json Resources
      → Result ControlPlaneError (Unit {0})
      → Spawn
      → Spawned
  unfolding teardown_unannounced_container
  announce request path pending (err e) s =
      (err (control_plane e), teardown_unannounced_container request.session_id path s)
  announce request path pending (ok u) s = (
    ok pending,
    call (record_spawn request.plugin request.session_id request.container_ip)
        (call (announced request) s),
  )

  unfoldable pub launch_request :
      Text
      → Text
      → Text
      → PluginDescriptor Json Resources
      → List (Text × Text)
      → List (Text × Text)
      → LaunchRequest Resources
  unfolding staging_path
  launch_request tenant_name workspace plugin_name descriptor env secrets = record {
    name = container_name;
    image = descriptor.image;
    staging_path = staging tenant_name;
    env = env;
    secrets = secrets;
    resources = descriptor.resources;
    labels = labels_of tenant_name workspace plugin_name;
  }

  -- Where the launch failed, nothing is torn down, also if the launcher started a container after
  -- all: the broker stops waiting after 15 seconds, and refuses an answer without an address.
  unfoldable pub after_launch :
      Text
      → Text
      → Text
      → PluginDescriptor Json Resources
      → Option Text
      → Result LauncherError Text
      → Spawn
      → Spawned
  unfolding staging_path teardown_unannounced_container announce
  after_launch tenant_name workspace plugin_name descriptor authorization (err e) s = (err e, s)
  after_launch tenant_name workspace plugin_name descriptor authorization (ok container_ip) s =
      let path = staging tenant_name in
      let request = post_request tenant_name workspace plugin_name descriptor container_ip in
      if not (is_ready container_ip descriptor.port)
      then (
        err (probe_timeout container_name descriptor.port),
        teardown_unannounced_container container_name path s,
      )
      else announce request path
          (pending_of tenant_name workspace plugin_name descriptor authorization container_ip)
          (services.post_session request) s

  unfoldable pub spawn_new_container :
      Text
      → Text
      → Text
      → PluginDescriptor Json Resources
      → Option Text
      → List (Text × Text)
      → List (Text × Text)
      → Spawn
      → Spawned
  unfolding staging_path teardown_unannounced_container announce after_launch launch_request
  spawn_new_container tenant_name workspace plugin_name descriptor authorization env secrets s =
      after_launch tenant_name workspace plugin_name descriptor authorization
        (services.launch_session
          (launch_request tenant_name workspace plugin_name descriptor env secrets))
        (call (launch_called container_name (staging tenant_name)) s)
