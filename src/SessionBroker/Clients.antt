-- ===== src/SessionBroker/Clients.antt =====
-- What session-broker asks of the other services, and what they answer: session-broker/src/launcher.rs,
-- control_plane.rs and config_broker.rs, the requests and the errors. The HTTP clients themselves are
-- the fields of `Services`.
use botwork.Common.{ℕ, Bool, Option, List, ◌++◌, nat_eq, list_eq, option_eq, pair_eq, Result}
use botwork.Common.Text.{Text, bytes, decimal}
use botwork.SessionBroker.Routes.{UpstreamAuth}
use botwork.SessionBroker.Secrets.{FetchedSecret}

pub data ControlPlaneError : Type 0 where
  invalid_request already_exists not_found internal transport_error bad_response :
      Text → ControlPlaneError

unfoldable pub control_plane_status_code : ControlPlaneError → ℕ
control_plane_status_code e = 503

unfoldable pub control_plane_to_string : ControlPlaneError → Text
control_plane_to_string (invalid_request e) = bytes "invalid request: " ++ e
control_plane_to_string (already_exists e) =
    bytes "session_id already exists in control-plane: " ++ e
control_plane_to_string (not_found e) = bytes "session_id not found in control-plane: " ++ e
control_plane_to_string (internal e) = bytes "control-plane internal error: " ++ e
control_plane_to_string (transport_error e) =
    bytes "transport error contacting control-plane: " ++ e
control_plane_to_string (bad_response e) = bytes "bad response from control-plane: " ++ e

pub data LauncherError : Type 0 where
  launch_error bind_conflict : Text → LauncherError
  bind_http launch_http : ℕ → Text → LauncherError
  launch_invalid_json : LauncherError
  probe_timeout : Text → ℕ → LauncherError
  control_plane : ControlPlaneError → LauncherError

unfoldable pub launcher_status_code : LauncherError → ℕ
unfolding control_plane_status_code
launcher_status_code (probe_timeout host port) = 504
launcher_status_code (control_plane e) = control_plane_status_code e
launcher_status_code (launch_error e) = 502
launcher_status_code (bind_conflict e) = 502
launcher_status_code (bind_http status detail) = 502
launcher_status_code (launch_http status detail) = 502
launcher_status_code launch_invalid_json = 502

unfoldable pub launcher_to_string : LauncherError → Text
unfolding control_plane_to_string decimal
launcher_to_string (launch_error e) = bytes "failed to contact launcher: " ++ e
launcher_to_string (bind_conflict e) = bytes "bind-agent conflict: " ++ e
launcher_to_string (bind_http status detail) =
    bytes "bind-agent returned HTTP " ++ decimal status ++ bytes ": " ++ detail
launcher_to_string (launch_http status detail) =
    bytes "launcher returned HTTP " ++ decimal status ++ bytes ": " ++ detail
launcher_to_string launch_invalid_json = bytes "launcher returned invalid JSON"
launcher_to_string (probe_timeout host port) =
    bytes "timed out waiting for " ++ host ++ bytes ":" ++ decimal port ++ bytes " to become ready"
launcher_to_string (control_plane e) =
    bytes "control-plane denied session: " ++ control_plane_to_string e

pub record PluginDescriptor (Json Resources : Type 0) : Type 0 where
  pub image : Text
  pub port : ℕ
  pub path : Text
  pub upstream_auth : UpstreamAuth
  pub resources : Resources
  pub env : List (Text × Text)
  pub config_blob : Option Text
  pub egress : Option Json

pub record LaunchRequest (Resources : Type 0) : Type 0 where
  pub name : Text
  pub image : Text
  pub staging_path : Text
  pub env : List (Text × Text)
  pub secrets : List (Text × Text)
  pub resources : Resources
  pub labels : List (Text × Text)

pub record PostSessionRequest (Json : Type 0) : Type 0 where
  pub session_id : Text
  pub container_ip : Text
  pub tenant : Text
  pub workspace : Text
  pub plugin : Text
  pub egress_policy : Option Json

pub record PendingInit (Json Resources : Type 0) : Type 0 where
  pub container_name : Text
  pub container_ip : Text
  pub staging_token : Text
  pub tenant_name : Text
  pub workspace : Text
  pub plugin_name : Text
  pub descriptor : PluginDescriptor Json Resources
  pub upstream_authorization : Option Text
  pub created_at : Text

-- A failed resolve has a status and a text; times are in nanoseconds.
pub record Services (Json Resources : Type 0) : Type 0 where
  pub resolve : Text → Text → Text → Result (ℕ × Text) (PluginDescriptor Json Resources)
  pub fetch_secrets : Text → Option (List FetchedSecret)
  pub launch_session : LaunchRequest Resources → Result LauncherError Text
  pub elapsed : ℕ
  pub cold_start_timeout : ℕ
  pub probe_ready : Text → ℕ → ℕ → Bool
  pub post_session : PostSessionRequest Json → Result ControlPlaneError (Unit {0})
  pub token : Text
  pub utc_now : Text
  pub from_utf8 : Text → Option Text
  pub from_utf8_lossy : Text → Text
