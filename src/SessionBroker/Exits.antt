-- ===== src/SessionBroker/Exits.antt =====
-- session-broker/src/exit_listener.rs, `handle_container_exit`: the launcher reports that a container
-- has exited. The HTTP form of the report is left out; the tasks that call the launcher and
-- control-plane count as started with it.
pub mod Runs
use botwork.Common.{
  ℕ, Bool, true, false, Option, none, some, [], ◌∷◌, if◌then◌else◌, ◌==◌, nat_eq, list_eq,
  option_eq, pair_eq,
}
use botwork.Common.Text.{Text}
use botwork.Common.Map.{Map}
use botwork.SessionBroker.Routes.{staging_path}
use botwork.SessionBroker.Transports.{
  AppState, TransportState, call_teardown, record_reap, delete_session, emit, bury, unlist,
  liveness_remove,
}

module _ {Json : Type 0} where
  -- The first session whose container has the name.
  abbrev pub find_container :
      Text → Map Text (TransportState Json) → Option (Text × TransportState Json)
  find_container container_name [] = none
  find_container container_name ((id, t) ∷ sessions) =
      if t.container_name == container_name
      then some (id, t)
      else find_container container_name sessions

  abbrev pub exited :
      AppState Json → Text → ℕ → Option (Text × TransportState Json) → Bool × AppState Json
  unfolding liveness_remove staging_path
  exited state container_name now none = (false, state)
  exited state container_name now (some (id, t)) =
      let ended = liveness_remove (unlist (bury state id now) id) id in
      let called =
        emit (call_teardown container_name (staging_path t.tenant_name t.staging_token))
          (emit (record_reap container_name) ended) in
      (true, emit (delete_session id) called)

  -- False is the answer 404.
  unfoldable pub handle_container_exit : AppState Json → Text → ℕ → Bool × AppState Json
  unfolding exited
  handle_container_exit state container_name now =
      exited state container_name now (find_container container_name state.transport_sessions)
