-- ===== src/SessionBroker/Exits/Runs.antt =====
-- The exit of a container is a run of the steps of `Transports.Steps`.
use botwork.Common.{ℕ, Option, none, some, nat_eq, list_eq, option_eq, pair_eq}
use botwork.Common.Text.{Text}
use botwork.SessionBroker.Routes.{staging_path}
use botwork.SessionBroker.Transports.{
  AppState, TransportState, call_teardown, record_reap, delete_session,
}
use botwork.SessionBroker.Transports.Steps.{◌⟶*◌, forgets, buries, unlists, emits, here, after}
use botwork.SessionBroker.Exits.{exited, find_container, handle_container_exit}

module _ {Json : Type 0} where
  exited_runs :
      {now : ℕ} (s : AppState Json) (name : Text) (found : Option (Text × TransportState Json))
      → (now, s) ⟶* (now, (exited s name now found).1)
  unfolding exited
  exited_runs s name none = here
  exited_runs s name (some (id, t)) = after (buries id) (
      after (unlists id) (
        after (forgets id) (
          after (emits (record_reap name)) (
            after (emits (call_teardown name (staging_path t.tenant_name t.staging_token)))
              (after (emits (delete_session id)) here)))))

  exits :
      {now : ℕ} (s : AppState Json) (name : Text)
      → (now, s) ⟶* (now, (handle_container_exit s name now).1)
  unfolding handle_container_exit
  exits s name = exited_runs s name (find_container name s.transport_sessions)
