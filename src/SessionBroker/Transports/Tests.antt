-- ===== src/SessionBroker/Transports/Tests.antt =====
-- Two sessions of one tenant and one of another.
use botwork.Common.{
  ℕ, ◌+◌, ◌≡◌, refl, true, false, none, some, [], ◌∷◌, nat_eq, list_eq, option_eq, pair_eq,
}
use botwork.Common.Text.{Text, bytes, parse_unsigned}
use botwork.Common.Map
use botwork.SessionBroker.Routes.{no_auth}
use botwork.SessionBroker.Transports.{
  AppState, TransportState, tombstone_ttl, sweeper_interval_from, prune_expired, count_up,
  cancel_grace, count_down, liveness_bump, liveness_drop, schedule_grace_timer, grace_expires,
  reap_session, teardown_session, liveness_remove, is_tombstoned, evict_sessions_for_tenant,
}
use botwork.SessionBroker.Transports.Timers.{IsReaped, closed-IsReaped}
use botwork.SessionBroker.Exits.{handle_container_exit}
use botwork.SessionBroker.Transports.Evictions.{evict_sessions_for_tenant_lem}

abbrev transport : TransportState ℕ
transport = record {
  container_name = bytes "mcp_session_a";
  container_ip = bytes "10.0.0.1";
  staging_token = bytes "ab";
  tenant_name = bytes "acme";
  workspace = bytes "main";
  plugin_name = bytes "fetch";
  port = 8000;
  path = bytes "/mcp";
  upstream_auth = no_auth;
  upstream_authorization = none;
  agent_id = some (bytes "goose");
  egress_policy = none;
}

abbrev state : AppState ℕ
state = record {
  transport_sessions =
      (bytes "m1", transport)
      ∷ (
        bytes "m2",
        record transport { tenant_name = bytes "zeta"; container_name = bytes "mcp_session_b" },
      )
      ∷ [];
  tombstones = (bytes "old", 5) ∷ [];
  liveness_cache = [];
  stream_liveness = [];
  disconnect_grace = 30;
  effects = [];
}

transports : Unit {0}
unfolding parse_unsigned sweeper_interval_from prune_expired count_up cancel_grace count_down
    liveness_bump liveness_drop handle_container_exit schedule_grace_timer grace_expires
    reap_session teardown_session liveness_remove is_tombstoned evict_sessions_for_tenant
transports = tt

interval_runs :
    (sweeper_interval_from (some (bytes "15")) ≡ 15)
    × (sweeper_interval_from (some (bytes "0")) ≡ 60)
    × (sweeper_interval_from (some (bytes "x")) ≡ 60)
unfolding transports
interval_runs = (refl, refl, refl)

abbrev m1 : Text
m1 = bytes "m1"

abbrev one_open : AppState ℕ
one_open = record state {
  stream_liveness = (m1, record { open_streams = 1; grace_handle = none }) ∷ [];
}

abbrev idle : AppState ℕ
idle = liveness_drop one_open m1 7

opens_one : (liveness_bump state m1).stream_liveness ≡ one_open.stream_liveness
unfolding transports
opens_one = refl

-- A stream that opens between the two parts of a close keeps the timer from being armed.
opened_meanwhile :
    (schedule_grace_timer (count_up (count_down one_open m1).1 m1) m1 7).stream_liveness
    ≡ one_open.stream_liveness
unfolding transports
opened_meanwhile = refl

exit_runs :
    ((handle_container_exit state (bytes "mcp_session_b") 9).0 ≡ true)
    × (Map.get
          (bytes "m2")
          (handle_container_exit state (bytes "mcp_session_b") 9).1.transport_sessions
        ≡ none)
    × ((handle_container_exit state (bytes "mcp_session_c") 9).0 ≡ false)
unfolding transports
exit_runs = (refl, refl, refl)

prunes : prune_expired state.tombstones 5 ≡ (1, [])
unfolding transports
prunes = refl

closed-IsReaped_example :
    (Map.get m1 idle.stream_liveness ≡ some (record { open_streams = 0; grace_handle = some 37 }))
    × IsReaped (grace_expires idle m1 37) m1 transport 37
    × (Map.get m1 (liveness_bump idle m1).stream_liveness
        ≡ some (record { open_streams = 1; grace_handle = none }))
    × ((liveness_bump idle m1).transport_sessions ≡ one_open.transport_sessions)
closed-IsReaped_example =
    closed-IsReaped one_open m1 transport (record { open_streams = 1; grace_handle = none }) 7 refl
      refl refl

evict_sessions_for_tenant_lem_example :
    (Map.get m1 (evict_sessions_for_tenant state (bytes "acme") 9).1.transport_sessions ≡ none)
    × (Map.get m1 (evict_sessions_for_tenant state (bytes "acme") 9).1.tombstones
        ≡ some (9 + tombstone_ttl))
evict_sessions_for_tenant_lem_example =
    evict_sessions_for_tenant_lem state (bytes "acme") m1 9 (refl, (refl, tt))
