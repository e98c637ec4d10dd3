-- ===== src/SessionBroker/Transports.antt =====
-- session-broker/src/ext_proc.rs, the sessions that the broker routes to: the count of open streams
-- with the grace timer of each session, the tombstones, the cache of running containers, and the
-- ways in which a session ends (lib.rs has the state, sweeper.rs the sweeps). An instant is a number, a
-- timer is the moment when it fires, and what is asked of the launcher, of control-plane and of the
-- database writers (which are there in production) is kept as a list, latest first. Where other
-- tasks may come between, the parts of a function are functions too.
pub mod Steps
pub mod Timers
pub mod Routing
pub mod Tombstones
pub mod Evictions
mod Tests
use botwork.Common.{
  ℕ, ◌+◌, ◌-◌, ◌*◌, ◌%◌, ◌^◌, Bool, true, false, Option, none, some, List, [], ◌∷◌, map, ltb, eqb,
  if◌then◌else◌, length, ◌==◌, nat_eq, list_eq, option_eq, pair_eq,
}
use botwork.Common.Text.{Text, parse_unsigned}
use botwork.Common.Map
use botwork.Common.Map.{Map}
use botwork.SessionBroker.Routes.{UpstreamAuth, staging_path}

pub record TransportState (Json : Type 0) : Type 0 where
  pub container_name : Text
  pub container_ip : Text
  pub staging_token : Text
  pub tenant_name : Text
  pub workspace : Text
  pub plugin_name : Text
  pub port : ℕ
  pub path : Text
  pub upstream_auth : UpstreamAuth
  pub upstream_authorization : Option Text
  pub agent_id : Option Text
  pub egress_policy : Option Json

pub record SessionLiveness : Type 0 where
  pub open_streams : ℕ
  pub grace_handle : Option ℕ

pub record TeardownInfo : Type 0 where
  pub mcp_session_id : Text
  pub container_name : Text
  pub staging_path : Text

-- The launcher tears a container down; the rows of agent sessions and of workers change;
-- control-plane forgets a session.
pub data Effect : Type 0 where
  call_teardown : Text → Text → Effect
  record_bind_agent record_grace record_inactive : Text × Text × Text → Effect
  record_reap delete_session : Text → Effect

pub record AppState (Json : Type 0) : Type 0 where
  pub transport_sessions : Map Text (TransportState Json)
  pub tombstones : Map Text ℕ
  pub liveness_cache : Map Text ℕ
  pub stream_liveness : Map Text SessionLiveness
  pub disconnect_grace : ℕ
  pub effects : List Effect

-- In nanoseconds.
abbrev pub tombstone_ttl : ℕ
tombstone_ttl = 300 * 1000000000

abbrev pub liveness_ttl : ℕ
liveness_ttl = 300 * 1000000000

abbrev pub usize_mod : ℕ
usize_mod = 2 ^ 64

abbrev pub default_sweeper_interval_secs : ℕ
default_sweeper_interval_secs = 60

abbrev pub positive_or : ℕ → Option ℕ → ℕ
positive_or fallback none = fallback
positive_or fallback (some n) = if ltb 0 n then n else fallback

-- In seconds.
unfoldable pub sweeper_interval_from : Option Text → ℕ
sweeper_interval_from none = default_sweeper_interval_secs
sweeper_interval_from (some raw) =
    positive_or default_sweeper_interval_secs (parse_unsigned (2 ^ 64) raw)

unfoldable pub prune_expired : Map Text ℕ → ℕ → ℕ × Map Text ℕ
prune_expired map now =
    let kept = Map.retain (λ _ expires_at. ltb now expires_at) map in
    (length map - length kept, kept)

abbrev pub default_liveness : SessionLiveness
default_liveness = record { open_streams = 0; grace_handle = none }

abbrev pub or_default : Option SessionLiveness → SessionLiveness
or_default none = default_liveness
or_default (some liveness) = liveness

abbrev pub is_cached : Option ℕ → ℕ → Bool
is_cached none now = false
is_cached (some expires_at) now = ltb now expires_at

-- Where docker does not answer, the container counts as running.
abbrev pub unwrap_or_true : Option Bool → Bool
unwrap_or_true none = true
unwrap_or_true (some is_running) = is_running

module _ {Json : Type 0} where
  -- The agent session that the transport is bound to, if any.
  abbrev pub identity : TransportState Json → Option (Text × Text × Text)
  identity t = elim t.agent_id [
    | none ↦ none
    | some agent_id ↦ some (t.tenant_name, t.workspace, agent_id)
  ]

  abbrev pub identity_of : Option (TransportState Json) → Option (Text × Text × Text)
  identity_of none = none
  identity_of (some t) = identity t

  abbrev pub emit : Effect → AppState Json → AppState Json
  emit e state = record state { effects = e ∷ state.effects }

  abbrev pub emit_for :
      (Text × Text × Text → Effect) → Option (Text × Text × Text) → AppState Json → AppState Json
  emit_for effect none state = state
  emit_for effect (some who) state = emit (effect who) state

  abbrev pub set_liveness : Text → SessionLiveness → AppState Json → AppState Json
  set_liveness id liveness state = record state {
    stream_liveness = Map.insert id liveness state.stream_liveness;
  }

  unfoldable pub liveness_remove : AppState Json → Text → AppState Json
  liveness_remove state id = record state { stream_liveness = Map.remove id state.stream_liveness }

  -- `fetch_add`
  unfoldable pub count_up : AppState Json → Text → AppState Json
  count_up state id =
      let liveness = or_default (Map.get id state.stream_liveness) in
      set_liveness id (record liveness { open_streams = (liveness.open_streams + 1) % usize_mod })
        state

  abbrev pub cancelled : AppState Json → Text → SessionLiveness → AppState Json
  cancelled state id liveness = elim liveness.grace_handle [
    | none ↦ state
    | some handle ↦
        emit_for record_bind_agent (identity_of (Map.get id state.transport_sessions))
          (set_liveness id (record liveness { grace_handle = none }) state)
  ]

  -- A grace timer that was armed is cancelled, and the agent session is active again.
  unfoldable pub cancel_grace : AppState Json → Text → AppState Json
  cancel_grace state id = elim (Map.get id state.stream_liveness) [
    | none ↦ state
    | some liveness ↦ cancelled state id liveness
  ]

  -- One run, without other tasks between its two parts.
  unfoldable pub liveness_bump : AppState Json → Text → AppState Json
  unfolding count_up cancel_grace
  liveness_bump state id = cancel_grace (count_up state id) id

  abbrev pub armed : AppState Json → Text → SessionLiveness → ℕ → AppState Json
  armed state id liveness now =
      if ltb 0 liveness.open_streams
      then state
      else set_liveness id (record liveness { grace_handle = some (now + state.disconnect_grace) })
          state

  -- A timer is armed unless a stream was opened meanwhile. The lock is held over both.
  unfoldable pub schedule_grace_timer : AppState Json → Text → ℕ → AppState Json
  schedule_grace_timer state id now = elim (Map.get id state.stream_liveness) [
    | none ↦ state
    | some liveness ↦ armed state id liveness now
  ]

  abbrev pub counted_down : AppState Json → Text → SessionLiveness → Option ℕ × AppState Json
  counted_down state id liveness = if eqb liveness.open_streams 0 then (none, state) else (
    some liveness.open_streams,
    set_liveness id (record liveness { open_streams = liveness.open_streams - 1 }) state,
  )

  -- `fetch_update`, with the count before it.
  unfoldable pub count_down : AppState Json → Text → Option ℕ × AppState Json
  count_down state id = elim (Map.get id state.stream_liveness) [
    | none ↦ (none, state)
    | some liveness ↦ counted_down state id liveness
  ]

  abbrev pub mark_grace : AppState Json → Text → AppState Json
  mark_grace state id =
      emit_for record_grace (identity_of (Map.get id state.transport_sessions)) state

  abbrev pub dropped : Text → ℕ → Option ℕ × AppState Json → AppState Json
  unfolding schedule_grace_timer
  dropped id now (none, state) = state
  dropped id now (some before, state) =
      if eqb before 1 then schedule_grace_timer (mark_grace state id) id now else state

  -- One run, without other tasks between its parts.
  unfoldable pub liveness_drop : AppState Json → Text → ℕ → AppState Json
  unfolding count_down schedule_grace_timer
  liveness_drop state id now = dropped id now (count_down state id)

  abbrev pub bury : AppState Json → Text → ℕ → AppState Json
  bury state id now = record state {
    tombstones = Map.insert id (now + tombstone_ttl) state.tombstones;
  }

  abbrev pub unlist : AppState Json → Text → AppState Json
  unlist state id = record state { transport_sessions = Map.remove id state.transport_sessions }

  unfoldable pub teardown_session : AppState Json → TeardownInfo → ℕ → AppState Json
  unfolding liveness_remove
  teardown_session state teardown now =
      let id = teardown.mcp_session_id in
      let who = identity_of (Map.get id state.transport_sessions) in
      let called =
        emit (call_teardown teardown.container_name teardown.staging_path)
          (liveness_remove state id) in
      let written = emit_for record_inactive who (unlist (bury called id now) id) in
      emit (record_reap teardown.container_name) written

  abbrev pub teardown_of : Text → TransportState Json → TeardownInfo
  teardown_of id t = record {
    mcp_session_id = id;
    container_name = t.container_name;
    staging_path = staging_path t.tenant_name t.staging_token;
  }

  unfoldable pub reap_session : AppState Json → Text → ℕ → AppState Json
  unfolding teardown_session
  reap_session state id now = elim (Map.get id state.transport_sessions) [
    | none ↦ state
    | some t ↦ teardown_session state (teardown_of id t) now
  ]

  -- What an armed timer does when it fires: it takes its entry out, so that the teardown does not
  -- cancel the task that runs it.
  unfoldable pub grace_expires : AppState Json → Text → ℕ → AppState Json
  unfolding reap_session
  grace_expires state id now =
      reap_session (record state { stream_liveness = Map.remove id state.stream_liveness }) id now

  abbrev pub seed_one : ℕ → Text → AppState Json → AppState Json
  unfolding schedule_grace_timer
  seed_one now id state = schedule_grace_timer (set_liveness id default_liveness state) id now

  abbrev pub seed_ids : List (Text × TransportState Json) → ℕ → AppState Json → AppState Json
  unfolding seed_one
  seed_ids [] now state = state
  seed_ids ((id, t) ∷ sessions) now state = seed_ids sessions now (seed_one now id state)

  unfoldable pub seed_startup_liveness : AppState Json → ℕ → AppState Json
  unfolding schedule_grace_timer seed_ids
  seed_startup_liveness state now = seed_ids state.transport_sessions now state

  -- An expired tombstone is removed.
  unfoldable pub is_tombstoned : AppState Json → Text → ℕ → Bool × AppState Json
  is_tombstoned state id now = elim (Map.get id state.tombstones) [
    | none ↦ (false, state)
    | some expires_at ↦
        if ltb now expires_at
        then (true, state)
        else (false, record state { tombstones = Map.remove id state.tombstones })
  ]

  -- `inspected` is docker's answer.
  unfoldable pub check_container_liveness :
      Option Bool → AppState Json → Text → ℕ → Bool × AppState Json
  check_container_liveness inspected state container_name now =
      if is_cached (Map.get container_name state.liveness_cache) now
      then (true, state)
      else if unwrap_or_true inspected
      then (
        true,
        record state {
          liveness_cache = Map.insert container_name (now + liveness_ttl) state.liveness_cache;
        },
      )
      else (false, state)

  -- The routing table forgets the session at once; the launcher and the database follow.
  abbrev pub evict : AppState Json → Text → TransportState Json → ℕ → AppState Json
  evict state id t now =
      let buried = unlist (bury (liveness_remove state id) id now) id in
      let called =
        emit (call_teardown t.container_name (staging_path t.tenant_name t.staging_token)) buried in
      emit (record_reap t.container_name) (emit_for record_inactive (identity t) called)

  unfoldable pub evict_dead_session : AppState Json → Text → TransportState Json → ℕ → AppState Json
  unfolding liveness_remove
  evict_dead_session state id t now = evict state id t now

  abbrev pub evict_all : List (Text × TransportState Json) → ℕ → AppState Json → AppState Json
  evict_all [] now state = state
  evict_all ((id, t) ∷ to_evict) now state = evict_all to_evict now (evict state id t now)

  unfoldable pub evict_sessions_for_tenant : AppState Json → Text → ℕ → ℕ × AppState Json
  unfolding liveness_remove
  evict_sessions_for_tenant state tenant now =
      let to_evict = Map.retain (λ _ t. t.tenant_name == tenant) state.transport_sessions in
      (length to_evict, evict_all to_evict now state)
