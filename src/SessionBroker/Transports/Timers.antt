-- ===== src/SessionBroker/Transports/Timers.antt =====
-- The life of a session's grace timer, where the functions run one after another.
use botwork.Common.{
  ℕ, ◌+◌, ◌-◌, ◌≡◌, refl, ap, ◌∙◌, inl, inr, Bool, true, false, ◌&&◌, none, some, arith,
  Option-cases, any, ◌==◌, nat_eq, list_eq, option_eq, pair_eq,
}
use botwork.Common.Text.{Text, text_iff}
use botwork.Common.Map
use botwork.Common.Map.{Map, get-insert, get-remove, get-insert_self, get-remove_self}
use botwork.SessionBroker.Routes.{staging_path}
use botwork.SessionBroker.Transports.{
  AppState, TransportState, SessionLiveness, Effect, call_teardown, record_bind_agent, record_grace,
  record_inactive, record_reap, delete_session, tombstone_ttl, set_liveness, identity_of, count_up,
  cancel_grace, count_down, mark_grace, schedule_grace_timer, liveness_bump, liveness_drop,
  liveness_remove, teardown_session, teardown_of, reap_session, grace_expires,
}
use botwork.SessionBroker.Transports.Routing.{teardown-routing}

abbrev pub is_teardown : Text → Text → Effect → Bool
is_teardown name path (call_teardown n p) = n == name && p == path
is_teardown name path (record_bind_agent who) = false
is_teardown name path (record_grace who) = false
is_teardown name path (record_inactive who) = false
is_teardown name path (record_reap n) = false
is_teardown name path (delete_session id) = false

abbrev timed : ℕ → ℕ → SessionLiveness
timed n due = record { open_streams = n; grace_handle = some due }

module _ {Json : Type 0} where
  armed_lem :
      (s : AppState Json) (id : Text) (l : SessionLiveness) (now : ℕ)
      → Map.get id s.stream_liveness ≡ some l
      → l.open_streams ≡ 0
      → schedule_grace_timer (mark_grace s id) id now
        ≡ set_liveness id
            (record l { grace_handle = some (now + s.disconnect_grace) })
            (mark_grace s id)
  unfolding schedule_grace_timer
  armed_lem s id l now found idle =
      elim (Option-cases (identity_of (Map.get id s.transport_sessions))) [
        | inl unbound ↦ ground (arith, unbound, found, idle)
        | inr (who, bound) ↦ ground (arith, bound, found, idle)
      ]

  -- The state in which the last stream of a session leaves it.
  abbrev idle_state : AppState Json → Text → SessionLiveness → ℕ → AppState Json
  idle_state s id l now =
      let counted : SessionLiveness = record l { open_streams = l.open_streams - 1 } in
      set_liveness id (record counted { grace_handle = some (now + s.disconnect_grace) })
        (mark_grace (set_liveness id counted s) id)

  drop_last :
      (s : AppState Json) (id : Text) (l : SessionLiveness) (now : ℕ)
      → Map.get id s.stream_liveness ≡ some l
      → l.open_streams ≡ 1
      → liveness_drop s id now ≡ idle_state s id l now
  unfolding liveness_drop count_down
  drop_last s id l now found one =
      let counted : SessionLiveness = record l { open_streams = l.open_streams - 1 } in
      ground (
        arith,
        found,
        one,
        armed_lem (set_liveness id counted s) id counted now
            (get-insert_self id counted s.stream_liveness) (omega (arith, one)),
      )

  idle-entry :
      (s : AppState Json) (id : Text) (l : SessionLiveness) (now : ℕ)
      → l.open_streams ≡ 1
      → Map.get id (idle_state s id l now).stream_liveness
        ≡ some (record { open_streams = 0; grace_handle = some (now + s.disconnect_grace) })
  idle-entry s id l now one =
      get-insert_self id _ _
      ∙ ap (λ n. some (timed n (now + s.disconnect_grace))) (omega (arith, one))

  idle-listed :
      (s : AppState Json) (id : Text) (l : SessionLiveness) (now : ℕ)
      → (idle_state s id l now).transport_sessions ≡ s.transport_sessions
  idle-listed s id l now =
      ground (arith, Option-cases (identity_of (Map.get id s.transport_sessions)))

  teardown-effects :
      (s : AppState Json) (id : Text) (t : TransportState Json) (due : ℕ)
      → any
          (is_teardown t.container_name (staging_path t.tenant_name t.staging_token))
          (teardown_session s (teardown_of id t) due).effects
        ≡ true
  unfolding teardown_session
  teardown-effects s id t due = ground (
    arith,
    Option-cases (identity_of (Map.get id s.transport_sessions)),
    text_iff t.container_name t.container_name,
    text_iff (staging_path t.tenant_name t.staging_token)
        (staging_path t.tenant_name t.staging_token),
  )

  teardown-entry :
      (s : AppState Json) (id : Text) (t : TransportState Json) (due : ℕ)
      → Map.get id (teardown_session s (teardown_of id t) due).stream_liveness ≡ none
  unfolding teardown_session liveness_remove
  teardown-entry s id t due = ground (
    arith,
    Option-cases (identity_of (Map.get id s.transport_sessions)),
    get-remove_self id s.stream_liveness,
  )

  -- What a teardown leaves of a session.
  abbrev pub IsReaped : AppState Json → Text → TransportState Json → ℕ → Type 0
  IsReaped s id t due =
      (Map.get id s.transport_sessions ≡ none)
      × (Map.get id s.tombstones ≡ some (due + tombstone_ttl))
      × (Map.get id s.stream_liveness ≡ none)
      × (any (is_teardown t.container_name (staging_path t.tenant_name t.staging_token)) s.effects
          ≡ true)

  grace-IsReaped :
      (s : AppState Json) (id : Text) (t : TransportState Json) (due : ℕ)
      → Map.get id s.transport_sessions ≡ some t
      → IsReaped (grace_expires s id due) id t due
  unfolding grace_expires reap_session
  grace-IsReaped s id t due listed =
      let s' : AppState Json = record s { stream_liveness = Map.remove id s.stream_liveness } in
      let effect = teardown-routing s' (teardown_of id t) due in
      rw (reap_session, listed)
        (
          rw (ap (λ r. r.1) effect) (get-remove_self id s.transport_sessions),
          rw (ap (λ r. r.0) effect) (get-insert_self id (due + tombstone_ttl) s.tombstones),
          teardown-entry s' id t due,
          teardown-effects s' id t due,
        )

  reopened :
      (s : AppState Json) (id : Text) (due : ℕ)
      → Map.get id s.stream_liveness ≡ some (record { open_streams = 0; grace_handle = some due })
      → (Map.get id (liveness_bump s id).stream_liveness
          ≡ some (record { open_streams = 1; grace_handle = none }))
        × ((liveness_bump s id).transport_sessions ≡ s.transport_sessions)
  unfolding liveness_bump count_up cancel_grace
  reopened s id due found =
      let self : (id == id) ≡ true = (text_iff id id).1 refl in
      ground (arith, found, self, Option-cases (identity_of (Map.get id s.transport_sessions)))

  -- When the last stream of a listed session closes, its timer is set to the end of the grace period.
  -- If nothing else happens until then, the timer takes the session out of the table, puts a
  -- tombstone of 300 seconds on it, and has the launcher asked to tear down its container and its
  -- staging directory. If a stream is opened first, no timer is left, one stream is counted, and the
  -- table is as it was. The functions run one after another, without other tasks between their
  -- parts.
  pub closed-IsReaped :
      (s : AppState Json) (id : Text) (t : TransportState Json) (l : SessionLiveness) (now : ℕ)
      → Map.get id s.transport_sessions ≡ some t
      → Map.get id s.stream_liveness ≡ some l
      → l.open_streams ≡ 1
      → let idle = liveness_drop s id now in
        let due = now + s.disconnect_grace in
        (Map.get id idle.stream_liveness
          ≡ some (record { open_streams = 0; grace_handle = some due }))
        × IsReaped (grace_expires idle id due) id t due
        × (Map.get id (liveness_bump idle id).stream_liveness
            ≡ some (record { open_streams = 1; grace_handle = none }))
        × ((liveness_bump idle id).transport_sessions ≡ s.transport_sessions)
  closed-IsReaped s id t l now listed found one =
      let due = now + s.disconnect_grace in
      let idle = idle_state s id l now in
      let counted = idle-entry s id l now one in
      let table = idle-listed s id l now in
      let (open_again, kept) = reopened idle id due counted in
      rw (drop_last s id l now found one) (
        counted,
        grace-IsReaped idle id t due (ap (λ m. Map.get id m) table ∙ listed),
        open_again,
        kept ∙ table,
      )
