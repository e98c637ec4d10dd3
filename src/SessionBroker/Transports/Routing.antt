-- ===== src/SessionBroker/Transports/Routing.antt =====
-- What each step does to the tombstones and to the table of sessions.
use botwork.Common.{
  ℕ, ◌+◌, ◌≡◌, refl, ◌∙◌, ◌⊎◌, inl, inr, Bool, Option, none, some, List, [], ◌∷◌, arith,
  Option-cases, nat_eq, list_eq, option_eq, pair_eq,
}
use botwork.Common.Text.{Text}
use botwork.Common.Map
use botwork.Common.Map.{Map, get-insert, get-remove, get-retain, get-insert_self}
use botwork.SessionBroker.Transports.{
  AppState, TransportState, TeardownInfo, Effect, tombstone_ttl, emit_for, identity, identity_of,
  evict, set_liveness, default_liveness, liveness_remove, cancel_grace, count_down,
  schedule_grace_timer, seed_one, seed_ids, seed_startup_liveness, check_container_liveness,
  teardown_session, teardown_of, reap_session,
}

-- The two maps that decide whether a request is routed.
abbrev pub Routing : Type 0 → Type 0
Routing Json = Map Text ℕ × Map Text (TransportState Json)

module _ {Json : Type 0} where
  abbrev pub routing : AppState Json → Routing Json
  routing s = (s.tombstones, s.transport_sessions)

  emit_for-routing :
      (effect : Text × Text × Text → Effect) (who : Option (Text × Text × Text)) (s : AppState Json)
      → routing (emit_for effect who s) ≡ routing s
  emit_for-routing effect none s = refl
  emit_for-routing effect (some w) s = refl

  pub cancel-routing : (s : AppState Json) (id : Text) → routing (cancel_grace s id) ≡ routing s
  unfolding cancel_grace
  cancel-routing s id = elim (Option-cases (Map.get id s.stream_liveness)) [
    | inl absent ↦ ground (arith, absent)
    | inr (l, found) ↦ elim (Option-cases l.grace_handle) [
      | inl idle ↦ ground (arith, found, idle)
      | inr (due, pending) ↦
          ground
            (arith, found, pending, Option-cases (identity_of (Map.get id s.transport_sessions)))
    ]
  ]

  pub count_down-routing : (s : AppState Json) (id : Text) → routing (count_down s id).1 ≡ routing s
  unfolding count_down
  count_down-routing s id = elim (Option-cases (Map.get id s.stream_liveness)) [
    | inl absent ↦ ground (arith, absent)
    | inr (l, found) ↦ ground (arith, found)
  ]

  pub arm-routing :
      (s : AppState Json) (id : Text) (now : ℕ)
      → routing (schedule_grace_timer s id now) ≡ routing s
  unfolding schedule_grace_timer
  arm-routing s id now = elim (Option-cases (Map.get id s.stream_liveness)) [
    | inl absent ↦ ground (arith, absent)
    | inr (l, found) ↦ ground (arith, found)
  ]

  seed-routing :
      (ts : List (Text × TransportState Json)) (now : ℕ) (s : AppState Json)
      → routing (seed_ids ts now s) ≡ routing s
  unfolding seed_ids seed_one
  seed-routing [] now s = refl
  seed-routing ((id, t) ∷ ts) now s =
      seed-routing ts now (seed_one now id s)
      ∙ arm-routing (set_liveness id default_liveness s) id now

  pub seeds-routing :
      (s : AppState Json) (now : ℕ) → routing (seed_startup_liveness s now) ≡ routing s
  unfolding seed_startup_liveness
  seeds-routing s now = seed-routing s.transport_sessions now s

  pub asks-routing :
      (answer : Option Bool) (s : AppState Json) (name : Text) (now : ℕ)
      → routing (check_container_liveness answer s name now).1 ≡ routing s
  unfolding check_container_liveness
  asks-routing answer s name now = ground arith

  -- What an end leaves of the two maps.
  abbrev pub buried : Text → ℕ → Routing Json → Routing Json
  buried id now (m, t) = (Map.insert id (now + tombstone_ttl) m, Map.remove id t)

  pub teardown-routing :
      (s : AppState Json) (teardown : TeardownInfo) (now : ℕ)
      → routing (teardown_session s teardown now) ≡ buried teardown.mcp_session_id now (routing s)
  unfolding teardown_session liveness_remove
  teardown-routing s teardown now =
      ground
        (arith, Option-cases (identity_of (Map.get teardown.mcp_session_id s.transport_sessions)))

  pub reap-routing :
      (s : AppState Json) (id : Text) (now : ℕ)
      → (routing (reap_session s id now) ≡ routing s)
        ⊎ (routing (reap_session s id now) ≡ buried id now (routing s))
  unfolding reap_session
  reap-routing s id now = elim (Option-cases (Map.get id s.transport_sessions)) [
    | inl gone ↦ inl (ground (arith, gone))
    | inr (t, found) ↦ inr (rw (reap_session, found) (teardown-routing s (teardown_of id t) now))
  ]

  pub evict-routing :
      (s : AppState Json) (id : Text) (t : TransportState Json) (now : ℕ)
      → routing (evict s id t now) ≡ buried id now (routing s)
  unfolding liveness_remove
  evict-routing s id t now = ground (arith, Option-cases (identity t))
