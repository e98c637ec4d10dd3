-- ===== src/SessionBroker/Transports/Steps.antt =====
-- The steps of the tasks that share the state, in any order: the parts of the functions between which
-- other tasks may come, and the runs of the whole functions, which are sequences of such steps.
use botwork.Common.{
  ℕ, ◌+◌, inl, inr, Bool, Option, none, some, List, [], ◌∷◌, eqb, on_branches, Option-cases, ◌==◌,
  nat_eq, list_eq, option_eq, pair_eq,
}
use botwork.Common.Text.{Text}
use botwork.Common.Map
use botwork.Common.Map.{Map, get-insert, get-remove}
use botwork.SessionBroker.Transports.{
  AppState, TransportState, TeardownInfo, Effect, record_inactive, record_reap, call_teardown, emit,
  emit_for, identity, bury, unlist, evict, evict_all, liveness_remove, count_up, cancel_grace,
  count_down, schedule_grace_timer, liveness_bump, dropped, liveness_drop, teardown_session,
  teardown_of, reap_session, grace_expires, is_tombstoned, check_container_liveness,
  evict_sessions_for_tenant, prune_expired, seed_startup_liveness,
}

module _ {Json : Type 0} where
  infix 40 ◌⟶◌
  pub data ◌⟶◌ : ℕ × AppState Json → ℕ × AppState Json → Type 0 where
    passes : {now : ℕ} {s : AppState Json} (time : ℕ) → (now, s) ⟶ (now + time, s)
    -- a handshake completes
    installs :
        {now : ℕ} {s : AppState Json} (id : Text) (t : TransportState Json)
        → (now, s) ⟶ (now, record s { transport_sessions = Map.insert id t s.transport_sessions })
    counts_up : {now : ℕ} {s : AppState Json} (id : Text) → (now, s) ⟶ (now, count_up s id)
    cancels : {now : ℕ} {s : AppState Json} (id : Text) → (now, s) ⟶ (now, cancel_grace s id)
    counts_down : {now : ℕ} {s : AppState Json} (id : Text) → (now, s) ⟶ (now, (count_down s id).1)
    arms :
        {now : ℕ} {s : AppState Json} (id : Text) → (now, s) ⟶ (now, schedule_grace_timer s id now)
    -- a session that recovery found gets its entry
    seeds : {now : ℕ} {s : AppState Json} → (now, s) ⟶ (now, seed_startup_liveness s now)
    forgets : {now : ℕ} {s : AppState Json} (id : Text) → (now, s) ⟶ (now, liveness_remove s id)
    buries : {now : ℕ} {s : AppState Json} (id : Text) → (now, s) ⟶ (now, bury s id now)
    unlists : {now : ℕ} {s : AppState Json} (id : Text) → (now, s) ⟶ (now, unlist s id)
    emits : {now : ℕ} {s : AppState Json} (e : Effect) → (now, s) ⟶ (now, emit e s)
    asks : {now : ℕ} {s : AppState Json} (id : Text) → (now, s) ⟶ (now, (is_tombstoned s id now).1)
    inspects :
        {now : ℕ} {s : AppState Json} (answer : Option Bool) (container_name : Text)
        → (now, s) ⟶ (now, (check_container_liveness answer s container_name now).1)
    -- the sweeper's two maps
    sweeps_tombstones :
        {now : ℕ} {s : AppState Json}
        → (now, s) ⟶ (now, record s { tombstones = (prune_expired s.tombstones now).1 })
    sweeps_cache :
        {now : ℕ} {s : AppState Json}
        → (now, s) ⟶ (now, record s { liveness_cache = (prune_expired s.liveness_cache now).1 })

  infix 40 ◌⟶*◌
  pub data ◌⟶*◌ : ℕ × AppState Json → ℕ × AppState Json → Type 0 where
    here : {m : ℕ × AppState Json} → m ⟶* m
    after : {m n o : ℕ × AppState Json} → m ⟶ n → n ⟶* o → m ⟶* o

  joined : {m n o : ℕ × AppState Json} → m ⟶* n → n ⟶* o → m ⟶* o
  joined here rest = rest
  joined (after step run) rest = after step (joined run rest)

  emits_for :
      {now : ℕ} (effect : Text × Text × Text → Effect) (who : Option (Text × Text × Text))
      (s : AppState Json)
      → (now, s) ⟶* (now, emit_for effect who s)
  emits_for effect none s = here
  emits_for effect (some w) s = after (emits (effect w)) here

  pub opens : {now : ℕ} (s : AppState Json) (id : Text) → (now, s) ⟶* (now, liveness_bump s id)
  unfolding liveness_bump
  opens s id = after (counts_up id) (after (cancels id) here)

  closed :
      {now : ℕ} (id : Text) (before : Option ℕ) (s : AppState Json)
      → (now, s) ⟶* (now, dropped id now (before, s))
  unfolding dropped
  closed id none s = here
  closed {now = now} id (some n) s =
      on_branches (λ (end : AppState Json). (now, s) ⟶* (now, end)) (eqb n 1)
        (joined (emits_for _ _ s) (after (arms id) here)) here

  pub closes : {now : ℕ} (s : AppState Json) (id : Text) → (now, s) ⟶* (now, liveness_drop s id now)
  unfolding liveness_drop
  closes s id = after (counts_down id) (closed id (count_down s id).0 (count_down s id).1)

  pub tears_down :
      {now : ℕ} (s : AppState Json) (teardown : TeardownInfo)
      → (now, s) ⟶* (now, teardown_session s teardown now)
  unfolding teardown_session
  tears_down s teardown = after (forgets teardown.mcp_session_id) (
      after (emits (call_teardown teardown.container_name teardown.staging_path)) (
        after (buries teardown.mcp_session_id) (
          after (unlists teardown.mcp_session_id) (
            joined (emits_for record_inactive _ _)
              (after (emits (record_reap teardown.container_name)) here)))))

  reaps : {now : ℕ} (s : AppState Json) (id : Text) → (now, s) ⟶* (now, reap_session s id now)
  unfolding reap_session
  reaps s id = elim (Option-cases (Map.get id s.transport_sessions)) [
    | inl gone ↦ rw (reap_session, gone) here
    | inr (t, found) ↦ rw (reap_session, found) (tears_down s (teardown_of id t))
  ]

  pub fires : {now : ℕ} (s : AppState Json) (id : Text) → (now, s) ⟶* (now, grace_expires s id now)
  unfolding grace_expires liveness_remove
  fires s id = after (forgets id) (reaps _ id)

  pub evicts :
      {now : ℕ} (s : AppState Json) (id : Text) (t : TransportState Json)
      → (now, s) ⟶* (now, evict s id t now)
  evicts s id t = after (forgets id) (
      after (buries id) (
        after (unlists id) (
          after (emits (call_teardown t.container_name _)) (
            joined (emits_for record_inactive (identity t) _)
              (after (emits (record_reap t.container_name)) here)))))

  evicts_all :
      {now : ℕ} (ts : List (Text × TransportState Json)) (s : AppState Json)
      → (now, s) ⟶* (now, evict_all ts now s)
  evicts_all [] s = here
  evicts_all ((id, t) ∷ ts) s = joined (evicts s id t) (evicts_all ts _)

  pub evicts_tenant :
      {now : ℕ} (s : AppState Json) (tenant : Text)
      → (now, s) ⟶* (now, (evict_sessions_for_tenant s tenant now).1)
  unfolding evict_sessions_for_tenant
  evicts_tenant s tenant =
      evicts_all (Map.retain (λ _ t. t.tenant_name == tenant) s.transport_sessions) s
