-- ===== src/SessionBroker/Workers/Reaping.antt =====
-- A reaped container is gone for good (session-broker/src/session_worker.rs).
use botwork.Common.{
  ℕ, ◌≤◌, ◌<◌, ◌≡◌, refl, inl, inr, Bool, true, false, not, ◌&&◌, none, some, List, [], ◌∷◌, map,
  arith, on_branches, Option-cases, is_some, any, count, any-map-false, any_of_both, filter, ◌==◌,
  nat_eq, list_eq, option_eq, pair_eq, ok, Result-cases,
}
use botwork.Common.Text.{Text}
use botwork.Common.Database.{Table, set_where}
use botwork.SessionBroker.Workers.{
  Worker, LiveWorker, Write, is_named, has_id, is_live, set_mcp_session_id, set_agent_session_id,
  set_reaped_at, live_worker, spawned, record_spawn_inner, find_by_container_name, update,
  record_mcp_session_id_inner, record_agent_binding_inner, record_reap_inner, mark_reaped,
  list_live,
}

-- The writes of the other handlers, failed ones included. A reap whose UPDATE comes some time after
-- its SELECT is `marks`, of any id.
pub data Request : Type 0 where
  spawns : ℕ → ℕ → Text → Text → ℕ → Request
  names_session : Text → Text → Request
  binds_agent : Text → ℕ → Request
  reaps : Text → ℕ → Request
  marks : ℕ → ℕ → Request

-- Container names are random: the name of a reaped container does not come back.
abbrev pub NeverSpawned : Text → List Request → Type 0
NeverSpawned name [] = Unit
NeverSpawned name (spawns plugin_id id n ip now ∷ requests) =
    ((n == name) ≡ false) × NeverSpawned name requests
NeverSpawned name (names_session n mcp ∷ requests) = NeverSpawned name requests
NeverSpawned name (binds_agent n agent ∷ requests) = NeverSpawned name requests
NeverSpawned name (reaps n now ∷ requests) = NeverSpawned name requests
NeverSpawned name (marks id now ∷ requests) = NeverSpawned name requests

abbrev is_up : Text → Worker → Bool
is_up name w = is_named name w && is_live w

-- No row of the name is live.
abbrev pub IsDown : Text → List Worker → Type 0
IsDown name rs = any (is_up name) rs ≡ false

-- Marking the one row of a name.
reaped-IsDown :
    (name : Text) (id now : ℕ) (rs : List Worker)
    → any (λ w. is_named name w && not (has_id id w)) rs ≡ false
    → IsDown name (map (set_where (has_id id) (set_reaped_at now)) rs)
reaped-IsDown name id now [] alone = refl
reaped-IsDown name id now (w ∷ rs) alone = ground (arith, reaped-IsDown name id now rs)

down_names :
    (name : Text) (rs : List Worker)
    → IsDown name rs
    → any (λ w. w.container_name == name) (map live_worker (filter is_live rs)) ≡ false
down_names name [] h = refl
down_names name (w ∷ rs) h = ground (arith, down_names name rs)

at_most_one : (b : Bool) (n : ℕ) → (b ≡ true → 1 < n) → n ≤ 1 → b ≡ false
at_most_one true n f h = ground (arith, f refl)
at_most_one false n f h = refl

module _ (table : Table Worker) where
  open table use {Db, DbErr, rows}

  abbrev pub step : Request → Db → Db
  step (spawns plugin_id id name ip now) db =
      (record_spawn_inner table (ok (some plugin_id)) [] id name ip now db).1
  step (names_session name mcp) db = (record_mcp_session_id_inner table name mcp db).1
  step (binds_agent name agent) db = (record_agent_binding_inner table name agent db).1
  step (reaps name now) db = (record_reap_inner table name now db).1
  step (marks id now) db = (mark_reaped table id now db).1

  abbrev pub run : List Request → Db → Db
  run [] db = db
  run (request ∷ requests) db = run requests (step request db)

  update-IsDown :
      (name : Text) (f : Worker → Worker) (id : ℕ) (db : Db)
      → ((w : Worker) → is_up name w ≡ false → is_up name (f w) ≡ false)
      → IsDown name (rows db)
      → IsDown name (rows (update table f id db).1)
  update-IsDown name f id db keeps h =
      let kept =
        any-map-false (is_up name) (set_where (has_id id) f) (rows db)
          (λ w g. on_branches (λ v. is_up name v ≡ false) (has_id id w) (keeps w g) g) h in
      elim (table.update_many-rows f (has_id id) db) [ inl e ↦ rw e h | inr e ↦ rw e kept ]

  step-IsDown :
      (name : Text) (request : Request) (requests : List Request) (db : Db)
      → NeverSpawned name (request ∷ requests)
      → IsDown name (rows db)
      → IsDown name (rows (step request db)) × NeverSpawned name requests
  unfolding record_spawn_inner record_mcp_session_id_inner record_agent_binding_inner
      record_reap_inner
  step-IsDown name (spawns plugin_id id n ip now) requests db fresh h =
      let w = spawned id plugin_id n ip now in
      (
        elim (table.insert-rows w db) [
          | inl e ↦ rw e h
          | inr e ↦ rw e (ground (arith, h, fresh.0))
        ],
        fresh.1,
      )
  step-IsDown name (names_session n mcp) requests db fresh h = (
    elim (Result-cases (find_by_container_name table n db)) [
      | inl (w, e) ↦ rw (step, e) (update-IsDown name (set_mcp_session_id mcp) w.id db (λ v g. g) h)
      | inr (failure, e) ↦ rw (step, e) h
    ],
    fresh,
  )
  step-IsDown name (binds_agent n agent) requests db fresh h = (
    elim (Result-cases (find_by_container_name table n db)) [
      | inl (w, e) ↦
          rw (step, e) (update-IsDown name (set_agent_session_id agent) w.id db (λ v g. g) h)
      | inr (failure, e) ↦ rw (step, e) h
    ],
    fresh,
  )
  step-IsDown name (reaps n now) requests db fresh h = (
    elim (Result-cases (find_by_container_name table n db)) [
      | inl (w, e) ↦
          rw (step, e)
            (on_branches (λ (result : Write table). IsDown name (rows result.1))
              (is_some w.reaped_at) h
              (update-IsDown name (set_reaped_at now) w.id db (λ v g. ground arith) h))
      | inr (failure, e) ↦ rw (step, e) h
    ],
    fresh,
  )
  step-IsDown name (marks id now) requests db fresh h =
      (update-IsDown name (set_reaped_at now) id db (λ v g. ground arith) h, fresh)

  run-IsDown :
      (name : Text) (requests : List Request) (db : Db)
      → NeverSpawned name requests
      → IsDown name (rows db)
      → IsDown name (rows (run requests db))
  run-IsDown name [] db fresh h = h
  run-IsDown name (request ∷ requests) db fresh h =
      let (h', fresh') = step-IsDown name request requests db fresh h in
      run-IsDown name requests (step request db) fresh' h'

  reap-IsDown :
      (name : Text) (now : ℕ) (db : Db)
      → count (is_named name) (rows db) ≤ 1
      → (record_reap_inner table name now db).0 ≡ ok tt
      → IsDown name (rows (record_reap_inner table name now db).1)
  unfolding record_reap_inner find_by_container_name
  reap-IsDown name now db unique h = elim (Result-cases (table.find_one (is_named name) db)) [
    | inr (failure, e) ↦ ground (arith, e)
    | inl (none, e) ↦ ground (arith, e)
    | inl (some w, e) ↦
        let (named, present) = table.find_one-some (is_named name) db w e in
        let alone =
          at_most_one (any (λ v. is_named name v && not (has_id w.id v)) (rows db))
            (count (is_named name) (rows db))
            (any_of_both (is_named name) (has_id w.id) (rows db)
              (present (λ v. is_named name v && has_id w.id v) (ground (arith, named))))
            unique in
        let reaped_already = λ (r : is_some w.reaped_at ≡ true).
          at_most_one (any (is_up name) (rows db)) (count (is_named name) (rows db))
            (λ up.
              any_of_both (is_named name) is_live (rows db) up
                (present (λ v. is_named name v && not (is_live v)) (ground (arith, named, r))))
            unique in
        elim (Option-cases w.reaped_at) [
          | inr (t, r) ↦ ground (arith, e, r, reaped_already (ground (arith, r)))
          | inl r ↦ elim (Result-cases (table.update_many (set_reaped_at now) (has_id w.id) db).0) [
            | inr (failure, g) ↦ ground (arith, e, r, g)
            | inl (n, g) ↦ ground (
              arith,
              e,
              r,
              g,
              table.update_many-ok (set_reaped_at now) (has_id w.id) db n g,
              reaped-IsDown name w.id now (rows db) alone,
            )
          ]
        ]
  ]

  pub not_listed :
      (name : Text) (db : Db) (live : List LiveWorker)
      → IsDown name (rows db)
      → list_live table db ≡ ok live
      → any (λ w. w.container_name == name) live ≡ false
  unfolding list_live
  not_listed name db live down listing = elim (Result-cases (table.find_all is_live db)) [
    | inr (failure, e) ↦ ground (arith, e)
    | inl (ws, e) ↦
        ground (arith, e, table.find_all-ok is_live db ws e, down_names name (rows db) down)
  ]

  pub second_reap :
      (name : Text) (later : ℕ) (db : Db)
      → IsDown name (rows db)
      → rows (record_reap_inner table name later db).1 ≡ rows db
  unfolding record_reap_inner find_by_container_name
  second_reap name later db down = elim (Result-cases (table.find_one (is_named name) db)) [
    | inr (failure, e) ↦ ground (arith, e)
    | inl (none, e) ↦ ground (arith, e)
    | inl (some w, e) ↦
        let (named, present) = table.find_one-some (is_named name) db w e in
        elim (Option-cases w.reaped_at) [
          | inr (t, r) ↦ ground (arith, e, r)
          | inl r ↦
              let up = present (is_up name) (ground (arith, named, r)) in ground (arith, up, down)
        ]
  ]

  -- If the table has at most one row of a container's name and a reap of it reports success, then
  -- after whatever other writes, failed ones and late UPDATEs of other reaps included, that spawn no
  -- container of this name, a list of the live workers does not name it, and another reap changes
  -- nothing.
  reaped_is_final :
      (name : Text) (now later : ℕ) (requests : List Request) (db : Db) (live : List LiveWorker)
      → count (is_named name) (rows db) ≤ 1
      → (record_reap_inner table name now db).0 ≡ ok tt
      → NeverSpawned name requests
      → list_live table (run requests (record_reap_inner table name now db).1) ≡ ok live
      → let after = run requests (record_reap_inner table name now db).1 in
        (any (λ w. w.container_name == name) live ≡ false)
        × (rows (record_reap_inner table name later after).1 ≡ rows after)
  reaped_is_final name now later requests db live unique h fresh listing =
      let after = run requests (record_reap_inner table name now db).1 in
      let down =
        run-IsDown name requests (record_reap_inner table name now db).1 fresh
          (reap-IsDown name now db unique h) in
      (not_listed name after live down listing, second_reap name later after down)
