-- ===== src/SessionBroker/Workers/Times.antt =====
-- The time of a reap (session-broker/src/session_worker.rs).
use botwork.Common.{
  ℕ, ◌≡◌, refl, inl, inr, Bool, true, false, not, ◌&&◌, ◌||◌, none, some, List, [], ◌∷◌, map, arith,
  eqb, on_branches, Option-cases, is_some, any, any-map-false, ◌==◌, nat_eq, list_eq, option_eq,
  pair_eq, ok, Result-cases,
}
use botwork.Common.Text.{Text}
use botwork.Common.Database.{Table, set_where}
use botwork.SessionBroker.Workers.{
  LiveWorker, list_live, Worker, is_named, has_id, is_live, set_mcp_session_id,
  set_agent_session_id, set_reaped_at, spawned, record_spawn_inner, find_by_container_name, update,
  record_mcp_session_id_inner, record_agent_binding_inner, record_reap_inner,
}
use botwork.SessionBroker.Workers.Reaping.{
  IsDown, not_listed, second_reap, Request, spawns, names_session, binds_agent, reaps, marks, step,
  run,
}

-- No other container gets the name or the id, and no other reap of the container overlaps: an UPDATE
-- that comes apart from its SELECT is of another id.
abbrev pub LeavesAlone : Text → ℕ → List Request → Type 0
LeavesAlone name k [] = Unit
LeavesAlone name k (spawns plugin_id id n ip now ∷ requests) =
    ((n == name) ≡ false) × (eqb id k ≡ false) × LeavesAlone name k requests
LeavesAlone name k (names_session n mcp ∷ requests) = LeavesAlone name k requests
LeavesAlone name k (binds_agent n agent ∷ requests) = LeavesAlone name k requests
LeavesAlone name k (reaps n now ∷ requests) = LeavesAlone name k requests
LeavesAlone name k (marks id now ∷ requests) = (eqb id k ≡ false) × LeavesAlone name k requests

-- A row of the name, or of the id, that is not the container's live row.
abbrev pub is_other : Text → ℕ → Worker → Bool
is_other name k w =
    (is_named name w || has_id k w) && not (is_named name w && (has_id k w && is_live w))

-- A row of the name, or of the id, that is not the container's row reaped at this moment.
abbrev pub differs : Text → ℕ → ℕ → Worker → Bool
differs name k t w =
    (is_named name w || has_id k w)
    && not (is_named name w && (has_id k w && (w.reaped_at == some t)))

-- The container's rows were reaped at this moment.
abbrev pub AreReapedAt : Text → ℕ → ℕ → List Worker → Type 0
AreReapedAt name k t rs = any (differs name k t) rs ≡ false

marked-AreReapedAt :
    (name : Text) (k id now : ℕ) (rs : List Worker)
    → eqb id k ≡ true
    → any (is_other name k) rs ≡ false
    → AreReapedAt name k now (map (set_where (has_id id) (set_reaped_at now)) rs)
marked-AreReapedAt name k id now [] same h = refl
marked-AreReapedAt name k id now (w ∷ rs) same h =
    ground (arith, marked-AreReapedAt name k id now rs)

marked_elsewhere :
    (name : Text) (k t id now : ℕ) (rs : List Worker)
    → eqb id k ≡ false
    → AreReapedAt name k t rs
    → AreReapedAt name k t (map (set_where (has_id id) (set_reaped_at now)) rs)
marked_elsewhere name k t id now [] apart h = refl
marked_elsewhere name k t id now (w ∷ rs) apart h =
    ground (arith, marked_elsewhere name k t id now rs)

reaped-IsDown :
    (name : Text) (k t : ℕ) (rs : List Worker) → AreReapedAt name k t rs → IsDown name rs
reaped-IsDown name k t [] h = refl
reaped-IsDown name k t (w ∷ rs) h = ground (arith, reaped-IsDown name k t rs)

module _ (table : Table Worker) where
  open table use {Db, DbErr, rows}

  update-AreReapedAt :
      (name : Text) (k t : ℕ) (f : Worker → Worker) (id : ℕ) (db : Db)
      → ((w : Worker) → differs name k t w ≡ false → differs name k t (f w) ≡ false)
      → AreReapedAt name k t (rows db)
      → AreReapedAt name k t (rows (update table f id db).1)
  update-AreReapedAt name k t f id db keeps h =
      let kept =
        any-map-false (differs name k t) (set_where (has_id id) f) (rows db)
          (λ w g. on_branches (λ v. differs name k t v ≡ false) (has_id id w) (keeps w g) g) h in
      elim (table.update_many-rows f (has_id id) db) [ inl e ↦ rw e h | inr e ↦ rw e kept ]

  -- A reap that finds another row live.
  reap-AreReapedAt :
      (name n : Text) (k t now : ℕ) (db : Db)
      → AreReapedAt name k t (rows db)
      → AreReapedAt name k t (rows (record_reap_inner table n now db).1)
  unfolding record_reap_inner find_by_container_name
  reap-AreReapedAt name n k t now db h = elim (Result-cases (table.find_one (is_named n) db)) [
    | inr (failure, e) ↦ ground (arith, e, h)
    | inl (none, e) ↦ ground (arith, e, h)
    | inl (some w, e) ↦
        let (matched, present) = table.find_one-some (is_named n) db w e in
        elim (Option-cases w.reaped_at) [
          | inr (over, r) ↦ ground (arith, e, r, h)
          | inl r ↦
              let apart : eqb w.id k ≡ false = ground (arith, h, r, present (differs name k t)) in
              elim (table.update_many-rows (set_reaped_at now) (has_id w.id) db) [
                | inl same ↦ ground (arith, e, r, same, h)
                | inr marked ↦
                    ground
                      (arith, e, r, marked, marked_elsewhere name k t w.id now (rows db) apart h)
              ]
        ]
  ]

  step-AreReapedAt :
      (name : Text) (k t : ℕ) (request : Request) (requests : List Request) (db : Db)
      → LeavesAlone name k (request ∷ requests)
      → AreReapedAt name k t (rows db)
      → AreReapedAt name k t (rows (step table request db)) × LeavesAlone name k requests
  unfolding record_spawn_inner record_mcp_session_id_inner record_agent_binding_inner
  step-AreReapedAt name k t (spawns plugin_id id n ip now) requests db fresh h =
      let w = spawned id plugin_id n ip now in
      (
        elim (table.insert-rows w db) [
          | inl e ↦ rw e h
          | inr e ↦ rw e (ground (arith, h, fresh.0, fresh.1))
        ],
        fresh.2,
      )
  step-AreReapedAt name k t (names_session n mcp) requests db fresh h = (
    elim (Result-cases (find_by_container_name table n db)) [
      | inl (w, e) ↦
          rw (step, e) (update-AreReapedAt name k t (set_mcp_session_id mcp) w.id db (λ v g. g) h)
      | inr (failure, e) ↦ rw (step, e) h
    ],
    fresh,
  )
  step-AreReapedAt name k t (binds_agent n agent) requests db fresh h = (
    elim (Result-cases (find_by_container_name table n db)) [
      | inl (w, e) ↦
          rw (step, e)
            (update-AreReapedAt name k t (set_agent_session_id agent) w.id db (λ v g. g) h)
      | inr (failure, e) ↦ rw (step, e) h
    ],
    fresh,
  )
  step-AreReapedAt name k t (reaps n now) requests db fresh h =
      (reap-AreReapedAt name n k t now db h, fresh)
  step-AreReapedAt name k t (marks id now) requests db fresh h = (
    elim (table.update_many-rows (set_reaped_at now) (has_id id) db) [
      | inl same ↦ rw same h
      | inr marked ↦ rw marked (marked_elsewhere name k t id now (rows db) fresh.0 h)
    ],
    fresh.1,
  )

  run-AreReapedAt :
      (name : Text) (k t : ℕ) (requests : List Request) (db : Db)
      → LeavesAlone name k requests
      → AreReapedAt name k t (rows db)
      → AreReapedAt name k t (rows (run table requests db))
  run-AreReapedAt name k t [] db fresh h = h
  run-AreReapedAt name k t (request ∷ requests) db fresh h =
      let (h', fresh') = step-AreReapedAt name k t request requests db fresh h in
      run-AreReapedAt name k t requests (step table request db) fresh' h'

  first-AreReapedAt :
      (name : Text) (k now : ℕ) (db : Db)
      → any (is_other name k) (rows db) ≡ false
      → (record_reap_inner table name now db).0 ≡ ok tt
      → AreReapedAt name k now (rows (record_reap_inner table name now db).1)
  unfolding record_reap_inner find_by_container_name
  first-AreReapedAt name k now db alone h =
      elim (Result-cases (table.find_one (is_named name) db)) [
        | inr (failure, e) ↦ ground (arith, e)
        | inl (none, e) ↦ ground (arith, e)
        | inl (some w, e) ↦
            let (matched, present) = table.find_one-some (is_named name) db w e in
            let own : eqb w.id k ≡ true =
              ground (arith, alone, matched, present (is_other name k)) in
            let live : is_some w.reaped_at ≡ false =
              ground (arith, alone, matched, present (is_other name k)) in
            elim (Result-cases (table.update_many (set_reaped_at now) (has_id w.id) db).0) [
              | inr (failure, g) ↦ ground (arith, e, live, g)
              | inl (n, g) ↦ ground (
                arith,
                e,
                live,
                g,
                table.update_many-ok (set_reaped_at now) (has_id w.id) db n g,
                marked-AreReapedAt name k w.id now (rows db) own alone,
              )
            ]
      ]

  -- If a container has one live row, alone with its name and its id, and a reap of it reports
  -- success, then the row carries the moment of this reap. It still does after whatever other
  -- writes, further reaps and failed writes included, that spawn no container of this name or id, as
  -- long as no other reap of this container overlaps; a list of the live workers then does not name
  -- the container, and another reap changes nothing.
  pub reaped_at_stays :
      (name : Text) (k now later : ℕ) (requests : List Request) (db : Db) (live : List LiveWorker)
      → any (is_other name k) (rows db) ≡ false
      → (record_reap_inner table name now db).0 ≡ ok tt
      → LeavesAlone name k requests
      → list_live table (run table requests (record_reap_inner table name now db).1) ≡ ok live
      → let after = run table requests (record_reap_inner table name now db).1 in
        AreReapedAt name k now (rows (record_reap_inner table name now db).1)
        × AreReapedAt name k now (rows after)
        × (any (λ w. w.container_name == name) live ≡ false)
        × (rows (record_reap_inner table name later after).1 ≡ rows after)
  reaped_at_stays name k now later requests db live alone h fresh listing =
      let first = first-AreReapedAt name k now db alone h in
      let after = run table requests (record_reap_inner table name now db).1 in
      let stays =
        run-AreReapedAt name k now requests (record_reap_inner table name now db).1 fresh first in
      let down = reaped-IsDown name k now (rows after) stays in
      (
        first,
        stays,
        not_listed table name after live down listing,
        second_reap table name later after down,
      )
