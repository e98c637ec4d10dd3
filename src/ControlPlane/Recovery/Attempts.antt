-- ===== src/ControlPlane/Recovery/Attempts.antt =====
-- The attempts end, and what they leave is what the live rows of the database say.
use mathlib.Core.List.Memᴰ.{Memᴰ}
use botwork.Common.{
  ℕ, zero, suc, ◌+◌, ◌≤◌, ◌<◌, ◌≡◌, refl, sym, ap, ◌∙◌, inl, inr, true, false, Option, none, some,
  List, arith, eqb, eqb_iff, Bool-cases, is_some, count, filter, nat_eq, list_eq, option_eq,
  pair_eq, ok, Result-cases, succeeded,
}
use botwork.Common.Text.{Text}
use botwork.Common.Database.{Table}
use botwork.ControlPlane.Sessions.{SessionRecord, SessionStore, get, new}
use botwork.ControlPlane.Recovery.{
  Joined, RecoveryError, is_live, records_of, seed_store, fetched, fetch_live_sessions, run_from,
  run_with_retries_config,
}
use botwork.ControlPlane.Recovery.Seeding.{first_with, seed_store_lem}
use botwork.ControlPlane.Recovery.Rows.{Memᴰ-filter, IsFrom, record-IsFrom, record_for}

module _ {Json : Type 0} (table : Table (Joined Json)) where
  open table use {Db, DbErr, rows}

  succeeds_from :
      (exhausted : DbErr) (databases : ℕ → Db) (attempt left k : ℕ)
      (last_err : Option (RecoveryError DbErr)) (store : SessionStore Json)
      → attempt ≤ k
      → k < attempt + left
      → succeeded (fetch_live_sessions table (databases k)) ≡ true
      → succeeded (run_from table exhausted databases attempt left last_err store).0 ≡ true
  unfolding run_from
  succeeds_from exhausted databases attempt zero k last_err store low high good =
      absurd (omega (arith, low, high))
  succeeds_from exhausted databases attempt (suc left) k last_err store low high good =
      elim (Result-cases (fetch_live_sessions table (databases attempt))) [
        | inl (records, e) ↦ ground (arith, e)
        | inr (x, e) ↦ elim (Bool-cases (eqb attempt k)) [
          | inl same ↦ absurd (
              ground (
                arith,
                e,
                good,
                ap (λ a. fetch_live_sessions table (databases a)) ((eqb_iff attempt k).0 same),
              ))
          | inr other ↦
              let rest =
                succeeds_from exhausted databases (attempt + 1) left k (some x) store
                  (ground (arith, low, other)) (omega (arith, high)) good in
              ground (arith, e, rest)
        ]
      ]

  -- The number of attempts, the records and the database that they came from, or nothing at all.
  ok_from :
      (exhausted : DbErr) (databases : ℕ → Db) (attempt left : ℕ)
      (last_err : Option (RecoveryError DbErr)) (store : SessionStore Json) (n : ℕ)
      → (run_from table exhausted databases attempt left last_err store).0 ≡ ok n
      → (k : ℕ) × (attempt ≤ k)
        × (k < attempt + left)
        × (records : List (SessionRecord Json)) × (fetch_live_sessions table (databases k)
            ≡ ok records)
        × ((run_from table exhausted databases attempt left last_err store).1
            ≡ (seed_store store records).1)
        × (n ≡ (seed_store store records).0)
  unfolding run_from
  ok_from exhausted databases attempt zero last_err store n h = absurd (ground (arith, h))
  ok_from exhausted databases attempt (suc left) last_err store n h =
      elim (Result-cases (fetch_live_sessions table (databases attempt))) [
        | inl (records, e) ↦
            (attempt, omega arith, omega arith, records, e, ground (arith, e), ground (arith, e, h))
        | inr (x, e) ↦
            let (k, low, high, records, f, g, same) =
              ok_from exhausted databases (attempt + 1) left (some x) store n
                (ground (arith, e, h)) in
            (k, omega (arith, low), omega (arith, high), records, f, ground (arith, e, g), same)
      ]

  err_from :
      (exhausted : DbErr) (databases : ℕ → Db) (attempt left : ℕ)
      (last_err : Option (RecoveryError DbErr)) (store : SessionStore Json)
      → succeeded (run_from table exhausted databases attempt left last_err store).0 ≡ false
      → (run_from table exhausted databases attempt left last_err store).1 ≡ store
  unfolding run_from
  err_from exhausted databases attempt zero last_err store h = refl
  err_from exhausted databases attempt (suc left) last_err store h =
      elim (Result-cases (fetch_live_sessions table (databases attempt))) [
        | inl (records, e) ↦ absurd (ground (arith, e, h))
        | inr (x, e) ↦
            ground (arith, e, h, err_from exhausted databases (attempt + 1) left (some x) store)
      ]

  -- Recovery ends in a success if the database can be read at one of the attempts, of which there are
  -- as many as configured, whatever the table held before.
  pub run_with_retries_ends :
      (exhausted : DbErr) (databases : ℕ → Db) (max_attempts k : ℕ) (store : SessionStore Json)
      → 1 ≤ k
      → k ≤ max_attempts
      → succeeded (fetch_live_sessions table (databases k)) ≡ true
      → succeeded (run_with_retries_config table exhausted databases max_attempts store).0 ≡ true
  unfolding run_with_retries_config
  run_with_retries_ends exhausted databases max_attempts k store low high good =
      succeeds_from exhausted databases 1 max_attempts k none store low (omega (arith, high)) good

  -- A recovery that fails leaves the table as it was.
  pub run_with_retries_fails :
      (exhausted : DbErr) (databases : ℕ → Db) (max_attempts : ℕ) (store : SessionStore Json)
      → succeeded (run_with_retries_config table exhausted databases max_attempts store).0 ≡ false
      → (run_with_retries_config table exhausted databases max_attempts store).1 ≡ store
  unfolding run_with_retries_config
  run_with_retries_fails exhausted databases max_attempts store h =
      err_from exhausted databases 1 max_attempts none store h

  fetched_rows :
      (db : Db) (records : List (SessionRecord Json))
      → fetch_live_sessions table db ≡ ok records
      → records_of {DbErr = DbErr} (filter is_live (rows db)) ≡ ok records
  unfolding fetch_live_sessions
  fetched_rows db records h = elim (Result-cases (table.find_all is_live db)) [
    | inl (js, e) ↦ ground (arith, e, h, table.find_all-ok is_live db js e)
    | inr (x, e) ↦ absurd (ground (arith, e, h))
  ]

  -- Where a recovery into an empty table succeeds, a session that it finds is a live row of the
  -- database at one of the attempts, with its address read: the row's container was not reaped, is
  -- bound to an agent session in state active or grace, and has a session id.
  pub recovered_is_live :
      (exhausted : DbErr) (databases : ℕ → Db) (max_attempts n : ℕ) (id : Text)
      (r : SessionRecord Json)
      → (run_with_retries_config table exhausted databases max_attempts new).0 ≡ ok n
      → get (run_with_retries_config table exhausted databases max_attempts new).1 id ≡ some r
      → (k : ℕ) × (1 ≤ k) × (k ≤ max_attempts) × IsFrom (filter is_live (rows (databases k))) r
  unfolding run_with_retries_config
  recovered_is_live exhausted databases max_attempts n id r done found =
      let (k, low, high, records, fetched, seeded, count) =
        ok_from exhausted databases 1 max_attempts none new n done in
      let (held, size, generation) = seed_store_lem new records id in
      let first : first_with id records ≡ some r = sym held ∙ rw (sym seeded) found in
      (
        k,
        low,
        omega (arith, high),
        record-IsFrom DbErr _ records id r (fetched_rows (databases k) records fetched) first,
      )

  -- Where a recovery into an empty table succeeds and the rows of the database do not change
  -- meanwhile, every live row has a record under its session id afterwards.
  pub live_is_recovered :
      (exhausted : DbErr) (databases : ℕ → Db) (max_attempts n : ℕ) (js : List (Joined Json))
      (j : Joined Json)
      → ((k : ℕ) → rows (databases k) ≡ js)
      → (run_with_retries_config table exhausted databases max_attempts new).0 ≡ ok n
      → Memᴰ j js
      → is_live j ≡ true
      → is_some (
          get
            (run_with_retries_config table exhausted databases max_attempts new).1
            j.worker.mcp_session_id)
        ≡ true
  unfolding run_with_retries_config
  live_is_recovered exhausted databases max_attempts n js j still done m live =
      let (k, low, high, records, fetched, seeded, count) =
        ok_from exhausted databases 1 max_attempts none new n done in
      let (held, size, generation) = seed_store_lem new records j.worker.mcp_session_id in
      let batch = fetched_rows (databases k) records fetched in
      let has =
        record_for DbErr (filter is_live (rows (databases k))) records j batch
          (Memᴰ-filter is_live (rows (databases k)) (rw (still k) m) live) in
      rw (seeded, held) has
