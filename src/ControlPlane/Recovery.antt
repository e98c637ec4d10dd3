-- ===== src/ControlPlane/Recovery.antt =====
-- control-plane/src/recovery.rs: the table of sessions is rebuilt from the database at start-up. The
-- five joined tables are read as one table of joined rows; the database may answer differently at
-- each attempt. The pauses between attempts and the logging are left out.
pub mod Seeding
pub mod Rows
pub mod Attempts
mod Tests
use botwork.Common.{
  ℕ, zero, suc, ◌+◌, Bool, not, ◌&&◌, ◌||◌, Option, none, some, List, [], ◌∷◌, if◌then◌else◌,
  is_none, is_some, count, ◌==◌, nat_eq, list_eq, option_eq, pair_eq, Result, ok, err, succeeded,
}
use botwork.Common.Text.{Text, bytes}
use botwork.Common.Ipv4.{parse_ipv4}
use botwork.Common.Database.{Table}
use botwork.SessionBroker.Workers.{Worker}
use botwork.ControlPlane.Sessions.{SessionRecord, SessionStore, insert}

-- `agent_session::state`
abbrev pub active : Text
active = bytes "active"

abbrev pub grace : Text
grace = bytes "grace"

abbrev pub max_attempts : ℕ
max_attempts = 30

-- A worker with the state of its agent session, the names behind its keys and its plugin's egress.
pub record Joined (Json : Type 0) : Type 0 where
  pub worker : Worker
  pub state : Text
  pub tenant : Text
  pub workspace : Text
  pub plugin : Text
  pub egress : Json

pub record SessionRow (Json : Type 0) : Type 0 where
  pub session_id : Text
  pub container_ip : Text
  pub tenant : Text
  pub workspace : Text
  pub plugin : Text
  pub egress_policy : Json

pub data RecoveryError (DbErr : Type 0) : Type 0 where
  db_error : DbErr → RecoveryError DbErr
  bad_row : Text → Text → RecoveryError DbErr

module _ {Json : Type 0} where
  -- The four filters of the JOIN.
  abbrev pub is_live : Joined Json → Bool
  is_live j =
      is_none j.worker.reaped_at
      && (is_some j.worker.agent_session_id
          && (not (j.worker.mcp_session_id == []) && (j.state == active || j.state == grace)))

  -- The columns that it selects.
  abbrev pub row_of : Joined Json → SessionRow Json
  row_of j = record {
    session_id = j.worker.mcp_session_id;
    container_ip = j.worker.container_ip;
    tenant = j.tenant;
    workspace = j.workspace;
    plugin = j.plugin;
    egress_policy = j.egress;
  }

  abbrev pub record_at : SessionRow Json → ℕ → SessionRecord Json
  record_at row container_ip = record {
    session_id = row.session_id;
    container_ip = container_ip;
    tenant = row.tenant;
    workspace = row.workspace;
    plugin = row.plugin;
    egress_policy = row.egress_policy;
  }

  unfoldable pub into_session_record :
      {DbErr : Type 0} → SessionRow Json → Result (RecoveryError DbErr) (SessionRecord Json)
  into_session_record row = elim (parse_ipv4 row.container_ip) [
    | none ↦ err (bad_row row.container_ip row.session_id)
    | some container_ip ↦ ok (record_at row container_ip)
  ]

  -- The loop of `fetch_live_sessions`: the first bad row ends it.
  abbrev pub pushed :
      {DbErr : Type 0}
      → Result (RecoveryError DbErr) (SessionRecord Json)
      → Result (RecoveryError DbErr) (List (SessionRecord Json))
      → Result (RecoveryError DbErr) (List (SessionRecord Json))
  pushed (err e) rest = err e
  pushed (ok r) (err e) = err e
  pushed (ok r) (ok records) = ok (r ∷ records)

  unfoldable pub records_of :
      {DbErr : Type 0}
      → List (Joined Json)
      → Result (RecoveryError DbErr) (List (SessionRecord Json))
  unfolding into_session_record
  records_of [] = ok []
  records_of (j ∷ rows) = pushed (into_session_record (row_of j)) (records_of rows)

  -- A duplicate is logged and skipped.
  unfoldable pub seed_store : SessionStore Json → List (SessionRecord Json) → ℕ × SessionStore Json
  unfolding insert
  seed_store store [] = (0, store)
  seed_store store (r ∷ records) =
      let (result, store') = insert store r in
      let (inserted, seeded) = seed_store store' records in
      (if succeeded result then inserted + 1 else inserted, seeded)

  module _ (table : Table (Joined Json)) where
    open table use {Db, DbErr, find_all}

    abbrev pub fetched :
        Result DbErr (List (Joined Json)) → Result (RecoveryError DbErr) (List (SessionRecord Json))
    fetched (err e) = err (db_error e)
    fetched (ok rows) = records_of rows

    unfoldable pub fetch_live_sessions :
        Db → Result (RecoveryError DbErr) (List (SessionRecord Json))
    fetch_live_sessions db = fetched (find_all is_live db)

    -- What the last failed attempt left, or an error of the driver's own where there was none.
    abbrev pub last_or : DbErr → Option (RecoveryError DbErr) → RecoveryError DbErr
    last_or exhausted none = db_error exhausted
    last_or exhausted (some e) = e

    -- The attempts that are left; `databases` is the database at each of them, counted from 1.
    unfoldable pub run_from :
        (exhausted : DbErr) (databases : ℕ → Db) (attempt left : ℕ)
        → Option (RecoveryError DbErr)
        → SessionStore Json
        → Result (RecoveryError DbErr) ℕ × SessionStore Json
    unfolding fetch_live_sessions seed_store
    run_from exhausted databases attempt zero last_err store =
        (err (last_or exhausted last_err), store)
    run_from exhausted databases attempt (suc left) last_err store =
        elim (fetch_live_sessions (databases attempt)) [
          | ok records ↦ let (count, seeded) = seed_store store records in (ok count, seeded)
          | err e ↦ run_from exhausted databases (attempt + 1) left (some e) store
        ]

    unfoldable pub run_with_retries_config :
        (exhausted : DbErr) (databases : ℕ → Db) (max_attempts : ℕ)
        → SessionStore Json
        → Result (RecoveryError DbErr) ℕ × SessionStore Json
    unfolding run_from
    run_with_retries_config exhausted databases max_attempts store =
        run_from exhausted databases 1 max_attempts none store
