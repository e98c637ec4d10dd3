-- ===== src/SessionBroker/Workers.antt =====
-- session-broker/src/session_worker.rs: one row per spawned container, written through on every
-- change of its life. `Utc::now()` and the fresh row id are arguments; the lookup of the plugin's id
-- in its own table is an argument too.
pub mod Reaping
pub mod Times
mod Tests
use botwork.Common.{
  ℕ, Bool, Option, none, some, List, [], map, eqb, if◌then◌else◌, is_none, is_some, ◌==◌, nat_eq,
  list_eq, option_eq, pair_eq, Result, ok, err,
}
use botwork.Common.Text.{Text}
use botwork.Common.Database.{Table}

pub record Worker : Type 0 where
  pub id : ℕ
  pub agent_session_id : Option ℕ
  pub plugin_id : ℕ
  pub container_name : Text
  pub container_ip : Text
  pub mcp_session_id : Text
  pub spawned_at : ℕ
  pub reaped_at : Option ℕ

pub record LiveWorker : Type 0 where
  pub container_name : Text
  pub container_ip : Text
  pub mcp_session_id : Text
  pub plugin_id : ℕ
  pub agent_session_id : Option ℕ

pub data SessionWorkerWriteError (DbErr : Type 0) : Type 0 where
  unknown_plugin unknown_container : Text → SessionWorkerWriteError DbErr
  db_error : DbErr → SessionWorkerWriteError DbErr

abbrev pub is_named : Text → Worker → Bool
is_named container_name w = w.container_name == container_name

abbrev pub has_id : ℕ → Worker → Bool
has_id id w = eqb w.id id

abbrev pub is_live : Worker → Bool
is_live w = is_none w.reaped_at

abbrev pub set_mcp_session_id : Text → Worker → Worker
set_mcp_session_id mcp_session_id w = record w { mcp_session_id = mcp_session_id }

abbrev pub set_agent_session_id : ℕ → Worker → Worker
set_agent_session_id agent_session_id w = record w { agent_session_id = some agent_session_id }

abbrev pub set_reaped_at : ℕ → Worker → Worker
set_reaped_at now w = record w { reaped_at = some now }

abbrev pub live_worker : Worker → LiveWorker
live_worker w = record {
  container_name = w.container_name;
  container_ip = w.container_ip;
  mcp_session_id = w.mcp_session_id;
  plugin_id = w.plugin_id;
  agent_session_id = w.agent_session_id;
}

abbrev pub spawned : ℕ → ℕ → Text → Text → ℕ → Worker
spawned id plugin_id container_name container_ip now = record {
  id = id;
  agent_session_id = none;
  plugin_id = plugin_id;
  container_name = container_name;
  container_ip = container_ip;
  mcp_session_id = [];
  spawned_at = now;
  reaped_at = none;
}

module _ (table : Table Worker) where
  open table use {Db, DbErr, find_one, find_all, update_many, insert, not_updated}

  abbrev pub Write : Type 0
  Write = Result (SessionWorkerWriteError DbErr) (Unit {0}) × Db

  abbrev pub written : Result DbErr (Unit {0}) → Result (SessionWorkerWriteError DbErr) (Unit {0})
  written (ok u) = ok tt
  written (err e) = err (db_error e)

  -- `plugin` is what the SELECT on the plugin table answered.
  pub record_spawn_inner : Result DbErr (Option ℕ) → Text → ℕ → Text → Text → ℕ → Db → Write
  record_spawn_inner (err e) plugin_name id container_name container_ip now db =
      (err (db_error e), db)
  record_spawn_inner (ok none) plugin_name id container_name container_ip now db =
      (err (unknown_plugin plugin_name), db)
  record_spawn_inner (ok (some plugin_id)) plugin_name id container_name container_ip now db =
      let (result, db') = insert (spawned id plugin_id container_name container_ip now) db in
      (written result, db')

  abbrev pub found :
      Text → Result DbErr (Option Worker) → Result (SessionWorkerWriteError DbErr) Worker
  found container_name (err e) = err (db_error e)
  found container_name (ok none) = err (unknown_container container_name)
  found container_name (ok (some w)) = ok w

  pub find_by_container_name : Text → Db → Result (SessionWorkerWriteError DbErr) Worker
  find_by_container_name container_name db =
      found container_name (find_one (is_named container_name) db)

  -- `active.update`: an update of no row is an error.
  abbrev pub updated : Result DbErr ℕ → Result (SessionWorkerWriteError DbErr) (Unit {0})
  updated (err e) = err (db_error e)
  updated (ok n) = if eqb n 0 then err (db_error not_updated) else ok tt

  abbrev pub update : (Worker → Worker) → ℕ → Db → Write
  update f id db = let (result, db') = update_many f (has_id id) db in (updated result, db')

  pub record_mcp_session_id_inner : Text → Text → Db → Write
  unfolding find_by_container_name
  record_mcp_session_id_inner container_name mcp_session_id db =
      elim (find_by_container_name container_name db) [
        | err e ↦ (err e, db)
        | ok w ↦ update (set_mcp_session_id mcp_session_id) w.id db
      ]

  pub record_agent_binding_inner : Text → ℕ → Db → Write
  unfolding find_by_container_name
  record_agent_binding_inner container_name agent_session_id db =
      elim (find_by_container_name container_name db) [
        | err e ↦ (err e, db)
        | ok w ↦ update (set_agent_session_id agent_session_id) w.id db
      ]

  -- The UPDATE of a reap. It has no filter but the id.
  abbrev pub mark_reaped : ℕ → ℕ → Db → Write
  mark_reaped id now db = update (set_reaped_at now) id db

  -- A row that the SELECT finds reaped keeps its time.
  abbrev pub reap : ℕ → Worker → Db → Write
  reap now w db =
      let marked = mark_reaped w.id now db in if is_some w.reaped_at then (ok tt, db) else marked

  -- The SELECT and the UPDATE in one run: no transaction holds them together, so that an UPDATE may
  -- also come later, as `mark_reaped` on its own.
  pub record_reap_inner : Text → ℕ → Db → Write
  unfolding find_by_container_name
  record_reap_inner container_name now db = elim (find_by_container_name container_name db) [
    | err e ↦ (err e, db)
    | ok w ↦ reap now w db
  ]

  abbrev pub listed :
      Result DbErr (List Worker) → Result (SessionWorkerWriteError DbErr) (List LiveWorker)
  listed (ok ws) = ok (map live_worker ws)
  listed (err e) = err (db_error e)

  pub list_live : Db → Result (SessionWorkerWriteError DbErr) (List LiveWorker)
  list_live db = listed (find_all is_live db)
