-- ===== src/AuthBroker/Lease.antt =====
-- auth-broker/src/auth/lease.rs: bearer leases, their absolute and their sliding expiry. The table,
-- the digest and the unwrapping of the export key (`lease_kek::unwrap_session_key`, by the AEAD of a
-- library) are parameters; a time is a number of seconds, within the range of `DateTime`.
pub mod Expiry
pub mod Revocation
mod Tests
use botwork.Common.{
  ℕ, ◌+◌, ◌*◌, min, max, Bool, ◌&&◌, ◌||◌, Option, none, some, leb, eqb, if◌then◌else◌, is_none,
  is_some, ◌==◌, nat_eq, list_eq, option_eq, Result, ok, err,
}
use botwork.Common.Text.{Text}
use botwork.Common.Database.{Table}

pub record Lease : Type 0 where
  pub id : ℕ
  pub tenant_id : ℕ
  pub bearer_hash : Text
  pub wrapped_export_key : Text
  pub issued_at : ℕ
  pub expires_at : ℕ
  pub idle_extends_to : ℕ
  pub revoked_at : Option ℕ

pub record LeaseRow : Type 0 where
  pub id : ℕ
  pub tenant_id : ℕ
  pub issued_at : ℕ
  pub expires_at : ℕ
  pub idle_extends_to : ℕ
  pub revoked_at : Option ℕ

pub record ValidatedLease : Type 0 where
  pub lease : LeaseRow
  pub export_key : Text

pub data ValidationError (DbErr : Type 0) : Type 0 where
  expired revoked : ValidationError DbErr
  db_error : DbErr → ValidationError DbErr

abbrev pub lease_hard_cap_seconds : ℕ
lease_hard_cap_seconds = 30 * 86400

abbrev pub lease_idle_window_seconds : ℕ
lease_idle_window_seconds = 3600

abbrev pub cap_lease_seconds : ℕ → ℕ
cap_lease_seconds requested = min requested lease_hard_cap_seconds

abbrev pub compute_idle_extends_to : ℕ → ℕ → ℕ
compute_idle_extends_to now expires_at = min (now + lease_idle_window_seconds) expires_at

abbrev pub row_of : Lease → LeaseRow
row_of m = record {
  id = m.id;
  tenant_id = m.tenant_id;
  issued_at = m.issued_at;
  expires_at = m.expires_at;
  idle_extends_to = m.idle_extends_to;
  revoked_at = m.revoked_at;
}

-- The filters and the columns of the queries.
abbrev pub has_hash : Text → Lease → Bool
has_hash hash m = m.bearer_hash == hash

abbrev pub has_id : ℕ → Lease → Bool
has_id id m = eqb m.id id

abbrev pub set_idle : ℕ → Lease → Lease
set_idle idle m = record m { idle_extends_to = idle }

abbrev pub set_revoked : ℕ → Lease → Lease
set_revoked now m = record m { revoked_at = some now }

-- `candidate.max(model.idle_extends_to)`
abbrev pub new_idle : ℕ → Lease → ℕ
new_idle now m = max (compute_idle_extends_to now m.expires_at) m.idle_extends_to

module _ (table : Table Lease) where
  open table use {Db, DbErr, find_one, update_many, insert, commit, not_updated}

  abbrev pub fresh_lease : ℕ → ℕ → Text → Text → ℕ → ℕ → Lease
  fresh_lease id tenant hash wrapped lease_seconds now =
      let expires_at = now + cap_lease_seconds lease_seconds in
      record {
        id = id;
        tenant_id = tenant;
        bearer_hash = hash;
        wrapped_export_key = wrapped;
        issued_at = now;
        expires_at = expires_at;
        idle_extends_to = compute_idle_extends_to now expires_at;
        revoked_at = none;
      }

  abbrev pub inserted : Lease → Result DbErr Unit → Result DbErr LeaseRow
  inserted m (ok u) = ok (row_of m)
  inserted m (err e) = err e

  -- `id` is the fresh `Uuid::new_v4()`.
  pub insert_lease : ℕ → ℕ → Text → Text → ℕ → ℕ → Db → Result DbErr LeaseRow × Db
  insert_lease id tenant hash wrapped lease_seconds now db =
      let m = fresh_lease id tenant hash wrapped lease_seconds now in
      let (result, db') = insert m db in (inserted m result, db')

  abbrev pub Validation : Type 0
  Validation = Result (ValidationError DbErr) (Option ValidatedLease)

  -- `active.update(txn)`: an update of no row is an error.
  abbrev pub extended : Lease → Text → ℕ → Result DbErr ℕ → Validation
  extended m key idle (err e) = err (db_error e)
  extended m key idle (ok n) =
      if eqb n 0
      then err (db_error not_updated)
      else ok
          (some (record { lease = record (row_of m) { idle_extends_to = idle }; export_key = key }))

  abbrev pub extend : Lease → ℕ → Db → Option Text → Validation × Db
  extend m now db none = (ok none, db)
  extend m now db (some key) =
      let idle = new_idle now m in
      let (result, db') = update_many (set_idle idle) (has_id m.id) db in
      (extended m key idle result, db')

  abbrev pub validate_model : (Text → Text → Option Text) → Text → ℕ → Db → Lease → Validation × Db
  validate_model unwrap bearer now db m =
      let attempt = extend m now db (unwrap bearer m.wrapped_export_key) in
      if is_some m.revoked_at
      then (err revoked, db)
      else if leb m.expires_at now || leb m.idle_extends_to now
      then (err expired, db)
      else attempt

  abbrev pub validate_found :
      (Text → Text → Option Text) → Text → ℕ → Db → Result DbErr (Option Lease) → Validation × Db
  validate_found unwrap bearer now db (err e) = (err (db_error e), db)
  validate_found unwrap bearer now db (ok none) = (ok none, db)
  validate_found unwrap bearer now db (ok (some m)) = validate_model unwrap bearer now db m

  pub validate_and_extend_inner :
      (Text → Text) → (Text → Text → Option Text) → Text → ℕ → Db → Validation × Db
  validate_and_extend_inner digest unwrap bearer now db =
      validate_found unwrap bearer now db (find_one (has_hash (digest bearer)) db)

  abbrev pub committed : Validation → Result DbErr Unit × Db → Validation × Db
  committed v (ok u, db) = (v, db)
  committed v (err e, db) = (err (db_error e), db)

  -- The transaction: a success is committed, an error rolled back to `before`.
  abbrev pub finish : Db → Validation × Db → Validation × Db
  finish before (err e, during) = (err e, before)
  finish before (ok v, during) = committed (ok v) (commit before during)

  pub validate_and_extend :
      (Text → Text) → (Text → Text → Option Text) → Text → ℕ → Db → Validation × Db
  unfolding validate_and_extend_inner
  validate_and_extend digest unwrap bearer now db =
      finish db (validate_and_extend_inner digest unwrap bearer now db)

  pub revoke : Text → ℕ → Db → Result DbErr ℕ × Db
  revoke hash now db =
      update_many (set_revoked now) (λ m. has_hash hash m && is_none m.revoked_at) db

  pub revoke_by_id : ℕ → ℕ → Db → Result DbErr ℕ × Db
  revoke_by_id id now db =
      update_many (set_revoked now) (λ m. has_id id m && is_none m.revoked_at) db
