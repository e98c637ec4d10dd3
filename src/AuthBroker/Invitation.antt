-- ===== src/AuthBroker/Invitation.antt =====
-- auth-broker/src/auth/invitation.rs: the one-time passwords that claim a tenant. The table is the
-- parameter `Table`, the digest (SHA-256 in hexadecimal) the parameter `digest`; an OTP is ASCII
-- text, a UUID and a time are numbers, and `verify_and_consume` is its SELECT with the checks
-- (`checked_row`) and then its UPDATE (`consume`), between which other requests may run.
pub mod Laws
pub mod SingleUse
pub mod Renewal
mod Tests
use botwork.Common.{
  ℕ, ◌-◌, Bool, not, ◌&&◌, Option, none, some, [], ◌∷◌, ltb, leb, eqb, if◌then◌else◌, is_none,
  is_some, ◌==◌, nat_eq, list_eq, option_eq, pair_eq, Result, ok, err,
}
use botwork.Common.Text.{is_whitespace, Text, is_lower}
use botwork.Common.Database.{Table}

pub record Invitation : Type 0 where
  pub id : ℕ
  pub tenant_id : ℕ
  pub otp_hash : Text
  pub expires_at : ℕ
  pub consumed_at : Option ℕ
  pub revoked_at : Option ℕ
  pub created_at : ℕ

abbrev pub to_uppercase : ℕ → ℕ
to_uppercase c = if is_lower c then c - 32 else c

abbrev pub normalize_otp : Text → Text
normalize_otp [] = []
normalize_otp (c ∷ otp) =
    let rest = normalize_otp otp in
    if not (is_whitespace c) && not (eqb c b'-') then to_uppercase c ∷ rest else rest

abbrev pub hash_otp : (Text → Text) → Text → Text
hash_otp digest otp = digest (normalize_otp otp)

pub data OtpVerifyError (DbErr : Type 0) : Type 0 where
  invalid_otp expired already_consumed : OtpVerifyError DbErr
  db_error : DbErr → OtpVerifyError DbErr

-- The filters of the queries.
abbrev pub is_match : ℕ → Text → Invitation → Bool
is_match tenant hash r = eqb r.tenant_id tenant && r.otp_hash == hash

abbrev pub is_unconsumed : ℕ → Invitation → Bool
is_unconsumed id r = eqb r.id id && is_none r.consumed_at

abbrev pub is_active : ℕ → ℕ → Invitation → Bool
is_active tenant now r =
    eqb r.tenant_id tenant
    && (is_none r.consumed_at && (ltb now r.expires_at && is_none r.revoked_at))

abbrev pub mark_consumed : ℕ → Invitation → Invitation
mark_consumed now r = record r { consumed_at = some now }

abbrev pub mark_revoked : ℕ → Invitation → Invitation
mark_revoked now r = record r { revoked_at = some now }

module _ (table : Table Invitation) where
  open table use {Db, DbErr, find_one, update_many, commit}

  abbrev pub fresh_invitation : ℕ → ℕ → Text → ℕ → ℕ → Invitation
  fresh_invitation id tenant hash expires_at now = record {
    id = id;
    tenant_id = tenant;
    otp_hash = hash;
    expires_at = expires_at;
    consumed_at = none;
    revoked_at = none;
    created_at = now;
  }

  -- `id` is the fresh `Uuid::new_v4()`.
  abbrev pub insert_invitation : ℕ → ℕ → Text → ℕ → ℕ → Db → Result DbErr Unit × Db
  insert_invitation id tenant hash expires_at now db =
      table.insert (fresh_invitation id tenant hash expires_at now) db

  pub has_active_invitation : ℕ → ℕ → Db → Result DbErr Bool
  has_active_invitation tenant now db = elim (find_one (is_active tenant now) db) [
    | ok row ↦ ok (is_some row)
    | err e ↦ err e
  ]

  -- Steps 2 to 3: what is read of the row.
  abbrev pub check_row : ℕ → Invitation → Result (OtpVerifyError DbErr) Invitation
  check_row now r =
      if leb r.expires_at now
      then err expired
      else if is_some r.revoked_at
      then err invalid_otp
      else if is_some r.consumed_at
      then err already_consumed
      else ok r

  abbrev pub found_row : ℕ → Option Invitation → Result (OtpVerifyError DbErr) Invitation
  found_row now none = err invalid_otp
  found_row now (some r) = check_row now r

  pub checked_row : ℕ → Text → ℕ → Db → Result (OtpVerifyError DbErr) Invitation
  checked_row tenant hash now db = elim (find_one (is_match tenant hash) db) [
    | err e ↦ err (db_error e)
    | ok row ↦ found_row now row
  ]

  abbrev pub affected : Result DbErr ℕ → Result (OtpVerifyError DbErr) Unit
  affected (err e) = err (db_error e)
  affected (ok n) = if eqb n 0 then err already_consumed else ok tt

  -- Step 4: the UPDATE.
  pub consume : ℕ → ℕ → Db → Result (OtpVerifyError DbErr) Unit × Db
  consume id now db =
      let (result, db') = update_many (mark_consumed now) (is_unconsumed id) db in
      (affected result, db')

  pub verify_and_consume :
      (Text → Text) → ℕ → Text → ℕ → Db → Result (OtpVerifyError DbErr) Unit × Db
  unfolding checked_row consume
  verify_and_consume digest tenant otp now db =
      elim (checked_row tenant (hash_otp digest otp) now db) [
        | err e ↦ (err e, db)
        | ok row ↦ consume row.id now db
      ]

  pub revoke_invitations_for_tenant : ℕ → ℕ → Db → Result DbErr ℕ × Db
  revoke_invitations_for_tenant tenant now db =
      update_many (mark_revoked now) (is_active tenant now) db

  -- `?` on the insert drops the transaction, which rolls it back to `before`.
  abbrev pub end_renewal : Db → Result DbErr Unit × Db → Result DbErr Unit × Db
  end_renewal before (err e, during) = (err e, before)
  end_renewal before (ok u, during) = commit before during

  abbrev pub renewed : ℕ → ℕ → Text → ℕ → ℕ → Db → Result DbErr ℕ × Db → Result DbErr Unit × Db
  renewed id tenant hash expires_at now before (err e, during) = (err e, before)
  renewed id tenant hash expires_at now before (ok n, during) =
      end_renewal before (insert_invitation id tenant hash expires_at now during)

  pub renew_invitation : ℕ → ℕ → Text → ℕ → ℕ → Db → Result DbErr Unit × Db
  unfolding revoke_invitations_for_tenant
  renew_invitation id tenant hash expires_at now db =
      renewed id tenant hash expires_at now db (revoke_invitations_for_tenant tenant now db)
