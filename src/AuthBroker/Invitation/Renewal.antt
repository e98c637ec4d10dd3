-- ===== src/AuthBroker/Invitation/Renewal.antt =====
-- Revoking and renewing the invitations of a tenant (auth-broker/src/auth/invitation.rs).
use botwork.Common.{
  ℕ, ◌<◌, ◌≡◌, refl, ◌≢◌, ◌⊎◌, inl, inr, List, [], ◌∷◌, map, arith, count, nat_eq, list_eq,
  option_eq, ok, Result-cases,
}
use botwork.Common.Text.{Text}
use botwork.Common.Database.{Table, set_where}
use botwork.AuthBroker.Invitation.{
  Invitation, is_active, mark_revoked, fresh_invitation, revoke_invitations_for_tenant,
  renew_invitation,
}

abbrev pub all_revoked : ℕ → ℕ → List Invitation → List Invitation
all_revoked tenant now rs = map (set_where (is_active tenant now) (mark_revoked now)) rs

count-all_revoked :
    (tenant now : ℕ) (rs : List Invitation)
    → count (is_active tenant now) (all_revoked tenant now rs) ≡ 0
count-all_revoked tenant now [] = refl
count-all_revoked tenant now (r ∷ rs) = ground (arith, count-all_revoked tenant now rs)

other-all_revoked :
    (tenant other now : ℕ) (rs : List Invitation)
    → other ≢ tenant
    → count (is_active other now) (all_revoked tenant now rs) ≡ count (is_active other now) rs
other-all_revoked tenant other now [] h = refl
other-all_revoked tenant other now (r ∷ rs) h =
    ground (arith, other-all_revoked tenant other now rs)

module _ (table : Table Invitation) where
  open table use {Db, DbErr, rows}

  -- A revocation that reports `n` found `n` active invitations of the tenant and leaves none, and
  -- those of another tenant stay active.
  pub revoke_invitations_for_tenant-ok :
      (tenant other now n : ℕ) (db : Db)
      → (revoke_invitations_for_tenant table tenant now db).0 ≡ ok n
      → other ≢ tenant
      → let after = rows (revoke_invitations_for_tenant table tenant now db).1 in
        (n ≡ count (is_active tenant now) (rows db))
        × (count (is_active tenant now) after ≡ 0)
        × (count (is_active other now) after ≡ count (is_active other now) (rows db))
  unfolding revoke_invitations_for_tenant
  revoke_invitations_for_tenant-ok tenant other now n db h apart =
      let (total, changed) =
        table.update_many-ok (mark_revoked now) (is_active tenant now) db n h in
      (
        total,
        rw changed (count-all_revoked tenant now (rows db)),
        rw changed (other-all_revoked tenant other now (rows db) apart),
      )

  -- The table after a renewal that took place.
  abbrev pub after_renewal : ℕ → ℕ → Text → ℕ → ℕ → Db → List Invitation
  after_renewal id tenant hash expires_at now db =
      fresh_invitation table id tenant hash expires_at now ∷ all_revoked tenant now (rows db)

  -- A renewal that is reported to have succeeded has taken place, and one that fails has taken
  -- place as a whole or not at all.
  pub renew_all_or_nothing :
      (id tenant : ℕ) (hash : Text) (expires_at now : ℕ) (db : Db)
      → let (result, db') = renew_invitation table id tenant hash expires_at now db in
        (rows db' ≡ after_renewal id tenant hash expires_at now db)
        ⊎ ((rows db' ≡ rows db) × (result ≢ ok tt))
  unfolding renew_invitation revoke_invitations_for_tenant
  renew_all_or_nothing id tenant hash expires_at now db =
      let fresh = fresh_invitation table id tenant hash expires_at now in
      let during = (table.update_many (mark_revoked now) (is_active tenant now) db).1 in
      let final = (table.insert fresh during).1 in
      elim (Result-cases (table.update_many (mark_revoked now) (is_active tenant now) db).0) [
        | inr (failure, e) ↦ inr (ground (arith, e))
        | inl (n, e) ↦ elim (Result-cases (table.insert fresh during).0) [
          | inr (failure, g) ↦ inr (ground (arith, e, g))
          | inl (u, g) ↦
              let revoked = table.update_many-ok (mark_revoked now) (is_active tenant now) db n e in
              let inserted = table.insert-ok fresh during g in
              ground (
                arith,
                e,
                g,
                revoked,
                inserted,
                table.commit-ok db final,
                table.commit-rows db final,
              )
        ]
      ]

  -- After a renewal that succeeds, with a new expiry in the future, the tenant has exactly one
  -- active invitation, and another tenant as many as before.
  pub renewed_is_single :
      (id tenant other : ℕ) (hash : Text) (expires_at now : ℕ) (db : Db)
      → (renew_invitation table id tenant hash expires_at now db).0 ≡ ok tt
      → now < expires_at
      → other ≢ tenant
      → let after = rows (renew_invitation table id tenant hash expires_at now db).1 in
        (count (is_active tenant now) after ≡ 1)
        × (count (is_active other now) after ≡ count (is_active other now) (rows db))
  renewed_is_single id tenant other hash expires_at now db h future apart =
      elim (renew_all_or_nothing id tenant hash expires_at now db) [
        | inr (same, failed) ↦ ground (arith, failed)
        | inl changed ↦ ground (
          arith,
          changed,
          count-all_revoked tenant now (rows db),
          other-all_revoked tenant other now (rows db) apart,
        )
      ]
