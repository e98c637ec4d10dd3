-- ===== src/AuthBroker/Invitation/Tests.antt =====
-- Invitations in a table in memory; the digest of a text is the text.
use botwork.Common.{
  ◌≤◌, ◌≡◌, refl, ◌≢◌, ◌⊎◌, Bool, true, ◌&&◌, none, some, [], ◌∷◌, map, arith, eqb, if◌then◌else◌,
  is_none, any, nat_eq, list_eq, option_eq, pair_eq, ok, err,
}
use botwork.Common.Text.{Text, bytes}
use botwork.Common.Database.{Table}
use botwork.Common.Database.Memory.{in_memory, Store}
use botwork.AuthBroker.Invitation.{
  Invitation, expired, db_error, consume, verify_and_consume, checked_row,
  revoke_invitations_for_tenant, renew_invitation,
}
use botwork.AuthBroker.Invitation.Laws.{is_claimable, verify_and_consume-ok, claimable_is_accepted}
use botwork.AuthBroker.Invitation.SingleUse.{consumes, revokes, renews, times_spent, single_use}
use botwork.AuthBroker.Invitation.Renewal.{after_renewal, renew_all_or_nothing}

abbrev table : Table Invitation
table = in_memory Invitation

abbrev digest : Text → Text
digest s = s

abbrev offer : Invitation
offer = record {
  id = 7;
  tenant_id = 1;
  otp_hash = bytes "A1B2";
  expires_at = 100;
  consumed_at = none;
  revoked_at = none;
  created_at = 0;
}

abbrev other_offer : Invitation
other_offer = record offer { id = 8; tenant_id = 2 }

abbrev open_store : Store Invitation
open_store = (true, offer ∷ other_offer ∷ [])

invitations : Unit {0}
unfolding verify_and_consume checked_row consume revoke_invitations_for_tenant renew_invitation
invitations = tt

accepted : (verify_and_consume table digest 1 (bytes "a1-b2") 50 open_store).0 ≡ ok tt
unfolding invitations
accepted = refl

refused : (verify_and_consume table digest 1 (bytes "a1-b2") 100 open_store).0 ≡ err expired
unfolding invitations
refused = refl

verify_and_consume-ok_example :
    (s : Invitation) × ((q : Invitation → Bool)
      → q s ≡ true
      → any q (offer ∷ other_offer ∷ []) ≡ true)
    × (is_claimable 1 (bytes "A1B2") 50 s ≡ true)
    × ((verify_and_consume table digest 1 (bytes "a1-b2") 50 open_store).1.1
        ≡ map
            (λ r.
              if eqb r.id s.id && is_none r.consumed_at
              then record r { consumed_at = some 50 }
              else r)
            (offer ∷ other_offer ∷ []))
verify_and_consume-ok_example =
    verify_and_consume-ok table digest 1 (bytes "a1-b2") 50 open_store accepted

claimable_is_accepted_example :
    ((verify_and_consume table digest 1 (bytes "a1-b2") 50 open_store).0 ≡ ok tt)
    ⊎ ((failure : Unit {0}) × ((verify_and_consume table digest 1 (bytes "a1-b2") 50 open_store).0
          ≡ err (db_error failure)))
claimable_is_accepted_example =
    claimable_is_accepted table digest 1 (bytes "a1-b2") 50 open_store refl refl

single_use_example :
    times_spent table 7
      (consumes 7 50 ∷ revokes 2 51 ∷ renews 9 1 (bytes "C3") 200 52 ∷ consumes 7 53 ∷ [])
      open_store
    ≤ 1
single_use_example =
    single_use table 7
      (consumes 7 50 ∷ revokes 2 51 ∷ renews 9 1 (bytes "C3") 200 52 ∷ consumes 7 53 ∷ [])
      open_store ((λ e. omega arith), tt)

-- A revocation between the SELECT and the UPDATE of a request does not stop the request.
revoked_meanwhile :
    let (result, db') = revoke_invitations_for_tenant table 1 50 open_store in
    (checked_row table 1 (bytes "A1B2") 49 open_store ≡ ok offer)
    × (result ≡ ok 1)
    × ((consume table 7 51 db').0 ≡ ok tt)
unfolding invitations
revoked_meanwhile = (refl, refl, refl)

revoked_one : (revoke_invitations_for_tenant table 1 50 open_store).0 ≡ ok 1
unfolding invitations
revoked_one = refl

renew_all_or_nothing_example :
    let (result, db') = renew_invitation table 9 1 (bytes "C3") 200 50 open_store in
    (db'.1 ≡ after_renewal table 9 1 (bytes "C3") 200 50 open_store)
    ⊎ ((db'.1 ≡ offer ∷ other_offer ∷ []) × (result ≢ ok tt))
renew_all_or_nothing_example = renew_all_or_nothing table 9 1 (bytes "C3") 200 50 open_store

renewal_done : (renew_invitation table 9 1 (bytes "C3") 200 50 open_store).0 ≡ ok tt
unfolding invitations
renewal_done = refl
