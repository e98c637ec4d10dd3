-- ===== src/AuthBroker/Lease/Tests.antt =====
-- Leases in a table in memory; the digest of a text is the text, and a key is wrapped as itself.
use botwork.Common.{
  ◌+◌, min, max, ◌≡◌, refl, ◌≢◌, Bool, true, Option, none, some, [], ◌∷◌, map, arith, eqb,
  if◌then◌else◌, eqb_iff, any, nat_eq, list_eq, option_eq, pair_eq, ok, err,
}
use botwork.Common.Text.{Text, bytes}
use botwork.Common.Database.{Table}
use botwork.Common.Database.Memory.{in_memory, Store}
use botwork.AuthBroker.Lease.{
  row_of, lease_idle_window_seconds, Lease, ValidatedLease, expired, insert_lease,
  validate_and_extend_inner, validate_and_extend, revoke, revoke_by_id, row_of,
}
use botwork.AuthBroker.Lease.Expiry.{issues, validates, step, run, AreSound, step-AreSound}
use botwork.AuthBroker.Lease.Revocation.{is_live, validated_is_live, revoked_stays_out}

abbrev table : Table Lease
table = in_memory Lease

abbrev digest : Text → Text
digest s = s

abbrev unwrap : Text → Text → Option Text
unwrap bearer wrapped = some wrapped

-- Issued at 100 for an hour and a half.
abbrev lease : Lease
lease = record {
  id = 7;
  tenant_id = 1;
  bearer_hash = bytes "B";
  wrapped_export_key = bytes "K";
  issued_at = 100;
  expires_at = 5500;
  idle_extends_to = 3700;
  revoked_at = none;
}

abbrev store : Store Lease
store = (true, lease ∷ [])

abbrev validated : ValidatedLease
validated = record {
  lease = record (row_of lease) { idle_extends_to = 5500 };
  export_key = bytes "K";
}

leases : Unit {0}
unfolding insert_lease validate_and_extend validate_and_extend_inner revoke revoke_by_id
leases = tt

store-AreSound : AreSound table digest unwrap store.1
store-AreSound = ((λ id. ground (arith, eqb_iff 7 id)), refl)

valid : (validate_and_extend table digest unwrap (bytes "B") 2000 store).0 ≡ ok (some validated)
unfolding leases
valid = refl

idle_too_long : (validate_and_extend table digest unwrap (bytes "B") 3700 store).0 ≡ err expired
unfolding leases
idle_too_long = refl

step-AreSound_example :
    AreSound table digest unwrap (step table digest unwrap (validates (bytes "B") 2000) store).1
step-AreSound_example =
    step-AreSound table digest unwrap (validates (bytes "B") 2000) store tt store-AreSound

validated_is_live_example :
    (m : Lease) × ((q : Lease → Bool) → q m ≡ true → any q (lease ∷ []) ≡ true)
    × (is_live (bytes "B") 2000 m ≡ true)
    × (validated.lease ≡ record (row_of m) {
      idle_extends_to = max (min (2000 + lease_idle_window_seconds) m.expires_at) m.idle_extends_to;
    })
    × ((validate_and_extend table digest unwrap (bytes "B") 2000 store).1.1
        ≡ map
            (λ r.
              if eqb r.id m.id
              then record r { idle_extends_to = validated.lease.idle_extends_to }
              else r)
            (lease ∷ []))
validated_is_live_example =
    validated_is_live table digest unwrap (bytes "B") 2000 store validated valid

revoked_once : (revoke table (bytes "B") 1000 store).0 ≡ ok 1
unfolding leases
revoked_once = refl

revoked_stays_out_example :
    let later =
      run table digest unwrap
        (issues 8 1 (bytes "C") (bytes "L") 60 1100 ∷ [])
        (revoke table (bytes "B") 1000 store).1 in
    (validate_and_extend table digest unwrap (bytes "B") 1200 later).0 ≢ ok (some validated)
revoked_stays_out_example =
    revoked_stays_out table digest unwrap (bytes "B") 1000 1200 1
      (issues 8 1 (bytes "C") (bytes "L") 60 1100 ∷ []) store validated revoked_once (refl, tt)
