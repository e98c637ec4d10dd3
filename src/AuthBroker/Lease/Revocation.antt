-- ===== src/AuthBroker/Lease/Revocation.antt =====
-- Which validations succeed, and that a revoked bearer has none (auth-broker/src/auth/lease.rs).
use botwork.Common.{
  ℕ, ◌+◌, ◌<◌, min, max, ◌≡◌, refl, ◌∙◌, ◌≢◌, inl, inr, Bool, true, false, ◌&&◌, Option, none, some,
  List, [], ◌∷◌, map, arith, ltb, eqb, if◌then◌else◌, on_branches, Option-cases, is_none, any,
  any-map-false, ◌==◌, nat_eq, list_eq, option_eq, pair_eq, ok, err, Result-cases,
}
use botwork.Common.Text.{Text}
use botwork.Common.Database.{Table, set_where}
use botwork.AuthBroker.Lease.{
  Lease, ValidatedLease, Validation, lease_idle_window_seconds, has_hash, has_id, set_idle,
  set_revoked, new_idle, fresh_lease, insert_lease, validate_model, validate_found,
  validate_and_extend_inner, finish, validate_and_extend, revoke, revoke_by_id, row_of,
}
use botwork.AuthBroker.Lease.Expiry.{
  Request, issues, validates, revokes, revokes_id, step, run, update_keeps, insert_keeps,
  validate_keeps,
}

-- What a row needs to validate.
abbrev pub is_live : Text → ℕ → Lease → Bool
is_live hash now m =
    has_hash hash m && (is_none m.revoked_at && (ltb now m.expires_at && ltb now m.idle_extends_to))

-- A row of the bearer that is not revoked.
abbrev pub is_open : Text → Lease → Bool
is_open hash m = has_hash hash m && is_none m.revoked_at

-- No later lease is given the same hash.
abbrev pub NeverIssued : Text → List Request → Type 0
NeverIssued hash [] = Unit
NeverIssued hash (issues id tenant h wrapped seconds now ∷ requests) =
    ((h == hash) ≡ false) × NeverIssued hash requests
NeverIssued hash (validates bearer now ∷ requests) = NeverIssued hash requests
NeverIssued hash (revokes h now ∷ requests) = NeverIssued hash requests
NeverIssued hash (revokes_id id now ∷ requests) = NeverIssued hash requests

none_open :
    (hash : Text) (now : ℕ) (rs : List Lease)
    → any (is_open hash) (map (set_where (is_open hash) (set_revoked now)) rs) ≡ false
none_open hash now [] = refl
none_open hash now (m ∷ rs) = ground (arith, none_open hash now rs)

any_live :
    (hash : Text) (now : ℕ) (rs : List Lease)
    → any (is_live hash now) rs ≡ true
    → any (is_open hash) rs ≡ true
any_live hash now [] h = cc
any_live hash now (m ∷ rs) h = ground (arith, any_live hash now rs)

module _ (table : Table Lease) (digest : Text → Text) (unwrap : Text → Text → Option Text) where
  open table use {Db, DbErr, rows}

  finish-some :
      (before : Db) (result : Validation table × Db) (v : ValidatedLease)
      → (finish table before result).0 ≡ ok (some v)
      → result.0 ≡ ok (some v)
  finish-some before (err e, during) v h = cc
  finish-some before (ok w, during) v h = elim (Result-cases (table.commit before during).0) [
    | inl (u, e) ↦ ground (arith, e)
    | inr (failure, e) ↦ ground (arith, e)
  ]

  model-some :
      (bearer : Text) (now : ℕ) (db : Db) (m : Lease) (v : ValidatedLease)
      → (validate_model table unwrap bearer now db m).0 ≡ ok (some v)
      → (is_none m.revoked_at ≡ true)
        × (now < m.expires_at)
        × (now < m.idle_extends_to)
        × (v.lease ≡ record (row_of m) { idle_extends_to = new_idle now m })
        × (unwrap bearer m.wrapped_export_key ≡ some v.export_key)
  model-some bearer now db m v h = elim (Option-cases (unwrap bearer m.wrapped_export_key)) [
    | inl e ↦ ground (arith, e)
    | inr (key, e) ↦
        elim (Result-cases (table.update_many (set_idle (new_idle now m)) (has_id m.id) db).0) [
          | inl (n, g) ↦ ground (arith, e, g)
          | inr (failure, g) ↦ ground (arith, e, g)
        ]
  ]

  -- The row that a validation read.
  validated_row :
      (bearer : Text) (now : ℕ) (db : Db) (v : ValidatedLease)
      → (validate_and_extend table digest unwrap bearer now db).0 ≡ ok (some v)
      → (m : Lease) × (table.find_one (has_hash (digest bearer)) db ≡ ok (some m))
        × ((validate_model table unwrap bearer now db m).0 ≡ ok (some v))
  unfolding validate_and_extend validate_and_extend_inner
  validated_row bearer now db v h =
      let find = table.find_one (has_hash (digest bearer)) db in
      let h' = finish-some db (validate_found table unwrap bearer now db find) v h in
      elim (Result-cases find) [
        | inr (failure, e) ↦ ground (arith, e, h')
        | inl (none, e) ↦ ground (arith, e, h')
        | inl (some m, e) ↦ (m, e, ground (arith, e, h'))
      ]

  validates_live :
      (bearer : Text) (now : ℕ) (db : Db) (v : ValidatedLease)
      → (validate_and_extend table digest unwrap bearer now db).0 ≡ ok (some v)
      → any (is_live (digest bearer) now) (rows db) ≡ true
  validates_live bearer now db v h =
      let (m, e, valid) = validated_row bearer now db v h in
      let (matched, present) = table.find_one-some (has_hash (digest bearer)) db m e in
      let facts = model-some bearer now db m v valid in
      present (is_live (digest bearer) now) (ground (arith, facts, matched))

  -- What a success leaves is what the transaction wrote.
  finish-rows :
      (before : Db) (result : Validation table × Db) (v : ValidatedLease)
      → (finish table before result).0 ≡ ok (some v)
      → rows (finish table before result).1 ≡ rows result.1
  finish-rows before (err e, during) v h = cc
  finish-rows before (ok w, during) v h = elim (Result-cases (table.commit before during).0) [
    | inl (u, e) ↦ ground (arith, e, table.commit-ok before during)
    | inr (failure, e) ↦ ground (arith, e)
  ]

  model-rows :
      (bearer : Text) (now : ℕ) (db : Db) (m : Lease) (v : ValidatedLease)
      → (validate_model table unwrap bearer now db m).0 ≡ ok (some v)
      → rows (validate_model table unwrap bearer now db m).1
        ≡ map (set_where (has_id m.id) (set_idle (new_idle now m))) (rows db)
  model-rows bearer now db m v h = elim (Option-cases (unwrap bearer m.wrapped_export_key)) [
    | inl e ↦ ground (arith, e)
    | inr (key, e) ↦
        elim (Result-cases (table.update_many (set_idle (new_idle now m)) (has_id m.id) db).0) [
          | inl (n, g) ↦
              let written = table.update_many-ok (set_idle (new_idle now m)) (has_id m.id) db n g in
              ground (arith, e, g, written)
          | inr (failure, g) ↦ ground (arith, e, g)
        ]
  ]

  -- A bearer validates only if the table holds a lease with its hash that is not revoked and whose
  -- absolute and sliding expiry both lie in the future. The lease it returns is this one with the
  -- sliding expiry moved to the end of the idle window, or to the absolute expiry where that comes
  -- first, but never back; and the table afterwards has this sliding expiry in the rows of the
  -- lease's id, and is otherwise what it was.
  pub validated_is_live :
      (bearer : Text) (now : ℕ) (db : Db) (v : ValidatedLease)
      → (validate_and_extend table digest unwrap bearer now db).0 ≡ ok (some v)
      → (m : Lease) × ((q : Lease → Bool) → q m ≡ true → any q (rows db) ≡ true)
        × (is_live (digest bearer) now m ≡ true)
        × (v.lease ≡ record (row_of m) {
          idle_extends_to =
              max (min (now + lease_idle_window_seconds) m.expires_at) m.idle_extends_to;
        })
        × (rows (validate_and_extend table digest unwrap bearer now db).1
            ≡ map
                (λ r.
                  if eqb r.id m.id
                  then record r { idle_extends_to = v.lease.idle_extends_to }
                  else r)
                (rows db))
  unfolding validate_and_extend validate_and_extend_inner
  validated_is_live bearer now db v h =
      let (m, e, valid) = validated_row bearer now db v h in
      let (matched, present) = table.find_one-some (has_hash (digest bearer)) db m e in
      let facts = model-some bearer now db m v valid in
      let find = table.find_one (has_hash (digest bearer)) db in
      let written : rows (validate_and_extend table digest unwrap bearer now db).1
          ≡ map (set_where (has_id m.id) (set_idle (new_idle now m))) (rows db) =
        finish-rows db (validate_found table unwrap bearer now db find) v h
        ∙ rw (e) (model-rows bearer now db m v valid) in
      let idle : v.lease.idle_extends_to ≡ new_idle now m = ground (arith, facts) in
      (m, present, ground (arith, facts, matched), ground (arith, facts), rw (idle) written)

  -- No row of the hash is open.
  abbrev pub IsClosed : Text → List Lease → Type 0
  IsClosed hash rs = any (is_open hash) rs ≡ false

  revoke-IsClosed :
      (hash : Text) (now : ℕ) (p : Lease → Bool) (db : Db)
      → IsClosed hash (rows db)
      → IsClosed hash (rows (table.update_many (set_revoked now) p db).1)
  revoke-IsClosed hash now p db closed =
      update_keeps table digest unwrap (IsClosed hash) (set_revoked now) p db closed (
        any-map-false (is_open hash) (set_where p (set_revoked now)) (rows db)
          (λ r g. on_branches (λ s. is_open hash s ≡ false) (p r) (ground arith) g) closed)

  step-IsClosed :
      (hash : Text) (request : Request) (requests : List Request) (db : Db)
      → NeverIssued hash (request ∷ requests)
      → IsClosed hash (rows db)
      → IsClosed hash (rows (step table digest unwrap request db)) × NeverIssued hash requests
  unfolding insert_lease revoke revoke_by_id
  step-IsClosed hash (issues id tenant h wrapped seconds now) requests db fresh closed =
      let m = fresh_lease table id tenant h wrapped seconds now in
      (
        insert_keeps table digest unwrap (IsClosed hash) m db closed (ground (arith, fresh.0)),
        fresh.1,
      )
  step-IsClosed hash (validates bearer now) requests db fresh closed = (
    validate_keeps table digest unwrap (IsClosed hash) bearer now db closed (λ m e.
        any-map-false (is_open hash) (set_where (has_id m.id) (set_idle (new_idle now m))) (rows db)
          (λ r g. on_branches (λ s. is_open hash s ≡ false) (has_id m.id r) g g) closed),
    fresh,
  )
  step-IsClosed hash (revokes h now) requests db fresh closed =
      (revoke-IsClosed hash now (is_open h) db closed, fresh)
  step-IsClosed hash (revokes_id id now) requests db fresh closed =
      (revoke-IsClosed hash now (λ m. has_id id m && is_none m.revoked_at) db closed, fresh)

  run-IsClosed :
      (hash : Text) (requests : List Request) (db : Db)
      → NeverIssued hash requests
      → IsClosed hash (rows db)
      → IsClosed hash (rows (run table digest unwrap requests db))
  run-IsClosed hash [] db fresh closed = closed
  run-IsClosed hash (request ∷ requests) db fresh closed =
      let (closed', fresh') = step-IsClosed hash request requests db fresh closed in
      run-IsClosed hash requests (step table digest unwrap request db) fresh' closed'

  -- After a revocation of a bearer's hash that reports success, that bearer validates at no time and
  -- after no sequence of requests, if no later lease is issued with the same hash.
  pub revoked_stays_out :
      (bearer : Text) (revoked_at now n : ℕ) (requests : List Request) (db : Db)
      (v : ValidatedLease)
      → (revoke table (digest bearer) revoked_at db).0 ≡ ok n
      → NeverIssued (digest bearer) requests
      → let later =
          run table digest unwrap requests (revoke table (digest bearer) revoked_at db).1 in
        (validate_and_extend table digest unwrap bearer now later).0 ≢ ok (some v)
  unfolding revoke
  revoked_stays_out bearer revoked_at now n requests db v h fresh valid =
      let hash = digest bearer in
      let revoked = (revoke table hash revoked_at db).1 in
      let changed = (table.update_many-ok (set_revoked revoked_at) (is_open hash) db n h).1 in
      let closed : IsClosed hash (rows revoked) =
        rw changed (none_open hash revoked_at (rows db)) in
      let later = run table digest unwrap requests revoked in
      let still = run-IsClosed hash requests revoked fresh closed in
      let live = validates_live bearer now later v valid in
      ground (arith, any_live hash now (rows later) live, still)
