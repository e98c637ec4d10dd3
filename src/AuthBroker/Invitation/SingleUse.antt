-- ===== src/AuthBroker/Invitation/SingleUse.antt =====
-- An invitation is spent at most once, whatever runs between the SELECT and the UPDATE of a request
-- (auth-broker/src/auth/invitation.rs).
use botwork.Common.{
  ℕ, suc, ◌≤◌, ◌≡◌, refl, ◌≢◌, inl, inr, Bool, true, false, ◌&&◌, List, [], ◌∷◌, map, arith, eqb,
  if◌then◌else◌, eqb_iff, Bool-cases, on_branches, any, count, any-map-false, nat_eq, list_eq,
  option_eq, Result, ok, err, Result-cases,
}
use botwork.Common.Text.{Text}
use botwork.Common.Database.{Table, set_where}
use botwork.AuthBroker.Invitation.{
  Invitation, is_unconsumed, is_active, mark_consumed, mark_revoked, fresh_invitation,
  OtpVerifyError, consume, revoke_invitations_for_tenant, renewed, end_renewal, renew_invitation,
}

count_none : {A : Type 0} (q : A → Bool) (rs : List A) → any q rs ≡ false → count q rs ≡ 0
count_none q [] h = refl
count_none q (r ∷ rs) h = ground (arith, count_none q rs)

-- The UPDATE leaves no unconsumed row of its id.
none_left :
    (id now : ℕ) (rs : List Invitation)
    → any (is_unconsumed id) (map (set_where (is_unconsumed id) (mark_consumed now)) rs) ≡ false
none_left id now [] = refl
none_left id now (r ∷ rs) = ground (arith, none_left id now rs)

-- What the other requests do to the table. A request that spends an invitation is its UPDATE, at
-- the id that its SELECT found.
pub data Request : Type 0 where
  consumes : ℕ → ℕ → Request
  revokes : ℕ → ℕ → Request
  inserts : Invitation → Request
  renews : ℕ → ℕ → Text → ℕ → ℕ → Request

-- A UUID is never given twice.
abbrev pub NeverGivenTo : ℕ → List Request → Type 0
NeverGivenTo id [] = Unit
NeverGivenTo id (inserts r ∷ requests) = (r.id ≢ id) × NeverGivenTo id requests
NeverGivenTo id (renews j tenant hash expires_at now ∷ requests) =
    (j ≢ id) × NeverGivenTo id requests
NeverGivenTo id (consumes j now ∷ requests) = NeverGivenTo id requests
NeverGivenTo id (revokes tenant now ∷ requests) = NeverGivenTo id requests

module _ (table : Table Invitation) where
  open table use {Db, DbErr, rows}

  abbrev pub step : Request → Db → Db
  step (consumes id now) db = (consume table id now db).1
  step (revokes tenant now) db = (revoke_invitations_for_tenant table tenant now db).1
  step (inserts r) db = (table.insert r db).1
  step (renews id tenant hash expires_at now) db =
      (renew_invitation table id tenant hash expires_at now db).1

  abbrev pub succeeds : Result (OtpVerifyError DbErr) Unit → Bool
  succeeds (ok u) = true
  succeeds (err e) = false

  abbrev pub spends : ℕ → Request → Db → Bool
  spends id (consumes j now) db = eqb j id && succeeds (consume table j now db).0
  spends id (revokes tenant now) db = false
  spends id (inserts r) db = false
  spends id (renews j tenant hash expires_at now) db = false

  abbrev pub times_spent : ℕ → List Request → Db → ℕ
  times_spent id [] db = 0
  times_spent id (request ∷ requests) db =
      let rest = times_spent id requests (step request db) in
      if spends id request db then suc rest else rest

  abbrev IsSpent : ℕ → List Invitation → Type 0
  IsSpent id rs = any (is_unconsumed id) rs ≡ false

  update-IsSpent :
      (f : Invitation → Invitation) (p : Invitation → Bool) (id : ℕ) (db : Db)
      → ((r : Invitation) → is_unconsumed id r ≡ false → is_unconsumed id (f r) ≡ false)
      → IsSpent id (rows db)
      → IsSpent id (rows (table.update_many f p db).1)
  update-IsSpent f p id db keeps h =
      let kept =
        any-map-false (is_unconsumed id) (set_where p f) (rows db)
          (λ r g. on_branches (λ s. is_unconsumed id s ≡ false) (p r) (keeps r g) g) h in
      elim (table.update_many-rows f p db) [ inl e ↦ rw e h | inr e ↦ rw e kept ]

  insert-IsSpent :
      (r : Invitation) (id : ℕ) (db : Db)
      → r.id ≢ id
      → IsSpent id (rows db)
      → IsSpent id (rows (table.insert r db).1)
  insert-IsSpent r id db other h = elim (table.insert-rows r db) [
    | inl e ↦ rw e h
    | inr e ↦ rw e (ground arith)
  ]

  commit-IsSpent :
      (before after : Db) (id : ℕ)
      → IsSpent id (rows before)
      → IsSpent id (rows after)
      → IsSpent id (rows (table.commit before after).1)
  commit-IsSpent before after id h g = elim (table.commit-rows before after) [
    | inl e ↦ rw e h
    | inr e ↦ rw e g
  ]

  renew-IsSpent :
      (id j tenant : ℕ) (hash : Text) (expires_at now : ℕ) (db : Db)
      → j ≢ id
      → IsSpent id (rows db)
      → IsSpent id (rows (renew_invitation table j tenant hash expires_at now db).1)
  unfolding renew_invitation revoke_invitations_for_tenant
  renew-IsSpent id j tenant hash expires_at now db other h =
      let revoked = table.update_many (mark_revoked now) (is_active tenant now) db in
      after_revoke revoked
        (update-IsSpent (mark_revoked now) (is_active tenant now) id db (λ r g. g) h)
    where
      after_insert :
          (result : Result DbErr Unit × Db)
          → IsSpent id (rows result.1)
          → IsSpent id (rows (end_renewal table db result).1)
      after_insert (err e, during) g = h
      after_insert (ok u, during) g = commit-IsSpent db during id h g

      after_revoke :
          (result : Result DbErr ℕ × Db)
          → IsSpent id (rows result.1)
          → IsSpent id (rows (renewed table j tenant hash expires_at now db result).1)
      after_revoke (err e, during) g = h
      after_revoke (ok n, during) g =
          let r = fresh_invitation table j tenant hash expires_at now in
          after_insert (table.insert r during) (insert-IsSpent r id during other g)

  -- A spent invitation stays spent.
  step-IsSpent :
      (id : ℕ) (request : Request) (requests : List Request) (db : Db)
      → NeverGivenTo id (request ∷ requests)
      → IsSpent id (rows db)
      → IsSpent id (rows (step request db)) × NeverGivenTo id requests
  unfolding consume revoke_invitations_for_tenant
  step-IsSpent id (consumes j now) requests db fresh h =
      (update-IsSpent (mark_consumed now) (is_unconsumed j) id db (λ r g. ground arith) h, fresh)
  step-IsSpent id (revokes tenant now) requests db fresh h =
      (update-IsSpent (mark_revoked now) (is_active tenant now) id db (λ r g. g) h, fresh)
  step-IsSpent id (inserts r) requests db fresh h = (insert-IsSpent r id db fresh.0 h, fresh.1)
  step-IsSpent id (renews j tenant hash expires_at now) requests db fresh h =
      (renew-IsSpent id j tenant hash expires_at now db fresh.0 h, fresh.1)

  -- No request spends it any more.
  spends_none :
      (id : ℕ) (request : Request) (db : Db) → IsSpent id (rows db) → spends id request db ≡ false
  unfolding consume
  spends_none id (consumes j now) db h =
      elim (Result-cases (table.update_many (mark_consumed now) (is_unconsumed j) db).0) [
        | inl (n, e) ↦ ground (
          arith,
          e,
          table.update_many-ok (mark_consumed now) (is_unconsumed j) db n e,
          count_none (is_unconsumed id) (rows db) h,
          eqb_iff j id,
        )
        | inr (e, failed) ↦ ground (arith, failed)
      ]
  spends_none id (revokes tenant now) db h = refl
  spends_none id (inserts r) db h = refl
  spends_none id (renews j tenant hash expires_at now) db h = refl

  never_spent_again :
      (id : ℕ) (requests : List Request) (db : Db)
      → NeverGivenTo id requests
      → IsSpent id (rows db)
      → times_spent id requests db ≡ 0
  never_spent_again id [] db fresh h = refl
  never_spent_again id (request ∷ requests) db fresh h =
      let (h', fresh') = step-IsSpent id request requests db fresh h in
      rw (spends_none id request db h) (never_spent_again id requests (step request db) fresh' h')

  -- The UPDATE that succeeds spends.
  spends-IsSpent :
      (id : ℕ) (request : Request) (db : Db)
      → spends id request db ≡ true
      → IsSpent id (rows (step request db))
  unfolding consume
  spends-IsSpent id (consumes j now) db h =
      elim (Result-cases (table.update_many (mark_consumed now) (is_unconsumed j) db).0) [
        | inl (n, e) ↦ ground (
          arith,
          e,
          eqb_iff j id,
          table.update_many-ok (mark_consumed now) (is_unconsumed j) db n e,
          none_left j now (rows db),
        )
        | inr (e, failed) ↦ ground (arith, failed)
      ]
  spends-IsSpent id (revokes tenant now) db h = cc
  spends-IsSpent id (inserts r) db h = cc
  spends-IsSpent id (renews j tenant hash expires_at now) db h = cc

  -- Whatever requests run in whatever order, and whichever statements fail, at most one of them
  -- spends the invitation `id`, if no later row is given this id.
  pub single_use :
      (id : ℕ) (requests : List Request) (db : Db)
      → NeverGivenTo id requests
      → times_spent id requests db ≤ 1
  single_use id [] db fresh = omega arith
  single_use id (request ∷ requests) db fresh = elim (Bool-cases (spends id request db)) [
    | inl e ↦
        let spent = spends-IsSpent id request db e in
        ground (
          arith,
          e,
          never_spent_again id requests (step request db) (rest_fresh request fresh) spent,
        )
    | inr e ↦ ground (arith, e, single_use id requests (step request db) (rest_fresh request fresh))
  ]
    where
      rest_fresh : (r : Request) → NeverGivenTo id (r ∷ requests) → NeverGivenTo id requests
      rest_fresh (consumes j now) fresh = fresh
      rest_fresh (revokes tenant now) fresh = fresh
      rest_fresh (inserts r) fresh = fresh.1
      rest_fresh (renews j tenant hash expires_at now) fresh = fresh.1
