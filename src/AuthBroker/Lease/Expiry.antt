-- ===== src/AuthBroker/Lease/Expiry.antt =====
-- No chain of validations carries a lease past its cap (auth-broker/src/auth/lease.rs).
use botwork.Common.{
  ℕ, ◌+◌, ◌≤◌, ◌<◌, ◌≡◌, refl, inl, inr, Bool, true, false, not, ◌&&◌, ◌||◌, Option, none, some,
  List, [], ◌∷◌, map, arith, leb, eqb, eqb_iff, on_branches, is_none, is_some, any, count,
  any-map-false, any_of_both, nat_eq, list_eq, option_eq, Result, ok, err,
}
use botwork.Common.Text.{Text}
use botwork.Common.Database.{Table, set_where}
use botwork.AuthBroker.Lease.{
  Lease, lease_hard_cap_seconds, has_hash, has_id, set_idle, set_revoked, new_idle, fresh_lease,
  insert_lease, extend, validate_found, validate_and_extend_inner, finish, committed, Validation,
  validate_and_extend, revoke, revoke_by_id,
}

-- The sliding expiry is within the absolute one, and that within the cap.
abbrev pub is_bounded : Lease → Bool
is_bounded m =
    leb m.idle_extends_to m.expires_at && leb m.expires_at (m.issued_at + lease_hard_cap_seconds)

abbrev pub AreBounded : List Lease → Type 0
AreBounded rs = any (λ m. not (is_bounded m)) rs ≡ false

-- `id` is the primary key.
abbrev pub AreKeyed : List Lease → Type 0
AreKeyed rs = (id : ℕ) → count (has_id id) rs ≤ 1

pub data Request : Type 0 where
  issues : ℕ → ℕ → Text → Text → ℕ → ℕ → Request
  validates : Text → ℕ → Request
  revokes : Text → ℕ → Request
  revokes_id : ℕ → ℕ → Request

count-set_where :
    (id : ℕ) (p : Lease → Bool) (f : Lease → Lease) (rs : List Lease)
    → ((r : Lease) → (f r).id ≡ r.id)
    → count (has_id id) (map (set_where p f) rs) ≡ count (has_id id) rs
count-set_where id p f [] keeps = refl
count-set_where id p f (r ∷ rs) keeps = ground (arith, keeps r, count-set_where id p f rs keeps)

-- Extending the one row of an id.
extend-AreBounded :
    (now : ℕ) (m : Lease) (rs : List Lease)
    → is_bounded m ≡ true
    → any (λ r. has_id m.id r && not (eqb r.expires_at m.expires_at)) rs ≡ false
    → AreBounded rs
    → AreBounded (map (set_where (has_id m.id) (set_idle (new_idle now m))) rs)
extend-AreBounded now m [] b alone h = refl
extend-AreBounded now m (r ∷ rs) b alone h = ground (arith, extend-AreBounded now m rs b)

module _ (table : Table Lease) (digest : Text → Text) (unwrap : Text → Text → Option Text) where
  open table use {Db, DbErr, rows}

  abbrev pub step : Request → Db → Db
  step (issues id tenant hash wrapped seconds now) db =
      (insert_lease table id tenant hash wrapped seconds now db).1
  step (validates bearer now) db = (validate_and_extend table digest unwrap bearer now db).1
  step (revokes hash now) db = (revoke table hash now db).1
  step (revokes_id id now) db = (revoke_by_id table id now db).1

  abbrev pub run : List Request → Db → Db
  run [] db = db
  run (request ∷ requests) db = run requests (step request db)

  finish_keeps :
      (P : List Lease → Type 0) (before : Db) (result : Validation table × Db)
      → P (rows before)
      → P (rows result.1)
      → P (rows (finish table before result).1)
  finish_keeps P before (err e, during) p q = p
  finish_keeps P before (ok v, during) p q =
      committed_keeps (table.commit before during)
        (elim (table.commit-rows before during) [ inl e ↦ rw e p | inr e ↦ rw e q ])
    where
      committed_keeps :
          (result : Result DbErr (Unit {0}) × Db)
          → P (rows result.1)
          → P (rows (committed table (ok v) result).1)
      committed_keeps (ok u, db) r = r
      committed_keeps (err e, db) r = r

  -- What holds of the table, and of the table with the found row extended, holds after a
  -- validation.
  pub validate_keeps :
      (P : List Lease → Type 0) (bearer : Text) (now : ℕ) (db : Db)
      → P (rows db)
      → ((m : Lease)
          → table.find_one (has_hash (digest bearer)) db ≡ ok (some m)
          → P (map (set_where (has_id m.id) (set_idle (new_idle now m))) (rows db)))
      → P (rows (validate_and_extend table digest unwrap bearer now db).1)
  unfolding validate_and_extend validate_and_extend_inner
  validate_keeps P bearer now db p q =
      finish_keeps P db
        (validate_found table unwrap bearer now db (table.find_one (has_hash (digest bearer)) db)) p
        (found_keeps (table.find_one (has_hash (digest bearer)) db) refl)
    where
      extend_keeps :
          (m : Lease) (key : Option Text)
          → P (map (set_where (has_id m.id) (set_idle (new_idle now m))) (rows db))
          → P (rows (extend table m now db key).1)
      extend_keeps m none r = p
      extend_keeps m (some key) r =
          elim (table.update_many-rows (set_idle (new_idle now m)) (has_id m.id) db) [
            | inl e ↦ rw e p
            | inr e ↦ rw e r
          ]

      found_keeps :
          (result : Result DbErr (Option Lease))
          → table.find_one (has_hash (digest bearer)) db ≡ result
          → P (rows (validate_found table unwrap bearer now db result).1)
      found_keeps (err e) h = p
      found_keeps (ok none) h = p
      found_keeps (ok (some m)) h =
          let Kept = λ (result : Validation table × Db). P (rows result.1) in
          on_branches Kept (is_some m.revoked_at) p (
            on_branches Kept (leb m.expires_at now || leb m.idle_extends_to now) p
              (extend_keeps m (unwrap bearer m.wrapped_export_key) (q m h)))

  pub update_keeps :
      (P : List Lease → Type 0) (f : Lease → Lease) (p : Lease → Bool) (db : Db)
      → P (rows db)
      → P (map (set_where p f) (rows db))
      → P (rows (table.update_many f p db).1)
  update_keeps P f p db h g = elim (table.update_many-rows f p db) [
    | inl e ↦ rw e h
    | inr e ↦ rw e g
  ]

  pub insert_keeps :
      (P : List Lease → Type 0) (m : Lease) (db : Db)
      → P (rows db)
      → P (m ∷ rows db)
      → P (rows (table.insert m db).1)
  insert_keeps P m db h g = elim (table.insert-rows m db) [ inl e ↦ rw e h | inr e ↦ rw e g ]

  -- A found row is bounded where all are, and the only one of its id.
  pub found_row :
      (p : Lease → Bool) (db : Db) (m : Lease)
      → table.find_one p db ≡ ok (some m)
      → AreKeyed (rows db)
      → AreBounded (rows db)
      → (is_bounded m ≡ true)
        × (any (λ r. has_id m.id r && not (eqb r.expires_at m.expires_at)) (rows db) ≡ false)
  found_row p db m h keyed bounded =
      let present = (table.find_one-some p db m h).1 in
      (
        from_present (is_bounded m) (present (λ r. not (is_bounded r))) bounded,
        one_expiry (any (λ r. has_id m.id r && not (eqb r.expires_at m.expires_at)) (rows db))
            (present (λ r. has_id m.id r && eqb r.expires_at m.expires_at) (ground arith))
            (any_of_both (has_id m.id) (λ r. eqb r.expires_at m.expires_at) (rows db)),
      )
    where
      from_present :
          (b : Bool)
          → (not b ≡ true → any (λ r. not (is_bounded r)) (rows db) ≡ true)
          → any (λ r. not (is_bounded r)) (rows db) ≡ false
          → b ≡ true
      from_present true f g = refl
      from_present false f g = ground (arith, f refl, g)

      one_expiry :
          (b : Bool)
          → any (λ r. has_id m.id r && eqb r.expires_at m.expires_at) (rows db) ≡ true
          → (any (λ r. has_id m.id r && eqb r.expires_at m.expires_at) (rows db) ≡ true
              → b ≡ true
              → 1 < count (has_id m.id) (rows db))
          → b ≡ false
      one_expiry true f g = ground (arith, g f refl, keyed m.id)
      one_expiry false f g = refl

  abbrev pub AreSound : List Lease → Type 0
  AreSound rs = AreKeyed rs × AreBounded rs

  -- A new row has a fresh id.
  abbrev pub IsFresh : Request → Db → Type 0
  IsFresh (issues id tenant hash wrapped seconds now) db = count (has_id id) (rows db) ≡ 0
  IsFresh (validates bearer now) db = Unit
  IsFresh (revokes hash now) db = Unit
  IsFresh (revokes_id id now) db = Unit

  revoke-AreSound :
      (now : ℕ) (p : Lease → Bool) (db : Db)
      → AreSound (rows db)
      → AreSound (rows (table.update_many (set_revoked now) p db).1)
  revoke-AreSound now p db (keyed, bounded) =
      update_keeps AreSound (set_revoked now) p db (keyed, bounded)
        (
          (λ id. rw (count-set_where id p (set_revoked now) (rows db) (λ r. refl)) (keyed id)),
          any-map-false (λ m. not (is_bounded m)) (set_where p (set_revoked now)) (rows db)
              (λ r g. on_branches (λ s. not (is_bounded s) ≡ false) (p r) g g) bounded,
        )

  -- Every request keeps the ids unique, each sliding expiry within the absolute one, and each
  -- absolute expiry within thirty days of the issue, whichever statements fail.
  pub step-AreSound :
      (request : Request) (db : Db)
      → IsFresh request db
      → AreSound (rows db)
      → AreSound (rows (step request db))
  unfolding insert_lease revoke revoke_by_id
  step-AreSound (issues id tenant hash wrapped seconds now) db fresh (keyed, bounded) =
      let m = fresh_lease table id tenant hash wrapped seconds now in
      insert_keeps AreSound m db (keyed, bounded)
        ((λ i. ground (arith, keyed i, eqb_iff id i)), ground arith)
  step-AreSound (validates bearer now) db fresh (keyed, bounded) =
      validate_keeps AreSound bearer now db (keyed, bounded)
        (λ m h.
          let (b, alone) = found_row (has_hash (digest bearer)) db m h keyed bounded in
          (
            (λ i.
                rw
                  (count-set_where i (has_id m.id) (set_idle (new_idle now m)) (rows db)
                    (λ r. refl))
                  (keyed i)),
            extend-AreBounded now m (rows db) b alone bounded,
          ))
  step-AreSound (revokes hash now) db fresh sound =
      revoke-AreSound now (λ m. has_hash hash m && is_none m.revoked_at) db sound
  step-AreSound (revokes_id id now) db fresh sound =
      revoke-AreSound now (λ m. has_id id m && is_none m.revoked_at) db sound
