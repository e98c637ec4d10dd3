-- ===== src/ControlPlane/Sessions/Laws.antt =====
-- The table is strict, and the bulk load is a row of single inserts
-- (control-plane/src/sessions.rs).
use botwork.Common.{
  ℕ, ◌+◌, ◌%◌, ◌≡◌, ◌⊎◌, true, some, List, [], ◌∷◌, arith, if◌then◌else◌, length, nat_eq, list_eq,
  option_eq, Result, ok, err, succeeded,
}
use botwork.Common.Text.{Text}
use botwork.Common.Map
use botwork.Common.Map.{Map}
use botwork.ControlPlane.Sessions.{
  SessionRecord, SessionStore, StoreError, u64_mod, bump, insert, remove, seed_from, bulk_seed, get,
}

-- What `bulk_seed` reports where the inserts, one by one, end so.
abbrev pub seed_report : ℕ → Result StoreError Unit → Result StoreError ℕ
seed_report n (ok _) = ok n
seed_report n (err e) = err e

module _ {Json : Type 0} where
  -- An insert or a removal succeeds or leaves the whole store as it was, counters included.
  pub failed_changes_nothing :
      (s : SessionStore Json) (r : SessionRecord Json) (id : Text)
      → (((insert s r).0 ≡ ok tt) ⊎ ((insert s r).1 ≡ s))
        × ((succeeded (remove s id).0 ≡ true) ⊎ ((remove s id).1 ≡ s))
  unfolding insert remove
  failed_changes_nothing s r id = ground arith

  -- After a successful insert the record is found under its id, and removing it hands it back and
  -- leaves every lookup as it was before; each of the two steps moves the generation by one.
  pub remove-insert :
      (s s' : SessionStore Json) (r : SessionRecord Json) (id : Text)
      → insert s r ≡ (ok tt, s')
      → (get s' r.session_id ≡ some r)
        × ((remove s' r.session_id).0 ≡ ok r)
        × (get (remove s' r.session_id).1 id ≡ get s id)
        × (s'.generation ≡ (s.generation + 1) % u64_mod)
        × ((remove s' r.session_id).1.generation ≡ (s.generation + 2) % u64_mod)
  unfolding insert remove bump
  remove-insert s s' r id h = ground (
    arith,
    Map.get-insert_self r.session_id r s.inner,
    Map.get-remove-insert r.session_id id r s.inner,
  )

  -- One insert after another, up to the first that fails.
  abbrev pub insert_all :
      SessionStore Json → List (SessionRecord Json) → Result StoreError Unit × SessionStore Json
  insert_all s [] = (ok tt, s)
  insert_all s (r ∷ records) =
      let (done, s') = insert s r in
      let rest = insert_all s' records in elim done [ ok _ ↦ rest | err e ↦ (err e, s') ]

  seed_from-insert_all :
      (s : SessionStore Json) (n : ℕ) (records : List (SessionRecord Json))
      → seed_from n s.inner records ≡ (
        seed_report (n + length records) (insert_all s records).0,
        (insert_all s records).1.inner,
      )
  unfolding seed_from insert
  seed_from-insert_all s n [] = ground arith
  seed_from-insert_all s n (r ∷ records) = ground (
    arith,
    seed_from-insert_all (bump (record s { inner = Map.insert r.session_id r s.inner })) (n + 1)
        records,
  )

  -- A bulk load leaves the records that inserting them one after another leaves, and fails where
  -- the first insert fails. It reports the size of the batch, and moves the generation by one in
  -- all if the whole batch went in, and not at all if it did not.
  pub bulk_seed-insert_all :
      (s : SessionStore Json) (records : List (SessionRecord Json))
      → let single = insert_all s records in
        ((bulk_seed s records).0 ≡ seed_report (length records) single.0)
        × ((bulk_seed s records).1.inner ≡ single.1.inner)
        × ((bulk_seed s records).1.generation
            ≡ (if succeeded single.0 then (s.generation + 1) % u64_mod else s.generation))
  unfolding bulk_seed bump
  bulk_seed-insert_all s records = rw seed_from-insert_all (ground arith)
