-- ===== src/ControlPlane/Recovery/Seeding.antt =====
-- What the seeded table holds, and where its records come from.

use botwork.Common.{
  ℕ, ◌+◌, ◌%◌, ◌≡◌, refl, ◌∙◌, inl, inr, Bool, true, false, Option, none, some, List, [], ◌∷◌,
  arith, if◌then◌else◌, Bool-cases, Option-cases, length, ◌==◌, nat_eq, list_eq, option_eq, pair_eq,
  succeeded,
}
use botwork.Common.Text.{Text, text_iff}
use botwork.Common.Map
use botwork.Common.Map.{get-insert, remove_absent}
use botwork.ControlPlane.Sessions.{SessionRecord, SessionStore, insert, bump, get, u64_mod}
use botwork.ControlPlane.Recovery.{seed_store}

abbrev one_if : Bool → ℕ
one_if b = if b then 1 else 0

module _ {Json : Type 0} where
  -- The first record of a batch with an id.
  abbrev pub first_with : Text → List (SessionRecord Json) → Option (SessionRecord Json)
  first_with id [] = none
  first_with id (r ∷ records) =
      let rest = first_with id records in if r.session_id == id then some r else rest

  abbrev pub or_else :
      Option (SessionRecord Json) → Option (SessionRecord Json) → Option (SessionRecord Json)
  or_else none o = o
  or_else (some r) o = some r

  get-insert_record :
      (store : SessionStore Json) (r : SessionRecord Json) (id : Text)
      → get (insert store r).1 id
        ≡ or_else (get store id) (if r.session_id == id then some r else none)
  unfolding insert bump
  get-insert_record store r id = elim (Option-cases (Map.get r.session_id store.inner)) [
    | inl absent ↦
        ground (arith, absent, get-insert r.session_id id r store.inner, text_iff r.session_id id)
    | inr (old, found) ↦ ground (arith, found, text_iff r.session_id id)
  ]

  insert_record-counts :
      (store : SessionStore Json) (r : SessionRecord Json)
      → let n = one_if (succeeded (insert store r).0) in
        (length (insert store r).1.inner ≡ length store.inner + n)
        × ((insert store r).1.generation % u64_mod ≡ (store.generation + n) % u64_mod)
  unfolding insert bump
  insert_record-counts store r = elim (Option-cases (Map.get r.session_id store.inner)) [
    | inl absent ↦ ground (arith, absent, remove_absent r.session_id store.inner absent)
    | inr (old, found) ↦ ground (arith, found)
  ]

  or_else_assoc :
      (o : Option (SessionRecord Json)) (r : SessionRecord Json)
      (rest : Option (SessionRecord Json)) (b : Bool)
      → or_else (or_else o (if b then some r else none)) rest
        ≡ or_else o (if b then some r else rest)
  or_else_assoc none r rest true = refl
  or_else_assoc none r rest false = refl
  or_else_assoc (some x) r rest b = refl

  -- The table after the seeding holds what it held before, or else the first record of the batch with
  -- that id; the number that is reported is the number of records that the table grew by, and the
  -- generation moves by as much.
  pub seed_store_lem :
      (store : SessionStore Json) (records : List (SessionRecord Json)) (id : Text)
      → (get (seed_store store records).1 id ≡ or_else (get store id) (first_with id records))
        × (length (seed_store store records).1.inner
            ≡ length store.inner + (seed_store store records).0)
        × ((seed_store store records).1.generation % u64_mod
            ≡ (store.generation + (seed_store store records).0) % u64_mod)
  unfolding seed_store
  seed_store_lem store [] id = elim (Option-cases (get store id)) [
    | inl absent ↦ ground (arith, absent)
    | inr (r, found) ↦ ground (arith, found)
  ]
  seed_store_lem store (r ∷ records) id =
      let (found, size, generation) = seed_store_lem (insert store r).1 records id in
      let (size', generation') = insert_record-counts store r in
      (
        found
            ∙ rw (get-insert_record store r id)
                (or_else_assoc (get store id) r (first_with id records) (r.session_id == id)),
        elim (Bool-cases (succeeded (insert store r).0)) [
          | inl e ↦ ground (arith, e, size, size')
          | inr e ↦ ground (arith, e, size, size')
        ],
        elim (Bool-cases (succeeded (insert store r).0)) [
          | inl e ↦ ground (arith, e, generation, generation')
          | inr e ↦ ground (arith, e, generation, generation')
        ],
      )
