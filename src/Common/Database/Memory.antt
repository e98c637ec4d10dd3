-- ===== src/Common/Database/Memory.antt =====
-- A table in memory that meets the interface, for runs on concrete inputs: a list of rows, with a
-- switch under which every statement fails.
use botwork.Common.{
  ℕ, ◌≡◌, refl, ◌⊎◌, inl, inr, Bool, true, false, Option, none, some, List, [], ◌∷◌, map, arith,
  if◌then◌else◌, Bool-cases, any, count, filter, nat_eq, list_eq, option_eq, Result, ok, err,
}
use botwork.Common.Database.{Table, set_where}

module _ {Row : Type 0} where
  abbrev pub find_one : (Row → Bool) → List Row → Option Row
  find_one p [] = none
  find_one p (r ∷ rs) = if p r then some r else find_one p rs

  pub find_one-none : (p : Row → Bool) (rs : List Row) → find_one p rs ≡ none → any p rs ≡ false
  find_one-none p [] h = refl
  find_one-none p (r ∷ rs) h = ground (arith, find_one-none p rs)

  find_one-some :
      (p : Row → Bool) (rs : List Row) (r : Row)
      → find_one p rs ≡ some r
      → (p r ≡ true) × ((q : Row → Bool) → q r ≡ true → any q rs ≡ true)
  find_one-some p [] r h = cc
  find_one-some p (s ∷ rs) r h = elim (Bool-cases (p s)) [
    | inl e ↦ (ground arith, λ q g. ground arith)
    | inr e ↦
        let rest = find_one-some p rs r (ground arith) in
        (rest.0, λ q g. ground (arith, rest.1 q g))
  ]

abbrev pub Store : Type 0 → Type 0
Store Row = Bool × List Row

module _ {Row : Type 0} where
  abbrev pub find_in : (Row → Bool) → Store Row → Result Unit (Option Row)
  find_in p (true, rs) = ok (find_one p rs)
  find_in p (false, rs) = err tt

  abbrev pub find_all_in : (Row → Bool) → Store Row → Result Unit (List Row)
  find_all_in p (true, rs) = ok (filter p rs)
  find_all_in p (false, rs) = err tt

  pub find_all_in-ok :
      (p : Row → Bool) (db : Store Row) (rs : List Row)
      → find_all_in p db ≡ ok rs
      → rs ≡ filter p db.1
  find_all_in-ok p (true, all_rows) rs h = ground arith
  find_all_in-ok p (false, all_rows) rs h = cc

  abbrev pub update_in : (Row → Row) → (Row → Bool) → Store Row → Result Unit ℕ × Store Row
  update_in f p (true, rs) = (ok (count p rs), (true, map (set_where p f) rs))
  update_in f p (false, rs) = (err tt, (false, rs))

  abbrev pub insert_in : Row → Store Row → Result (Unit {0}) (Unit {0}) × Store Row
  insert_in r (true, rs) = (ok tt, (true, r ∷ rs))
  insert_in r (false, rs) = (err tt, (false, rs))

  abbrev pub commit_in : Store Row → Store Row → Result (Unit {0}) (Unit {0}) × Store Row
  commit_in before (true, rs) = (ok tt, (true, rs))
  commit_in before (false, rs) = (err tt, before)

  pub find_in-none : (p : Row → Bool) (db : Store Row) → find_in p db ≡ ok none → any p db.1 ≡ false
  find_in-none p (true, rs) h = find_one-none p rs (ground arith)
  find_in-none p (false, rs) h = cc

  pub find_in-some :
      (p : Row → Bool) (db : Store Row) (r : Row)
      → find_in p db ≡ ok (some r)
      → (p r ≡ true) × ((q : Row → Bool) → q r ≡ true → any q db.1 ≡ true)
  find_in-some p (true, rs) r h = find_one-some p rs r (ground arith)
  find_in-some p (false, rs) r h = cc

  pub update_in-ok :
      (f : Row → Row) (p : Row → Bool) (db : Store Row) (n : ℕ)
      → (update_in f p db).0 ≡ ok n
      → (n ≡ count p db.1) × ((update_in f p db).1.1 ≡ map (set_where p f) db.1)
  update_in-ok f p (true, rs) n h = (ground arith, refl)
  update_in-ok f p (false, rs) n h = cc

  pub update_in-rows :
      (f : Row → Row) (p : Row → Bool) (db : Store Row)
      → ((update_in f p db).1.1 ≡ db.1) ⊎ ((update_in f p db).1.1 ≡ map (set_where p f) db.1)
  update_in-rows f p (true, rs) = inr refl
  update_in-rows f p (false, rs) = inl refl

  pub insert_in-ok :
      (r : Row) (db : Store Row) → (insert_in r db).0 ≡ ok tt → (insert_in r db).1.1 ≡ r ∷ db.1
  insert_in-ok r (true, rs) h = refl
  insert_in-ok r (false, rs) h = cc

  pub insert_in-rows :
      (r : Row) (db : Store Row) → ((insert_in r db).1.1 ≡ db.1) ⊎ ((insert_in r db).1.1 ≡ r ∷ db.1)
  insert_in-rows r (true, rs) = inr refl
  insert_in-rows r (false, rs) = inl refl

  pub commit_in-ok :
      (before after : Store Row)
      → (commit_in before after).0 ≡ ok tt
      → (commit_in before after).1.1 ≡ after.1
  commit_in-ok before (true, rs) h = refl
  commit_in-ok before (false, rs) h = cc

  pub commit_in-rows :
      (before after : Store Row)
      → ((commit_in before after).1.1 ≡ before.1) ⊎ ((commit_in before after).1.1 ≡ after.1)
  commit_in-rows before (true, rs) = inr refl
  commit_in-rows before (false, rs) = inl refl

abbrev pub in_memory : (Row : Type 0) → Table Row
in_memory Row = record {
  Db = Store Row;
  DbErr = Unit;
  not_updated = tt;
  rows = λ db. db.1;
  find_one = find_in;
  find_all = find_all_in;
  update_many = update_in;
  insert = insert_in;
  commit = commit_in;
  find_one-none = find_in-none;
  find_one-some = find_in-some;
  find_all-ok = find_all_in-ok;
  update_many-ok = update_in-ok;
  update_many-rows = update_in-rows;
  insert-ok = insert_in-ok;
  insert-rows = insert_in-rows;
  commit-ok = commit_in-ok;
  commit-rows = commit_in-rows;
}
