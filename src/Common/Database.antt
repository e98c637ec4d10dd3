-- ===== src/Common/Database.antt =====
-- What the program uses of the database behind `sea_orm`: one table at a time, as an interface. A
-- statement that fails may or may not have reached the table, so that the laws promise nothing more
-- than one of the two.
pub mod Memory
use Prim.Native.Nat.{ℕ}
use mathlib.Core.Path.{◌≡◌}
use mathlib.Core.Logic.{◌⊎◌}
use mathlib.Core.Bool.{Bool, true, false}
use mathlib.Core.Option.{Option, none, some}
use mathlib.Core.List.{List, ◌∷◌, map}
use botwork.Common.Tests.{if◌then◌else◌}
use botwork.Common.Lists.{any, count, filter}
use botwork.Common.Results.{Result, ok}

-- `SET` on the rows that pass the filters.
abbrev pub set_where : {Row : Type 0} → (Row → Bool) → (Row → Row) → Row → Row
set_where p f r = if p r then f r else r

pub record Table (Row : Type 0) : Type 1 where
  pub Db : Type 0
  pub DbErr : Type 0
  -- `DbErr::RecordNotUpdated`
  pub not_updated : DbErr
  pub rows : Db → List Row
  pub find_one : (Row → Bool) → Db → Result DbErr (Option Row)
  pub find_all : (Row → Bool) → Db → Result DbErr (List Row)
  pub update_many : (Row → Row) → (Row → Bool) → Db → Result DbErr ℕ × Db
  pub insert : Row → Db → Result DbErr Unit × Db
  -- `commit before after`: the end of a transaction that took the one state to the other.
  pub commit : Db → Db → Result DbErr Unit × Db
  pub find_one-none : (p : Row → Bool) (db : Db) → find_one p db ≡ ok none → any p (rows db) ≡ false
  pub find_one-some :
      (p : Row → Bool) (db : Db) (r : Row)
      → find_one p db ≡ ok (some r)
      → (p r ≡ true) × ((q : Row → Bool) → q r ≡ true → any q (rows db) ≡ true)
  pub find_all-ok :
      (p : Row → Bool) (db : Db) (rs : List Row) → find_all p db ≡ ok rs → rs ≡ filter p (rows db)
  pub update_many-ok :
      (f : Row → Row) (p : Row → Bool) (db : Db) (n : ℕ)
      → (update_many f p db).0 ≡ ok n
      → (n ≡ count p (rows db)) × (rows (update_many f p db).1 ≡ map (set_where p f) (rows db))
  pub update_many-rows :
      (f : Row → Row) (p : Row → Bool) (db : Db)
      → (rows (update_many f p db).1 ≡ rows db)
        ⊎ (rows (update_many f p db).1 ≡ map (set_where p f) (rows db))
  pub insert-ok : (r : Row) (db : Db) → (insert r db).0 ≡ ok tt → rows (insert r db).1 ≡ r ∷ rows db
  pub insert-rows :
      (r : Row) (db : Db) → (rows (insert r db).1 ≡ rows db) ⊎ (rows (insert r db).1 ≡ r ∷ rows db)
  pub commit-ok :
      (before after : Db)
      → (commit before after).0 ≡ ok tt
      → rows (commit before after).1 ≡ rows after
  pub commit-rows :
      (before after : Db)
      → (rows (commit before after).1 ≡ rows before) ⊎ (rows (commit before after).1 ≡ rows after)
