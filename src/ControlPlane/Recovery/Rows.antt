-- ===== src/ControlPlane/Recovery/Rows.antt =====
-- The records of a batch and the rows that they come from.
use mathlib.Core.List.Memᴰ
use mathlib.Core.List.Memᴰ.{Memᴰ, head, tail}
use botwork.Common.{
  ℕ, ◌≡◌, refl, sym, ap, ◌∙◌, inl, inr, Bool, true, false, Option, some, List, [], ◌∷◌, arith,
  if◌then◌else◌, Bool-cases, on_branches, Option-cases, is_some, filter, ◌==◌, nat_eq, list_eq,
  option_eq, pair_eq, Result, ok, err,
}
use botwork.Common.Text.{Text, text_iff}
use botwork.ControlPlane.Sessions.{SessionRecord}
use botwork.Common.Ipv4.{parse_ipv4}
use botwork.ControlPlane.Recovery.{
  record_at, Joined, RecoveryError, row_of, into_session_record, pushed, records_of,
}
use botwork.ControlPlane.Recovery.Seeding.{first_with}

-- The rows of a filtered list.
kept :
    {A : Type 0} (p : A → Bool) (y : A) (xs : List A) {x : A} (b : Bool)
    → p y ≡ b
    → (Memᴰ x (filter p xs) → Memᴰ x xs × (p x ≡ true))
    → Memᴰ x (if b then y ∷ filter p xs else filter p xs)
    → Memᴰ x (y ∷ xs) × (p x ≡ true)
kept p y xs true e rest (head same) = (head same, ap p same ∙ e)
kept p y xs true e rest (tail m) = let (m', h) = rest m in (tail m', h)
kept p y xs false e rest m = let (m', h) = rest m in (tail m', h)

pub filter-Memᴰ :
    {A : Type 0} (p : A → Bool) (xs : List A) {x : A}
    → Memᴰ x (filter p xs)
    → Memᴰ x xs × (p x ≡ true)
filter-Memᴰ p [] m = absurd (Memᴰ.not-nil m)
filter-Memᴰ p (y ∷ xs) m = kept p y xs (p y) refl (filter-Memᴰ p xs) m

pub Memᴰ-filter :
    {A : Type 0} (p : A → Bool) (xs : List A) {x : A}
    → Memᴰ x xs
    → p x ≡ true
    → Memᴰ x (filter p xs)
Memᴰ-filter p [] m h = absurd (Memᴰ.not-nil m)
Memᴰ-filter p (y ∷ xs) (head e) h = rw (sym (ap p e) ∙ h) (head e)
Memᴰ-filter p (y ∷ xs) (tail m) h =
    on_branches (Memᴰ _) (p y) (tail (Memᴰ-filter p xs m h)) (Memᴰ-filter p xs m h)

module _ {Json DbErr : Type 0} where
  pushed_ok :
      (r : Result (RecoveryError DbErr) (SessionRecord Json))
      (rest : Result (RecoveryError DbErr) (List (SessionRecord Json)))
      {records : List (SessionRecord Json)}
      → pushed r rest ≡ ok records
      → (x : SessionRecord Json) × (xs : List (SessionRecord Json)) × (r ≡ ok x)
        × (rest ≡ ok xs)
        × (records ≡ x ∷ xs)
  pushed_ok (err e) rest h = cc
  pushed_ok (ok x) (err e) h = cc
  pushed_ok (ok x) (ok xs) h = (x, xs, refl, refl, ground (arith, h))

  -- A record is a row with its address read.
  into_session_record-ok :
      (j : Joined Json) (r : SessionRecord Json)
      → into_session_record {DbErr = DbErr} (row_of j) ≡ ok r
      → (ip : ℕ) × (parse_ipv4 j.worker.container_ip ≡ some ip) × (r ≡ record_at (row_of j) ip)
  unfolding into_session_record
  into_session_record-ok j r h = elim (Option-cases (parse_ipv4 j.worker.container_ip)) [
    | inl bad ↦ absurd (ground (arith, bad))
    | inr (ip, e) ↦ (ip, e, ground (arith, e))
  ]

-- The record of one of the rows.
abbrev pub IsFrom : {Json : Type 0} → List (Joined Json) → SessionRecord Json → Type 0
IsFrom rows r =
    (j : Joined _) × Memᴰ j rows
    × (ip : ℕ) × (parse_ipv4 j.worker.container_ip ≡ some ip)
    × (r ≡ record_at (row_of j) ip)

module _ {Json : Type 0} where
  pick :
      (j : Joined Json) (rows : List (Joined Json)) (x r : SessionRecord Json)
      (rest : Option (SessionRecord Json)) (b : Bool)
      → IsFrom (j ∷ rows) x
      → (rest ≡ some r → IsFrom rows r)
      → (if b then some x else rest) ≡ some r
      → IsFrom (j ∷ rows) r
  pick j rows x r rest true (k, m, ip, e, f) later h = (k, m, ip, e, ground (arith, f))
  pick j rows x r rest false here later h = let (k, m, ip, e, f) = later h in (k, tail m, ip, e, f)

module _ {Json : Type 0} (DbErr : Type 0) where
  -- A record that is found in the batch is the record of one of the rows.
  pub record-IsFrom :
      (rows : List (Joined Json)) (records : List (SessionRecord Json)) (id : Text)
      (r : SessionRecord Json)
      → records_of {DbErr = DbErr} rows ≡ ok records
      → first_with id records ≡ some r
      → IsFrom rows r
  unfolding records_of
  record-IsFrom [] records id r h found = cc
  record-IsFrom (j ∷ rows) records id r h found =
      let (x, xs, good, rest, e) = pushed_ok (into_session_record (row_of j)) (records_of rows) h in
      let (ip, read, same) = into_session_record-ok j x good in
      pick j rows x r (first_with id xs) (x.session_id == id) (j, head refl, ip, read, same)
        (record-IsFrom rows xs id r rest) (sym (ap (first_with id) e) ∙ found)

  -- Every row of the batch has a record under its id.
  pub record_for :
      (rows : List (Joined Json)) (records : List (SessionRecord Json)) (j : Joined Json)
      → records_of {DbErr = DbErr} rows ≡ ok records
      → Memᴰ j rows
      → is_some (first_with j.worker.mcp_session_id records) ≡ true
  unfolding records_of
  record_for [] records j h m = absurd (Memᴰ.not-nil m)
  record_for (k ∷ rows) records j h m =
      let (x, xs, good, rest, e) = pushed_ok (into_session_record (row_of k)) (records_of rows) h in
      let (ip, read, same) = into_session_record-ok k x good in
      elim (Memᴰ.cases_cons m) [
        | inl first ↦
            let id : x.session_id ≡ j.worker.mcp_session_id =
              ap (λ r. r.session_id) same ∙ sym (ap (λ i. i.worker.mcp_session_id) first) in
            ground (arith, e, id, text_iff x.session_id j.worker.mcp_session_id)
        | inr later ↦ ground (
          arith,
          e,
          record_for rows xs j rest later,
          Bool-cases (x.session_id == j.worker.mcp_session_id),
        )
      ]
