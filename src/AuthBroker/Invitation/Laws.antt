-- ===== src/AuthBroker/Invitation/Laws.antt =====
-- One request with an OTP (auth-broker/src/auth/invitation.rs): when it is accepted, what it writes,
-- and how the OTP may be typed.
use botwork.Common.{
  ℕ, ◌<◌, ◌≡◌, refl, ap, ◌≢◌, ◌⊎◌, inl, inr, Bool, true, false, not, ◌&&◌, ◌||◌, none, some, List,
  [], ◌∷◌, ◌++◌, map, arith, ltb, eqb, if◌then◌else◌, is_none, any, count, nat_eq, list_eq,
  option_eq, pair_eq, ok, err, Result-cases,
}
use botwork.Common.Text.{is_whitespace, Text, to_ascii_lowercase}
use botwork.Common.Database.{Table, set_where}
use botwork.AuthBroker.Invitation.{
  Invitation, normalize_otp, hash_otp, is_match, is_unconsumed, mark_consumed, OtpVerifyError,
  db_error, consume, check_row, checked_row, verify_and_consume,
}

-- What a row needs to be claimed by an OTP of this hash.
abbrev pub is_claimable : ℕ → Text → ℕ → Invitation → Bool
is_claimable tenant hash now r =
    is_match tenant hash r
    && (ltb now r.expires_at && (is_none r.revoked_at && is_none r.consumed_at))

-- A match that cannot be claimed.
abbrev pub is_stale : ℕ → Text → ℕ → Invitation → Bool
is_stale tenant hash now r = is_match tenant hash r && not (is_claimable tenant hash now r)

set_where_none :
    {A : Type 0} (p : A → Bool) (f : A → A) (rs : List A)
    → count p rs ≡ 0
    → map (set_where p f) rs ≡ rs
set_where_none p f [] h = refl
set_where_none p f (r ∷ rs) h = ground (arith, set_where_none p f rs)

any-count : {A : Type 0} (p : A → Bool) (rs : List A) → any p rs ≡ true → 0 < count p rs
any-count p [] h = cc
any-count p (r ∷ rs) h = ground (arith, any-count p rs)

-- The same characters in another case.
normalize-lowercase : (otp : Text) → normalize_otp (to_ascii_lowercase otp) ≡ normalize_otp otp
normalize-lowercase [] = refl
normalize-lowercase (c ∷ otp) = ground (arith, normalize-lowercase otp)

normalize_twice : (otp : Text) → normalize_otp (normalize_otp otp) ≡ normalize_otp otp
normalize_twice [] = refl
normalize_twice (c ∷ otp) = ground (arith, normalize_twice otp)

normalize-append : (s t : Text) → normalize_otp (s ++ t) ≡ normalize_otp s ++ normalize_otp t
normalize-append [] t = refl
normalize-append (c ∷ s) t = ground (arith, normalize-append s t)

-- An OTP has one hash however it is typed: in lower case, in its normal form, and with a dash or
-- white space put in anywhere.
pub hash_otp_typed :
    (digest : Text → Text) (s t : Text) (c : ℕ)
    → is_whitespace c || eqb c b'-' ≡ true
    → (hash_otp digest (to_ascii_lowercase s) ≡ hash_otp digest s)
      × (hash_otp digest (normalize_otp s) ≡ hash_otp digest s)
      × (hash_otp digest (s ++ c ∷ t) ≡ hash_otp digest (s ++ t))
hash_otp_typed digest s t c h = (
  ap digest (normalize-lowercase s),
  ap digest (normalize_twice s),
  ap digest (rw (normalize-append s (c ∷ t), normalize-append s t, separator) refl),
)
  where
    separator : normalize_otp (c ∷ t) ≡ normalize_otp t
    separator = ground arith

no_match :
    (tenant now : ℕ) (hash : Text) (rs : List Invitation)
    → any (is_claimable tenant hash now) rs ≡ true
    → any (is_match tenant hash) rs ≡ false
    → ⊥
no_match tenant now hash [] h g = ground (arith, h)
no_match tenant now hash (r ∷ rs) h g = ground (arith, no_match tenant now hash rs)

claimable_match :
    (tenant now : ℕ) (hash : Text) (rs : List Invitation) (r : Invitation)
    → any (is_stale tenant hash now) rs ≡ false
    → is_match tenant hash r ≡ true
    → (is_stale tenant hash now r ≡ true → any (is_stale tenant hash now) rs ≡ true)
    → is_claimable tenant hash now r ≡ true
claimable_match tenant now hash rs r no_stale matched found = ground arith

module _ (table : Table Invitation) where
  open table use {Db, DbErr, rows}

  check_row-claimable :
      (tenant : ℕ) (hash : Text) (now : ℕ) (r s : Invitation)
      → is_match tenant hash r ≡ true
      → check_row table now r ≡ ok s
      → (r ≡ s) × (is_claimable tenant hash now s ≡ true)
  check_row-claimable tenant hash now r s h g = ground arith

  checked_row-claimable :
      (tenant : ℕ) (hash : Text) (now : ℕ) (db : Db) (s : Invitation)
      → checked_row table tenant hash now db ≡ ok s
      → (is_claimable tenant hash now s ≡ true)
        × ((q : Invitation → Bool) → q s ≡ true → any q (rows db) ≡ true)
  unfolding checked_row
  checked_row-claimable tenant hash now db s h =
      elim (Result-cases (table.find_one (is_match tenant hash) db)) [
        | inl (none, e) ↦ ground (arith, e)
        | inl (some r, e) ↦
            let (matched, present) = table.find_one-some (is_match tenant hash) db r e in
            let (same, claimable) =
              check_row-claimable tenant hash now r s matched (ground (arith, e)) in
            (claimable, λ q g. present q (rw same g))
        | inr (failure, e) ↦ ground (arith, e)
      ]

  -- An OTP is accepted only if the table holds an invitation of the tenant with its hash, neither
  -- expired nor revoked nor consumed. Then the unconsumed rows of this invitation's id get the moment
  -- as the time of their consumption, and nothing else changes.
  pub verify_and_consume-ok :
      (digest : Text → Text) (tenant : ℕ) (otp : Text) (now : ℕ) (db : Db)
      → (verify_and_consume table digest tenant otp now db).0 ≡ ok tt
      → (s : Invitation) × ((q : Invitation → Bool) → q s ≡ true → any q (rows db) ≡ true)
        × (is_claimable tenant (hash_otp digest otp) now s ≡ true)
        × (rows (verify_and_consume table digest tenant otp now db).1
            ≡ map
                (λ r.
                  if eqb r.id s.id && is_none r.consumed_at
                  then record r { consumed_at = some now }
                  else r)
                (rows db))
  unfolding verify_and_consume consume
  verify_and_consume-ok digest tenant otp now db h =
      let hash = hash_otp digest otp in
      elim (Result-cases (checked_row table tenant hash now db)) [
        | inr (failure, e) ↦ ground (arith, e)
        | inl (s, e) ↦
            let (claimable, present) = checked_row-claimable tenant hash now db s e in
            elim (Result-cases (table.update_many (mark_consumed now) (is_unconsumed s.id) db).0) [
              | inr (failure, g) ↦ ground (arith, e, g)
              | inl (n, g) ↦ (
                s,
                present,
                claimable,
                rw (verify_and_consume, e)
                    (table.update_many-ok (mark_consumed now) (is_unconsumed s.id) db n g).1,
              )
            ]
      ]

  -- A refusal that is not an error of the database leaves the table as it was.
  pub refused_otp_changes_nothing :
      (digest : Text → Text) (tenant : ℕ) (otp : Text) (now : ℕ) (db : Db)
      (e : OtpVerifyError DbErr)
      → (verify_and_consume table digest tenant otp now db).0 ≡ err e
      → ((failure : DbErr) → e ≢ db_error failure)
      → rows (verify_and_consume table digest tenant otp now db).1 ≡ rows db
  unfolding verify_and_consume consume
  refused_otp_changes_nothing digest tenant otp now db e h not_db =
      elim (Result-cases (checked_row table tenant (hash_otp digest otp) now db)) [
        | inr (failure, g) ↦ ground (arith, g)
        | inl (s, g) ↦
            elim (Result-cases (table.update_many (mark_consumed now) (is_unconsumed s.id) db).0) [
              | inr (failure, k) ↦ ground (arith, g, k, not_db failure)
              | inl (n, k) ↦ ground (
                arith,
                g,
                k,
                table.update_many-ok (mark_consumed now) (is_unconsumed s.id) db n k,
                set_where_none (is_unconsumed s.id) (mark_consumed now) (rows db),
              )
            ]
      ]

  -- If the table holds a claimable invitation for the OTP, and no stale one with the same hash, the
  -- OTP is accepted or the database reports an error.
  pub claimable_is_accepted :
      (digest : Text → Text) (tenant : ℕ) (otp : Text) (now : ℕ) (db : Db)
      → any (is_claimable tenant (hash_otp digest otp) now) (rows db) ≡ true
      → any (is_stale tenant (hash_otp digest otp) now) (rows db) ≡ false
      → ((verify_and_consume table digest tenant otp now db).0 ≡ ok tt)
        ⊎ ((failure : DbErr) × ((verify_and_consume table digest tenant otp now db).0
              ≡ err (db_error failure)))
  unfolding verify_and_consume consume checked_row
  claimable_is_accepted digest tenant otp now db present no_stale =
      let hash = hash_otp digest otp in
      elim (Result-cases (table.find_one (is_match tenant hash) db)) [
        | inr (failure, e) ↦ inr (failure, ground (arith, e))
        | inl (none, e) ↦
            elim (no_match tenant now hash (rows db) present
              (table.find_one-none (is_match tenant hash) db e)) [ ]
        | inl (some r, e) ↦
            let (matched, found) = table.find_one-some (is_match tenant hash) db r e in
            let fresh =
              claimable_match tenant now hash (rows db) r no_stale matched
                (found (is_stale tenant hash now)) in
            elim (Result-cases (table.update_many (mark_consumed now) (is_unconsumed r.id) db).0) [
              | inr (failure, g) ↦ inr (failure, ground (arith, e, fresh, g))
              | inl (n, g) ↦
                  let spent =
                    table.update_many-ok (mark_consumed now) (is_unconsumed r.id) db n g in
                  let here =
                    any-count (is_unconsumed r.id) (rows db)
                      (found (is_unconsumed r.id) (ground (arith, fresh))) in
                  inl (ground (arith, e, fresh, g, spent, here))
            ]
      ]
