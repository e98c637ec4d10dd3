-- ===== src/SessionBroker/Secrets/Bounds.antt =====
-- The list of secrets that the launcher gets: its length and its names.
use botwork.Common.{
  ◌+◌, ◌≤◌, ◌≡◌, refl, inl, inr, Bool, true, false, List, [], ◌∷◌, ◌++◌, arith, ltb, leb,
  if◌then◌else◌, Bool-cases, length, count, length-append, ◌==◌, nat_eq, list_eq, option_eq,
  pair_eq,
}
use botwork.Common.Text.{Text, text_iff}
use botwork.SessionBroker.Secrets.{
  FetchedSecret, SecretPairs, max_secret_entries, max_secret_value_bytes, sanitize_segment,
  raw_name, is_seen, no_pairs, push_secret, push_secrets, build_secret_pairs,
}

abbrev pub named : Text → Text × Text → Bool
named name (other, value) = other == name

pub record AreSound (pairs : SecretPairs) : Type 0 where
  pub at_most : length pairs.out ≤ max_secret_entries
  pub are_seen : (name : Text) → is_seen name pairs.seen ≡ false → count (named name) pairs.out ≡ 0
  pub are_distinct : (name : Text) → count (named name) pairs.out ≤ 1

count-append :
    (name : Text) (xs ys : List (Text × Text))
    → count (named name) (xs ++ ys) ≡ count (named name) xs + count (named name) ys
count-append name [] ys = omega arith
count-append name (x ∷ xs) ys = ground (arith, count-append name xs ys)

pushed-AreSound :
    (name value : Text) (pairs : SecretPairs)
    → leb max_secret_entries (length pairs.out) ≡ false
    → is_seen name pairs.seen ≡ false
    → AreSound pairs
    → AreSound (record { out = pairs.out ++ (name, value) ∷ []; seen = name ∷ pairs.seen })
pushed-AreSound name value pairs short new sound = record {
  at_most = ground (arith, length-append pairs.out ((name, value) ∷ []), short);
  are_seen = λ other h.
      ground (arith, count-append other pairs.out ((name, value) ∷ []), sound.are_seen other, h);
  are_distinct = λ other. elim (Bool-cases (name == other)) [
    | inl same ↦
        let unseen : count (named other) pairs.out ≡ 0 =
          rw (← (text_iff name other).0 same) (sound.are_seen name new) in
        ground (arith, count-append other pairs.out ((name, value) ∷ []), same, unseen)
    | inr differs ↦ ground (
      arith,
      count-append other pairs.out ((name, value) ∷ []),
      differs,
      sound.are_distinct other,
    )
  ];
}

branch-AreSound :
    (b : Bool) (x y : SecretPairs) → AreSound x → AreSound y → AreSound (if b then x else y)
branch-AreSound true x y hx hy = hx
branch-AreSound false x y hx hy = hy

-- A turn of the loop that takes a secret only takes one with room for it and a new name.
push-AreSound :
    (from_utf8_lossy : Text → Text) (secret : FetchedSecret) (pairs : SecretPairs)
    → AreSound pairs
    → AreSound (push_secret from_utf8_lossy secret pairs)
unfolding push_secret sanitize_segment
push-AreSound from_utf8_lossy secret pairs sound = room _ refl
  where
    taken : SecretPairs
    taken = record {
      out = pairs.out ++ (raw_name secret, from_utf8_lossy secret.value) ∷ [];
      seen = raw_name secret ∷ pairs.seen;
    }

    fresh :
        (b : Bool)
        → is_seen (raw_name secret) pairs.seen ≡ b
        → leb max_secret_entries (length pairs.out) ≡ false
        → AreSound (if b then pairs else taken)
    fresh true h short = sound
    fresh false h short = pushed-AreSound _ _ pairs short h sound

    room :
        (b : Bool)
        → leb max_secret_entries (length pairs.out) ≡ b
        → AreSound (
            if b
            then pairs
            else if ltb max_secret_value_bytes (length secret.value)
            then pairs
            else if is_seen (raw_name secret) pairs.seen
            then pairs
            else taken)
    room true h = sound
    room false h =
        branch-AreSound (ltb max_secret_value_bytes (length secret.value)) _ _ sound
          (fresh _ refl h)

pushes-AreSound :
    (from_utf8_lossy : Text → Text) (secrets : List FetchedSecret) (pairs : SecretPairs)
    → AreSound pairs
    → AreSound (push_secrets from_utf8_lossy secrets pairs)
pushes-AreSound from_utf8_lossy [] pairs sound = sound
pushes-AreSound from_utf8_lossy (secret ∷ secrets) pairs sound =
    pushes-AreSound from_utf8_lossy secrets _ (push-AreSound from_utf8_lossy secret pairs sound)

-- Whatever auth-broker hands out, the launcher gets at most 64 secrets, no two of them under one
-- name.
pub build_secret_pairs_bound :
    (from_utf8_lossy : Text → Text) (secrets : List FetchedSecret)
    → (length (build_secret_pairs from_utf8_lossy secrets) ≤ 64)
      × ((name : Text) → count (named name) (build_secret_pairs from_utf8_lossy secrets) ≤ 1)
unfolding build_secret_pairs
build_secret_pairs_bound from_utf8_lossy secrets =
    let sound = pushes-AreSound from_utf8_lossy secrets no_pairs (record {
      at_most = omega arith;
      are_seen = λ name h. refl;
      are_distinct = λ name. omega arith;
    }) in
    (sound.at_most, sound.are_distinct)
