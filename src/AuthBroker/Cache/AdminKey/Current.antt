-- ===== src/AuthBroker/Cache/AdminKey/Current.antt =====
-- The cached admin key is never behind the file (auth-broker/src/cache.rs).
use botwork.Common.{
  ℕ, ◌≡◌, refl, ap, ◌⊎◌, inl, inr, Option, none, some, List, [], ◌∷◌, map, arith, eqb, eqb_iff,
  Bool-cases, All, nat_eq, list_eq, option_eq,
}
use botwork.Common.Text.{Text}
use botwork.AuthBroker.Cache.AdminKey.{Observed, AdminKeyFile, new, parsed, reread, current_key}

-- The key in the file itself.
abbrev pub key_in : Option Observed → Option Text
key_in none = none
key_in (some seen) = parsed seen.content

-- The answers to a row of calls.
abbrev pub answers : AdminKeyFile → List (Option Observed) → List (Option Text)
answers file [] = []
answers file (seen ∷ more) = let (key, file') = current_key file seen in key ∷ answers file' more

module _ (content_at : ℕ → Option Text) where
  abbrev pub Shows : Option ℕ → Option Text → Type 0
  Shows none content = Unit
  Shows (some t) content = content ≡ content_at t

  -- What the file shows has the content of its time of change.
  abbrev pub IsHonest : Option Observed → Type 0
  IsHonest none = Unit
  IsHonest (some seen) = Shows seen.modified seen.content

  -- The cached key is that of the cached time.
  abbrev pub IsCoherent : AdminKeyFile → Type 0
  IsCoherent file =
      (file.mtime ≡ none) ⊎ ((t : ℕ) × (file.mtime ≡ some t) × (file.key ≡ parsed (content_at t)))

  current_key-shown :
      (key : Option Text) (mtime modified : Option ℕ) (content : Option Text)
      → let file : AdminKeyFile = record { key = key; mtime = mtime } in
        let seen : Observed = record { modified = modified; content = content } in
        Shows modified content
        → IsCoherent file
        → ((current_key file (some seen)).0 ≡ parsed content)
          × IsCoherent (current_key file (some seen)).1
  unfolding current_key reread
  current_key-shown key none none content h coherent = (refl, inl refl)
  current_key-shown key (some u) none content h coherent = (refl, inl refl)
  current_key-shown key none (some t) content h coherent = (refl, inr (t, refl, ap parsed h))
  current_key-shown key (some u) (some t) content h (inl impossible) = cc
  current_key-shown key (some u) (some t) content h (inr (v, e, k)) = elim (Bool-cases (eqb u t)) [
    | inr other ↦ rw other (refl, inr (t, refl, ap parsed h))
    | inl same ↦ rw same (ground (arith, k, e, h, eqb_iff u t), inr (v, e, k))
  ]

  current_key-IsCoherent :
      (file : AdminKeyFile) (seen : Option Observed)
      → IsHonest seen
      → IsCoherent file
      → ((current_key file seen).0 ≡ key_in seen) × IsCoherent (current_key file seen).1
  unfolding current_key
  current_key-IsCoherent file none honest coherent = (refl, inl refl)
  current_key-IsCoherent file (some seen) honest coherent =
      current_key-shown file.key file.mtime seen.modified seen.content honest coherent

  answers-key_in :
      (file : AdminKeyFile) (seen : List (Option Observed))
      → All IsHonest seen
      → IsCoherent file
      → answers file seen ≡ map key_in seen
  answers-key_in file [] honest coherent = refl
  answers-key_in file (s ∷ seen) honest coherent =
      let (same, coherent') = current_key-IsCoherent file s honest.0 coherent in
      rw (same, answers-key_in (current_key file s).1 seen honest.1 coherent') refl

  -- If the time of change determines the content of the file, every call in a row of calls answers
  -- with the key that is in the file at that moment, also after the file went missing and came back.
  pub answers_are_current :
      (seen : List (Option Observed)) → All IsHonest seen → answers new seen ≡ map key_in seen
  answers_are_current seen honest = answers-key_in new seen honest (inl refl)
