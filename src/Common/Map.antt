-- ===== src/Common/Map.antt =====
-- `HashMap` as an association list. The program never relies on the order of iteration, and every
-- map that it builds has distinct keys (`Distinct`), which each operation keeps.
use mathlib.Core.Path.{◌≡◌, refl}
use mathlib.Core.Bool.{Bool, true}
use mathlib.Core.List.{List, [], ◌∷◌}
use mathlib.Core.Option.{Option, none, some}
use Prim.Native.Nat.{◌+◌, ◌≤◌}
use native.Mathlib.Omega.{arith}
use mathlib.Core.Logic.{inl, inr}
use botwork.Common.Tests.{if◌then◌else◌, Bool-cases, Option-cases}
use botwork.Common.Lists.{length}
use botwork.Common.Classes.{Eq, ◌==◌}

abbrev pub Map {ℓ} : Type ℓ → Type ℓ → Type ℓ
Map K V = List (K × V)

module _ {ℓ} {K V : Type ℓ} ⦃e : Eq K⦄ where
  abbrev pub get : K → Map K V → Option V
  get k [] = none
  get k ((j, v) ∷ m) = if j == k then some v else get k m

  abbrev pub remove : K → Map K V → Map K V
  remove k [] = []
  remove k ((j, v) ∷ m) = let rest = remove k m in if j == k then rest else (j, v) ∷ rest

  abbrev pub insert : K → V → Map K V → Map K V
  insert k v m = (k, v) ∷ remove k m

  abbrev pub retain : (K → V → Bool) → Map K V → Map K V
  retain p [] = []
  retain p ((j, v) ∷ m) = let rest = retain p m in if p j v then (j, v) ∷ rest else rest

  abbrev pub keep_if : (K → V → Bool) → K → Option V → Option V
  keep_if p k none = none
  keep_if p k (some v) = if p k v then some v else none

  abbrev pub Distinct : Map K V → Type ℓ
  Distinct [] = Unit
  Distinct ((k, v) ∷ m) = (get k m ≡ none) × Distinct m

  pub get-remove : (k j : K) (m : Map K V) → get j (remove k m) ≡ (if k == j then none else get j m)
  get-remove k j [] = ground arith
  get-remove k j ((i, v) ∷ m) =
      ground (arith, get-remove k j m, e.same_iff i k, e.same_iff i j, e.same_iff k j)

  pub get-insert :
      (k j : K) (v : V) (m : Map K V) → get j (insert k v m) ≡ (if k == j then some v else get j m)
  get-insert k j v m = ground (arith, get-remove k j m)

  pub get-remove_self : (k : K) (m : Map K V) → get k (remove k m) ≡ none
  get-remove_self k m = ground (arith, get-remove k k m, e.same_iff k k)

  pub get-insert_self : (k : K) (v : V) (m : Map K V) → get k (insert k v m) ≡ some v
  get-insert_self k v m = ground (arith, e.same_iff k k)

  pub remove-Distinct : (k : K) (m : Map K V) → Distinct m → Distinct (remove k m)
  remove-Distinct k [] d = tt
  remove-Distinct k ((i, v) ∷ m) d = ground (arith, get-remove k i m, remove-Distinct k m d.1)

  pub insert-Distinct : (k : K) (v : V) (m : Map K V) → Distinct m → Distinct (insert k v m)
  insert-Distinct k v m d = (get-remove_self k m, remove-Distinct k m d)

  pub get-retain :
      (p : K → V → Bool) (k : K) (m : Map K V)
      → Distinct m
      → get k (retain p m) ≡ keep_if p k (get k m)
  get-retain p k [] d = refl
  get-retain p k ((i, v) ∷ m) d = elim (Bool-cases (i == k)) [
    | inl same ↦ ground (arith, get-retain p k m d.1, (e.same_iff i k).0 same)
    | inr other ↦ ground (arith, get-retain p k m d.1)
  ]

  -- An entry that is looked up and passes the test is kept, whatever the others are.
  pub get-retain-some :
      (p : V → Bool) (k : K) (v : V) (m : Map K V)
      → get k m ≡ some v
      → p v ≡ true
      → get k (retain (λ _ w. p w) m) ≡ some v
  get-retain-some p k v [] found kept = found
  get-retain-some p k v ((i, w) ∷ m) found kept = ground (arith, get-retain-some p k v m)

  pub retain-Distinct : (p : K → V → Bool) (m : Map K V) → Distinct m → Distinct (retain p m)
  retain-Distinct p [] d = tt
  retain-Distinct p ((i, v) ∷ m) d = ground (arith, get-retain p i m d.1, retain-Distinct p m d.1)

  pub length-retain-le : (p : K → V → Bool) (m : Map K V) → length (retain p m) ≤ length m
  length-retain-le p [] = omega arith
  length-retain-le p ((i, v) ∷ m) = ground (arith, length-retain-le p m)

  pub remove_absent : (k : K) (m : Map K V) → get k m ≡ none → remove k m ≡ m
  remove_absent k [] h = refl
  remove_absent k ((i, v) ∷ m) h = ground (arith, remove_absent k m)

  pub length-remove :
      (k : K) (v : V) (m : Map K V)
      → Distinct m
      → get k m ≡ some v
      → length (remove k m) + 1 ≡ length m
  length-remove k v [] d h = cc
  length-remove k v ((i, w) ∷ m) d h = elim (Bool-cases (i == k)) [
    | inl same ↦ ground (arith, remove_absent k m, (e.same_iff i k).0 same)
    | inr other ↦ ground (arith, length-remove k v m d.1)
  ]

  -- Taking out what was put in under a free key changes no lookup.
  pub get-remove-insert :
      (k j : K) (v : V) (m : Map K V) → get k m ≡ none → get j (remove k (insert k v m)) ≡ get j m
  get-remove-insert k j v m h =
      ground (arith, get-remove k j (insert k v m), get-insert k j v m, e.same_iff k j)

  -- Putting back what was taken out changes no lookup.
  pub get-insert-remove :
      (k i j : K) (v : V) (m : Map K V)
      → i ≡ k
      → get k m ≡ some v
      → (get i (remove k m) ≡ none) × (get j (insert i v (remove k m)) ≡ get j m)
  get-insert-remove k i j v m h found =
      ground (
        arith,
        get-remove_self k m,
        get-remove k j m,
        get-insert i j v (remove k m),
        e.same_iff k j,
      )

  -- A retained entry was there before, and passes the test.
  pub get_retained :
      (p : K → V → Bool) (k : K) (m : Map K V) {v : V}
      → Distinct m
      → get k (retain p m) ≡ some v
      → (get k m ≡ some v) × (p k v ≡ true)
  get_retained p k m d h = elim (Option-cases (get k m)) [
    | inl absent ↦ ground (arith, get-retain p k m d, absent)
    | inr (v, found) ↦ ground (arith, get-retain p k m d, found)
  ]
