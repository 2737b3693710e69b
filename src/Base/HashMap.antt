-- ===== src/Base/HashMap.antt =====
-- `std::collections::HashMap` as an association list: a key stands at most once, and the order of
-- the list is the order in which the map is iterated.
use Prim.Native.Nat.{suc, ◌≤◌, ◌<◌}
use mathlib.Core.Path.{◌≡◌, refl}
use mathlib.Core.Logic.{◌≢◌, inl, inr}
use mathlib.Core.Bool.{Bool, true, false}
use mathlib.Core.Option.{Option, none, some}
use mathlib.Core.List.{List, [], ◌∷◌}
use native.Mathlib.Omega.{arith}
use app_home_services.Base.Tests.{Option-cases, PartialEq, ◌==◌, if◌then◌else◌}
use app_home_services.Base.Lists.{length}

abbrev pub HashMap {ℓ κ} : Type ℓ → Type κ → Type (ℓ ⊔ κ)
HashMap K V = List (K × V)

-- `retain`
abbrev pub retain {ℓ κ} : {K : Type ℓ} {V : Type κ} → (K → V → Bool) → HashMap K V → HashMap K V
retain p [] = []
retain p ((k, v) ∷ m) = if p k v then (k, v) ∷ retain p m else retain p m

module _ {ℓ κ} {K : Type ℓ} {V : Type κ} ⦃e : PartialEq K⦄ where
  abbrev pub get : K → HashMap K V → Option V
  get k [] = none
  get k ((j, v) ∷ m) = if j == k then some v else get k m

  abbrev pub contains_key : K → HashMap K V → Bool
  contains_key k m = elim (get k m) [ none ↦ false | some _ ↦ true ]

  abbrev pub remove : K → HashMap K V → HashMap K V
  remove k [] = []
  remove k ((j, v) ∷ m) = if j == k then remove k m else (j, v) ∷ remove k m

  abbrev pub insert : K → V → HashMap K V → HashMap K V
  insert k v [] = (k, v) ∷ []
  insert k v ((j, w) ∷ m) = if j == k then (k, v) ∷ m else (j, w) ∷ insert k v m

  -- No key stands twice.
  abbrev pub IsUnique : HashMap K V → Type κ
  IsUnique [] = Unit
  IsUnique ((k, _) ∷ m) = (get k m ≡ none) × IsUnique m

  pub get-insert :
      (k j : K) (v : V) (m : HashMap K V)
      → get j (insert k v m) ≡ (if k == j then some v else get j m)
  get-insert k j v [] = refl
  get-insert k j v ((i, w) ∷ m) =
      ground (arith, e.eq_iff k j, e.eq_iff i k, e.eq_iff i j, get-insert k j v m)

  pub get-remove :
      (k j : K) (m : HashMap K V) → get j (remove k m) ≡ (if k == j then none else get j m)
  get-remove k j [] = ground arith
  get-remove k j ((i, w) ∷ m) =
      ground (arith, e.eq_iff k j, e.eq_iff i k, e.eq_iff i j, get-remove k j m)

  pub get-retain_absent :
      (p : K → V → Bool) (k : K) (m : HashMap K V) → get k m ≡ none → get k (retain p m) ≡ none
  get-retain_absent p k [] h = refl
  get-retain_absent p k ((j, v) ∷ m) h = ground (arith, get-retain_absent p k m)

  pub get-retain :
      (p : K → V → Bool) (k : K) (m : HashMap K V)
      → IsUnique m
      → get k (retain p m)
        ≡ elim (get k m) [ none ↦ none | some v ↦ if p k v then some v else none ]
  get-retain p k [] u = refl
  get-retain p k ((j, v) ∷ m) u =
      ground (arith, e.eq_iff j k, get-retain p k m u.1, get-retain_absent p j m u.0)

  -- What is found afterwards was found before.
  pub get-retain_present :
      (p : K → V → Bool) (k : K) (m : HashMap K V) {v : V}
      → IsUnique m
      → get k (retain p m) ≡ some v
      → get k m ≡ some v
  get-retain_present p k m {v} u h = elim (Option-cases (get k m)) [
    | inl missing ↦ ground (arith, get-retain p k m u)
    | inr (w, found) ↦ ground (arith, get-retain p k m u)
  ]

  pub retain-IsUnique : (p : K → V → Bool) (m : HashMap K V) → IsUnique m → IsUnique (retain p m)
  retain-IsUnique p [] u = tt
  retain-IsUnique p ((k, v) ∷ m) u =
      ground (arith, retain-IsUnique p m u.1, get-retain_absent p k m u.0)

  pub remove-IsUnique : (k : K) (m : HashMap K V) → IsUnique m → IsUnique (remove k m)
  remove-IsUnique k [] u = tt
  remove-IsUnique k ((j, v) ∷ m) u =
      ground (arith, remove-IsUnique k m u.1, get-remove k j m, e.eq_iff k j)

  pub insert-IsUnique : (k : K) (v : V) (m : HashMap K V) → IsUnique m → IsUnique (insert k v m)
  insert-IsUnique k v [] u = (refl, tt)
  insert-IsUnique k v ((j, w) ∷ m) u =
      ground (arith, insert-IsUnique k v m u.1, get-insert k j v m, e.eq_iff j k, e.eq_iff k j)

  pub length-retain-le : (p : K → V → Bool) (m : HashMap K V) → length (retain p m) ≤ length m
  length-retain-le p [] = omega arith
  length-retain-le p ((k, v) ∷ m) = ground (arith, length-retain-le p m)

  pub length-remove-le : (k : K) (m : HashMap K V) → length (remove k m) ≤ length m
  length-remove-le k [] = omega arith
  length-remove-le k ((j, v) ∷ m) = ground (arith, length-remove-le k m)

  pub remove_absent : (k : K) (m : HashMap K V) → get k m ≡ none → remove k m ≡ m
  remove_absent k [] h = refl
  remove_absent k ((j, v) ∷ m) h = ground (arith, remove_absent k m)

  pub length-remove-lt : (k : K) (m : HashMap K V) → get k m ≢ none → length (remove k m) < length m
  length-remove-lt k [] h = absurd (h refl)
  length-remove-lt k ((j, v) ∷ m) h = ground (arith, length-remove-le k m, length-remove-lt k m)

  pub length-insert :
      (k : K) (v : V) (m : HashMap K V)
      → length (insert k v m) ≡ (if contains_key k m then length m else suc (length m))
  length-insert k v [] = refl
  length-insert k v ((j, w) ∷ m) = ground (arith, length-insert k v m)
