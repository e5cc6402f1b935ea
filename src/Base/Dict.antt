-- ===== src/Base/Dict.antt =====
-- Go maps from strings, as association lists: lookup, assignment and deletion, and their laws.
use mathlib.Core.Path.{◌≡◌, refl}
use mathlib.Core.Logic.{inl, inr}
use mathlib.Core.Option.{Option, none, some}
use mathlib.Core.List.{List, [], ◌∷◌}
use native.Mathlib.Omega.{arith}
use wgpilot.Base.Tests.{if◌then◌else◌, Bool-cases}
use wgpilot.Base.Lists.{Member}
use wgpilot.Base.Text.{Str, str_eq, str_eq_iff, str_eq_refl}

abbrev pub Dict {ℓ} : Type ℓ → Type ℓ
Dict V = List (Str × V)

module _ {ℓ} {V : Type ℓ} where
  unfoldable pub lookup : Str → Dict V → Option V
  lookup k [] = none
  lookup k ((j, v) ∷ m) = if str_eq j k then some v else lookup k m

  unfoldable pub insert : Str → V → Dict V → Dict V
  insert k v [] = (k, v) ∷ []
  insert k v ((j, w) ∷ m) = if str_eq j k then (k, v) ∷ m else (j, w) ∷ insert k v m

  unfoldable pub delete : Str → Dict V → Dict V
  delete k [] = []
  delete k ((j, w) ∷ m) = if str_eq j k then delete k m else (j, w) ∷ delete k m

  -- The values that a `range` loop over the map visits.
  abbrev pub values : Dict V → List V
  values [] = []
  values ((j, w) ∷ m) = w ∷ values m

  pub lookup-insert :
      (k j : Str) (v : V) (m : Dict V)
      → lookup j (insert k v m) ≡ (if str_eq k j then some v else lookup j m)
  unfolding lookup insert
  lookup-insert k j v [] = refl
  lookup-insert k j v ((i, w) ∷ m) =
      ground (arith, str_eq_iff k j, str_eq_iff i k, str_eq_iff i j, lookup-insert k j v m)

  pub lookup-delete :
      (k j : Str) (m : Dict V) → lookup j (delete k m) ≡ (if str_eq k j then none else lookup j m)
  unfolding lookup delete
  lookup-delete k j [] = ground arith
  lookup-delete k j ((i, w) ∷ m) =
      ground (arith, str_eq_iff k j, str_eq_iff i k, str_eq_iff i j, lookup-delete k j m)

  -- No key occurs twice.
  abbrev pub Distinct : Dict V → Type ℓ
  Distinct [] = Unit
  Distinct ((j, w) ∷ m) = (lookup j m ≡ none) × Distinct m

  pub insert-Distinct : (k : Str) (v : V) (m : Dict V) → Distinct m → Distinct (insert k v m)
  unfolding insert lookup
  insert-Distinct k v [] d = ground arith
  insert-Distinct k v ((i, w) ∷ m) d =
      ground
        (arith, insert-Distinct k v m d.1, lookup-insert k i v m, str_eq_iff i k, str_eq_iff k i)

  pub delete-Distinct : (k : Str) (m : Dict V) → Distinct m → Distinct (delete k m)
  unfolding delete
  delete-Distinct k [] d = d
  delete-Distinct k ((i, w) ∷ m) d = ground (arith, delete-Distinct k m d.1, lookup-delete k i m)

module _ {V : Type 0} where
  -- In a map with distinct keys, the values are what the keys look up.
  pub Member-values_of_lookup :
      (k : Str) (v : V) (m : Dict V) → lookup k m ≡ some v → Member v (values m)
  unfolding lookup
  Member-values_of_lookup k v [] h = cc
  Member-values_of_lookup k v ((i, w) ∷ m) h = elim (Bool-cases (str_eq i k)) [
    | inl e ↦ inl (ground arith)
    | inr e ↦ inr (Member-values_of_lookup k v m (ground arith))
  ]

  pub lookup_of_Member :
      (v : V) (m : Dict V) → Distinct m → Member v (values m) → (k : Str) × (lookup k m ≡ some v)
  unfolding lookup
  lookup_of_Member v [] d h = absurd h
  lookup_of_Member v ((i, w) ∷ m) d (inl e) = (i, ground (arith, str_eq_refl i))
  lookup_of_Member v ((i, w) ∷ m) d (inr h) =
      let (k, found) = lookup_of_Member v m d.1 h in (k, ground (arith, str_eq_iff i k))
