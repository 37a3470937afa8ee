-- ===== src/Base/Dict.antt =====
-- A Go `map[string]V` as an association list with at most one entry for a key. Reading, assigning,
-- deleting and `len` do not depend on the order of the list; `range` visits the entries in an order
-- that Go leaves open, and is a parameter where it is used.
use Prim.Native.String.{String}
use text.Mathlib.Text.{◌==◌ as str_eq}
use text.Mathlib.TextEquality.{eq_iff}
use text.Mathlib.TextPositions.{eq_refl}
use snake_42tokyo_tuning.Base.Test.{if◌then◌else◌, Bool-cases}
use snake_42tokyo_tuning.Base.Lists.{length}
use Prim.Native.Nat.{◌+◌, ◌≤◌}
use mathlib.Core.Path.{◌≡◌, refl, subst}
use mathlib.Core.Logic.{inl, inr}
use mathlib.Core.Option.{Option, none, some}
use mathlib.Core.List.{List, [], ◌∷◌}
use native.Mathlib.Omega.{arith}

abbrev pub Dict {ℓ} : Type ℓ → Type ℓ
Dict V = List (String × V)

module _ {ℓ} {V : Type ℓ} where
  unfoldable pub lookup : String → Dict V → Option V
  lookup k [] = none
  lookup k ((j, v) ∷ m) = if str_eq j k then some v else lookup k m

  unfoldable pub insert : String → V → Dict V → Dict V
  insert k v [] = (k, v) ∷ []
  insert k v ((j, w) ∷ m) = if str_eq j k then (k, v) ∷ m else (j, w) ∷ insert k v m

  unfoldable pub delete : String → Dict V → Dict V
  delete k [] = []
  delete k ((j, w) ∷ m) = if str_eq j k then delete k m else (j, w) ∷ delete k m

  abbrev pub Distinct : Dict V → Type ℓ
  Distinct [] = Unit
  Distinct ((k, v) ∷ m) = (lookup k m ≡ none) × Distinct m

  pub lookup-insert :
      (written read : String) (value : V) (entries : Dict V)
      → lookup read (insert written value entries)
        ≡ (if str_eq written read then some value else lookup read entries)
  unfolding lookup insert
  lookup-insert written read value [] = refl
  lookup-insert written read value ((key, old) ∷ entries) = ground (
    arith,
    lookup-insert written read value entries,
    eq_iff key read,
    eq_iff key written,
    eq_iff written read,
  )

  pub lookup-delete :
      (k j : String) (m : Dict V)
      → lookup j (delete k m) ≡ (if str_eq k j then none else lookup j m)
  unfolding lookup delete
  lookup-delete k j [] = ground arith
  lookup-delete k j ((i, w) ∷ m) =
      ground (arith, eq_iff k j, eq_iff i k, eq_iff i j, lookup-delete k j m)

  pub lookup-insert_self : (k : String) (v : V) (m : Dict V) → lookup k (insert k v m) ≡ some v
  lookup-insert_self k v m = simp (lookup-insert, eq_refl)

  pub insert-Distinct : (k : String) (v : V) (m : Dict V) → Distinct m → Distinct (insert k v m)
  unfolding lookup insert
  insert-Distinct k v [] d = (refl, tt)
  insert-Distinct k v ((j, w) ∷ m) d = elim (Bool-cases (str_eq j k)) [
    | inl same ↦ rw same (subst (λ i. lookup i m ≡ none) ((eq_iff j k).0 same) d.0, d.1)
    | inr other ↦
        rw other
          (ground (arith, lookup-insert k j v m, eq_iff k j, eq_iff j k), insert-Distinct k v m d.1)
  ]

  pub delete-Distinct : (k : String) (m : Dict V) → Distinct m → Distinct (delete k m)
  unfolding delete
  delete-Distinct k [] d = tt
  delete-Distinct k ((j, w) ∷ m) d = elim (Bool-cases (str_eq j k)) [
    | inl same ↦ rw same (delete-Distinct k m d.1)
    | inr other ↦
        rw other
          (ground (arith, lookup-delete k j m, eq_iff k j, eq_iff j k), delete-Distinct k m d.1)
  ]

  pub length-insert-le : (k : String) (v : V) (m : Dict V) → length (insert k v m) ≤ length m + 1
  unfolding insert
  length-insert-le k v [] = omega arith
  length-insert-le k v ((j, w) ∷ m) = ground (arith, length-insert-le k v m)

  pub length-delete-le : (k : String) (m : Dict V) → length (delete k m) ≤ length m
  unfolding delete
  length-delete-le k [] = omega arith
  length-delete-le k ((j, w) ∷ m) = ground (arith, length-delete-le k m)

  pub length-delete_of_some :
      (k : String) (m : Dict V) {v : V} → lookup k m ≡ some v → length (delete k m) + 1 ≤ length m
  unfolding lookup delete
  length-delete_of_some k [] e = absurd (cc)
  length-delete_of_some k ((j, w) ∷ m) {v} e = elim (Bool-cases (str_eq j k)) [
    | inl same ↦ rw same (omega (arith, length-delete-le k m))
    | inr other ↦ rw other (omega (arith, length-delete_of_some k m (rw other at e)))
  ]
