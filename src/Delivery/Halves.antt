-- ===== src/Delivery/Halves.antt =====
-- The orders without weight and the others, and bounds on weights: for the proofs about
-- `selectOrdersForDelivery` of webapp/backend/internal/service/robot.go.
use snake_42tokyo_tuning.Base.{
  ℕ, ◌+◌, ◌≤◌, ◌<◌, ◌≡◌, ◌≢◌, refl, List, [], ◌∷◌, int_min, ◌==◌, zero, suc, some, subst, get_elem?,
  Bool-cases, inl, inr, arith, if◌then◌else◌,
}
use mathlib.Core.Option.{some-injective}
use snake_42tokyo_tuning.Model.{Order}
use snake_42tokyo_tuning.Delivery.Spec.{
  done, skip, keep, ArePositive, Sub, Sub-nil, values, weights,
}

-- The orders without weight, and the others, in their order.
unfoldable pub zero_weight : List Order → List Order
zero_weight [] = []
zero_weight (o ∷ os) = if o.weight == 0 then o ∷ zero_weight os else zero_weight os

unfoldable pub with_weight : List Order → List Order
with_weight [] = []
with_weight (o ∷ os) = if o.weight == 0 then with_weight os else o ∷ with_weight os

pub weights-zero_weight : (os : List Order) → weights (zero_weight os) ≡ 0
unfolding weights zero_weight
weights-zero_weight [] = refl
weights-zero_weight (o ∷ os) = ground (arith, weights-zero_weight os)

pub weights-with_weight : (os : List Order) → weights (with_weight os) ≡ weights os
unfolding weights with_weight
weights-with_weight [] = refl
weights-with_weight (o ∷ os) = ground (arith, weights-with_weight os)

pub values-parts : (os : List Order) → values os ≡ values (zero_weight os) + values (with_weight os)
unfolding values zero_weight with_weight
values-parts [] = refl
values-parts (o ∷ os) = ground (arith, values-parts os)

pub Sub-with_weight : {ys xs : List Order} → Sub ys xs → Sub (with_weight ys) (with_weight xs)
unfolding with_weight
Sub-with_weight done = done
Sub-with_weight (skip {o} s) = elim (Bool-cases (o.weight == 0)) [
  | inl light ↦ rw light (Sub-with_weight s)
  | inr heavy ↦ rw heavy (skip (Sub-with_weight s))
]
Sub-with_weight (keep {o} s) = elim (Bool-cases (o.weight == 0)) [
  | inl light ↦ rw light (Sub-with_weight s)
  | inr heavy ↦ rw heavy (keep (Sub-with_weight s))
]

pub Sub-zero_weight : {ys xs : List Order} → Sub ys xs → Sub (zero_weight ys) (zero_weight xs)
unfolding zero_weight
Sub-zero_weight done = done
Sub-zero_weight (skip {o} s) = elim (Bool-cases (o.weight == 0)) [
  | inl light ↦ rw light (skip (Sub-zero_weight s))
  | inr heavy ↦ rw heavy (Sub-zero_weight s)
]
Sub-zero_weight (keep {o} s) = elim (Bool-cases (o.weight == 0)) [
  | inl light ↦ rw light (keep (Sub-zero_weight s))
  | inr heavy ↦ rw heavy (Sub-zero_weight s)
]

pub with_weight-ArePositive :
    (os : List Order) → weights os < int_min → ArePositive (with_weight os)
unfolding with_weight weights
with_weight-ArePositive [] h = tt
with_weight-ArePositive (o ∷ os) h = elim (Bool-cases (o.weight == 0)) [
  | inl light ↦ rw light (with_weight-ArePositive os (omega arith))
  | inr heavy ↦ rw heavy (ground arith, omega arith, with_weight-ArePositive os (omega arith))
]

abbrev pub AllLe : ℕ → List Order → Type 0
AllLe cap [] = Unit
AllLe cap (o ∷ os) = (o.weight ≤ cap) × AllLe cap os

pub AllLe-with_weight : (cap : ℕ) (os : List Order) → AllLe cap os → AllLe cap (with_weight os)
unfolding with_weight
AllLe-with_weight cap [] h = tt
AllLe-with_weight cap (o ∷ os) h = elim (Bool-cases (o.weight == 0)) [
  | inl light ↦ rw light (AllLe-with_weight cap os h.1)
  | inr heavy ↦ rw heavy (h.0, AllLe-with_weight cap os h.1)
]

-- Each of several orders weighs at most what they weigh together.
pub AllLe-weights : (cap : ℕ) (os : List Order) → weights os ≤ cap → AllLe cap os
unfolding weights
AllLe-weights cap [] h = tt
AllLe-weights cap (o ∷ os) h = (omega arith, AllLe-weights cap os (omega arith))

pub AllLe-get :
    (cap : ℕ) (os : List Order) (k : ℕ) {o : Order}
    → AllLe cap os
    → get_elem? os k ≡ some o
    → o.weight ≤ cap
AllLe-get cap [] k h e = absurd (cc)
AllLe-get cap (x ∷ os) zero {o} h e =
    subst (λ (y : Order). y.weight ≤ cap) (some-injective x o e) h.0
AllLe-get cap (x ∷ os) (suc k) h e = AllLe-get cap os k h.1 e

pub Sub-get : (os : List Order) (k : ℕ) {o : Order} → get_elem? os k ≡ some o → Sub (o ∷ []) os
Sub-get [] k e = absurd (cc)
Sub-get (x ∷ os) zero {o} e =
    subst (λ y. Sub (y ∷ []) (x ∷ os)) (some-injective x o e) (keep (Sub-nil os))
Sub-get (x ∷ os) (suc k) e = skip (Sub-get os k e)

pub weights_positive : (xs : List Order) → ArePositive xs → xs ≢ [] → 0 < weights xs
unfolding weights
weights_positive [] p h = absurd (h refl)
weights_positive (o ∷ os) p h = omega arith

pub Sub-trans : {zs ys xs : List Order} → Sub zs ys → Sub ys xs → Sub zs xs
Sub-trans s done = s
Sub-trans s (skip t) = skip (Sub-trans s t)
Sub-trans (skip s) (keep t) = skip (Sub-trans s t)
Sub-trans (keep s) (keep t) = keep (Sub-trans s t)

pub Sub-cons-ne : {o : Order} {ys xs : List Order} → Sub (o ∷ ys) xs → xs ≢ []
Sub-cons-ne (skip s) = cc
Sub-cons-ne (keep s) = cc

-- An order of the list is without weight or with it.
pub one-zero_weight :
    (os : List Order) {o : Order} → Sub (o ∷ []) os → with_weight os ≡ [] → zero_weight os ≢ []
unfolding with_weight zero_weight
one-zero_weight os {o} s e = elim (Bool-cases (o.weight == 0)) [
  | inl light ↦ Sub-cons-ne (rw light at (Sub-zero_weight s))
  | inr heavy ↦ absurd (Sub-cons-ne (rw heavy at (Sub-with_weight s)) e)
]
