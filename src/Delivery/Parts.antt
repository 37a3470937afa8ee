-- ===== src/Delivery/Parts.antt =====
-- The steps of `selectOrdersForDelivery` around the table: the filter, the split and the totals.
use snake_42tokyo_tuning.Base.{
  ℕ, ◌+◌, ◌≤◌, ◌<◌, ◌≡◌, refl, List, [], ◌∷◌, ◌++◌, append-nil, append_assoc, arith, inl, inr,
  int_min, add_int_small, le_int_small, leb, ◌==◌, Bool-cases, if◌then◌else◌,
}
use snake_42tokyo_tuning.Model.{Order}
use snake_42tokyo_tuning.Delivery.Select.{fitting, Split, split, add_weights, add_values}
use snake_42tokyo_tuning.Delivery.Spec.{Sub, done, skip, keep, weights, values}
use snake_42tokyo_tuning.Delivery.Halves.{zero_weight, with_weight, AllLe}

-- Below 2 ^ 63 the running totals are the exact sums.
pub add_weights-eq-weights :
    (total : ℕ) (os : List Order)
    → total + weights os < int_min
    → add_weights total os ≡ total + weights os
unfolding add_weights weights
add_weights-eq-weights total [] h = omega arith
add_weights-eq-weights total (o ∷ os) h =
    rw (add_int_small total o.weight (omega arith))
      (omega (arith, add_weights-eq-weights (total + o.weight) os (omega arith)))

pub add_values-eq-values :
    (total : ℕ) (os : List Order)
    → total + values os < int_min
    → add_values total os ≡ total + values os
unfolding add_values values
add_values-eq-values total [] h = omega arith
add_values-eq-values total (o ∷ os) h =
    rw (add_int_small total o.value (omega arith))
      (omega (arith, add_values-eq-values (total + o.value) os (omega arith)))

module _ (cap : ℕ) (small : cap < int_min) where
  fitting-cons :
      (o : Order) (os : List Order)
      → o.weight < int_min
      → fitting cap (o ∷ os) ≡ (if leb o.weight cap then o ∷ fitting cap os else fitting cap os)
  unfolding fitting
  fitting-cons o os light = rw (le_int_small o.weight cap light small)

  pub Sub-fitting : (os : List Order) → weights os < int_min → Sub (fitting cap os) os
  unfolding weights
  Sub-fitting [] h = unfold fitting in done
  Sub-fitting (o ∷ os) h =
      rw (fitting-cons o os (omega arith)) (elim (Bool-cases (leb o.weight cap)) [
        | inl fits ↦ rw fits (keep (Sub-fitting os (omega arith)))
        | inr heavy ↦ rw heavy (skip (Sub-fitting os (omega arith)))
      ])

  -- A selection within the capacity has only orders that fit.
  pub Sub-fitting_of-le :
      {ys os : List Order}
      → Sub ys os
      → weights os < int_min
      → weights ys ≤ cap
      → Sub ys (fitting cap os)
  unfolding weights
  Sub-fitting_of-le done h w = unfold fitting in done
  Sub-fitting_of-le (skip {o} {ys} {xs} s) h w =
      rw (fitting-cons o xs (omega arith)) (elim (Bool-cases (leb o.weight cap)) [
        | inl fits ↦ rw fits (skip (Sub-fitting_of-le s (omega arith) w))
        | inr heavy ↦ rw heavy (Sub-fitting_of-le s (omega arith) w)
      ])
  Sub-fitting_of-le (keep {o} {ys} {xs} s) h w =
      rw (fitting-cons o xs (omega arith)) (elim (Bool-cases (leb o.weight cap)) [
        | inl fits ↦ rw fits (keep (Sub-fitting_of-le s (omega arith) (omega arith)))
        | inr heavy ↦ absurd (ground arith)
      ])

  pub zero_weight-fitting :
      (os : List Order) → weights os < int_min → zero_weight (fitting cap os) ≡ zero_weight os
  unfolding weights zero_weight fitting
  zero_weight-fitting [] h = refl
  zero_weight-fitting (o ∷ os) h =
      rw (le_int_small o.weight cap (omega arith) small) (ground (arith, zero_weight-fitting os))

  pub fitting-AllLe : (os : List Order) → weights os < int_min → AllLe cap (fitting cap os)
  unfolding weights
  fitting-AllLe [] h = unfold fitting in tt
  fitting-AllLe (o ∷ os) h =
      rw (fitting-cons o os (omega arith)) (elim (Bool-cases (leb o.weight cap)) [
        | inl fits ↦ rw fits (ground arith, fitting-AllLe os (omega arith))
        | inr heavy ↦ rw heavy (fitting-AllLe os (omega arith))
      ])

-- The split, by its two filters and the sum.
pub split-parts :
    (os : List Order) (s : Split)
    → s.total_weight + weights os < int_min
    → split os s ≡ record {
      zero_weight_orders = s.zero_weight_orders ++ zero_weight os;
      positive_orders = s.positive_orders ++ with_weight os;
      total_weight = s.total_weight + weights os;
    }
unfolding split zero_weight with_weight weights
split-parts [] s h = ground (arith, append-nil s.zero_weight_orders, append-nil s.positive_orders)
split-parts (o ∷ os) s h = elim (Bool-cases (o.weight == 0)) [
  | inl light ↦ rw (light) (
      ground (
        arith,
        split-parts os (record s { zero_weight_orders = s.zero_weight_orders ++ o ∷ [] }),
        append_assoc s.zero_weight_orders (o ∷ []) (zero_weight os),
      ))
  | inr heavy ↦
      rw (heavy, add_int_small s.total_weight o.weight (omega arith))
        (ground (
          arith,
          split-parts os (record s {
            positive_orders = s.positive_orders ++ o ∷ [];
            total_weight = s.total_weight + o.weight;
          }),
          append_assoc s.positive_orders (o ∷ []) (with_weight os),
        ))
]
