-- ===== src/Delivery/Divided.antt =====
-- The plan of `selectOrdersForDelivery` of webapp/backend/internal/service/robot.go from orders that all
-- fit: the split, the effective capacity, and the totals.
use snake_42tokyo_tuning.Base.{
  ℕ, ◌+◌, ◌≤◌, ◌<◌, ◌≡◌, ◌≢◌, refl, ◌∙◌, sym, ap, List, [], ◌∷◌, ◌++◌, append-nil, arith, ◌⊎◌, inl,
  inr, false, int_min, max_ints, min, panic, ltb, leb, Bool-cases, Ends, value, Ends-map,
  lt_int_small, le_int_small, ltb→lt,
}
use Prim.Native.String.{String}
use native.Mathlib.Nat.{zero-add}
use snake_42tokyo_tuning.Model.{Order, DeliveryPlan}
use snake_42tokyo_tuning.Delivery.Table.{Context}
use snake_42tokyo_tuning.Delivery.Select.{
  split, no_split, is_empty, add_weights, add_values, plan_of, only_zeros, effective, select_split,
  select_positive,
}
use snake_42tokyo_tuning.Delivery.Spec.{
  Sub, done, Sub-weights, Sub-values, weights, values, weights-append, values-append,
}
use snake_42tokyo_tuning.Delivery.Halves.{
  one-zero_weight, zero_weight, with_weight, weights-zero_weight, weights-with_weight, values-parts,
  Sub-with_weight, Sub-zero_weight, with_weight-ArePositive, weights_positive, AllLe,
  AllLe-with_weight, AllLe-weights,
}
use snake_42tokyo_tuning.Delivery.Row.{Polled}
use snake_42tokyo_tuning.Delivery.Fill.{new_table-panic}
use snake_42tokyo_tuning.Delivery.Parts.{add_weights-eq-weights, add_values-eq-values, split-parts}
use snake_42tokyo_tuning.Delivery.Choice.{IsBest, select_positive-IsBest}

-- The plan holds every order without weight, then a selection of the others in the order of the
-- input; its totals are the exact sums; it fits; no selection that fits is worth more; and it is
-- not empty if an order fits.
pub record IsOptimal (orders : List Order) (cap : ℕ) (plan : DeliveryPlan) : Type 0 where
  pub chosen : List Order
  pub arranged : plan.orders ≡ zero_weight orders ++ chosen
  pub selection : Sub chosen (with_weight orders)
  pub weight_exact : plan.total_weight ≡ weights plan.orders
  pub value_exact : plan.total_value ≡ values plan.orders
  pub fits : plan.total_weight ≤ cap
  pub optimal : (ys : List Order) → Sub ys orders → weights ys ≤ cap → values ys ≤ plan.total_value
  pub nonempty : (o : Order) → Sub (o ∷ []) orders → o.weight ≤ cap → plan.orders ≢ []

pub nil-cases : (xs : List Order) → (xs ≡ []) ⊎ ((is_empty xs ≡ false) × (xs ≢ []))
nil-cases [] = inl refl
nil-cases (x ∷ xs) = inr (refl, cc)

append-ne : (xs ys : List Order) → ys ≢ [] → xs ++ ys ≢ []
append-ne [] ys h = h
append-ne (x ∷ xs) ys h = cc

pub positive_capacity : {e : ℕ} → 0 < e → leb e 0 ≡ false
positive_capacity h = ground arith

-- The split part, from the candidates.
module _ (ctx : Context) (robot_id : String) (cap : ℕ) (positive : 0 < cap) (small : cap < int_min)
    (os : List Order) (light : AllLe cap os) (w-small : weights os < int_min)
    (v-small : values os < int_min) where
  plan_weights : (chosen : List Order) → weights (zero_weight os ++ chosen) ≡ weights chosen
  plan_weights chosen =
      omega (arith, weights-append (zero_weight os) chosen, weights-zero_weight os)

  plan_values :
      (chosen : List Order)
      → Sub chosen (with_weight os)
      → values (zero_weight os ++ chosen) < int_min
  plan_values chosen s =
      omega (arith, values-append (zero_weight os) chosen, Sub-values s, values-parts os)

  -- A selection that is best for the effective capacity makes an optimal plan.
  chosen-IsOptimal :
      (chosen : List Order) (e : ℕ)
      → chosen ≢ []
      → e ≤ cap
      → IsBest (with_weight os) e chosen
      → ((ys : List Order) → Sub ys (with_weight os) → weights ys ≤ cap → weights ys ≤ e)
      → IsOptimal os cap (plan_of robot_id (zero_weight os ++ chosen))
  unfolding plan_of
  chosen-IsOptimal chosen e some_order e-le best bound = record {
    chosen = chosen;
    arranged = refl;
    selection = best.selection;
    weight_exact = weight;
    value_exact = worth;
    fits = omega (arith, weight, plan_weights chosen, best.fits);
    optimal = λ ys s w. omega (
      arith,
      worth,
      values-append (zero_weight os) chosen,
      values-parts ys,
      Sub-values (Sub-zero_weight s),
      best.best (with_weight ys) (Sub-with_weight s)
          (bound (with_weight ys) (Sub-with_weight s) (omega (arith, weights-with_weight ys))),
    );
    nonempty = λ o s w. append-ne (zero_weight os) chosen some_order;
  }
    where
      weight : add_weights 0 (zero_weight os ++ chosen) ≡ weights (zero_weight os ++ chosen)
      weight =
          add_weights-eq-weights 0 _ (omega (arith, plan_weights chosen, best.fits)) ∙ zero-add _

      worth : add_values 0 (zero_weight os ++ chosen) ≡ values (zero_weight os ++ chosen)
      worth =
          add_values-eq-values 0 _ (omega (arith, plan_values chosen best.selection)) ∙ zero-add _

  -- Without an order of positive weight the plan is the rest.
  only_zeros-IsOptimal :
      with_weight os ≡ [] → IsOptimal os cap (only_zeros robot_id (zero_weight os))
  unfolding only_zeros values weights
  only_zeros-IsOptimal none_heavy = record {
    chosen = [];
    arranged = sym (append-nil (zero_weight os));
    selection = rw none_heavy done;
    weight_exact = sym (weights-zero_weight os);
    value_exact = worth;
    fits = omega arith;
    optimal = λ ys s w. omega (arith, worth, Sub-values s, values-parts os, ap values none_heavy);
    nonempty = λ o s w. one-zero_weight os s none_heavy;
  }
    where
      worth : add_values 0 (zero_weight os) ≡ values (zero_weight os)
      worth = add_values-eq-values 0 _ (omega (arith, values-parts os)) ∙ zero-add _

  -- The capacity that the table is made for.
  record IsEffective (e : ℕ) : Type 0 where
    at_most : e ≤ cap
    nonzero : with_weight os ≢ [] → 0 < e
    covers : AllLe e (with_weight os)
    bound : (ys : List Order) → Sub ys (with_weight os) → weights ys ≤ cap → weights ys ≤ e

  heavy_positive : with_weight os ≢ [] → 0 < weights os
  heavy_positive h = omega (
    arith,
    weights_positive (with_weight os) (with_weight-ArePositive os w-small) h,
    weights-with_weight os,
  )

  effective-IsEffective : IsEffective (effective (0 + weights os) cap)
  unfolding effective
  effective-IsEffective = elim (Bool-cases (ltb (weights os) cap)) [
    | inl all_fit ↦
        rw (zero-add (weights os), lt_int_small (weights os) cap w-small small, all_fit)
          (record {
            at_most = omega (arith, ltb→lt _ _ all_fit);
            nonzero = heavy_positive;
            covers = AllLe-weights _ (with_weight os) (omega (arith, weights-with_weight os));
            bound = λ ys s w. omega (arith, Sub-weights s, weights-with_weight os);
          })
    | inr more ↦
        rw (zero-add (weights os), lt_int_small (weights os) cap w-small small, more)
          (record {
            at_most = omega arith;
            nonzero = λ _. positive;
            covers = AllLe-with_weight cap os light;
            bound = λ ys s w. w;
          })
  ]

  effective-eq-min : effective (0 + weights os) cap ≡ min (weights os) cap
  unfolding effective
  effective-eq-min =
      rw (zero-add (weights os), lt_int_small (weights os) cap w-small small) (ground arith)

  -- With orders of positive weight, the function goes on to the table.
  select_split-heavy :
      with_weight os ≢ []
      → is_empty (with_weight os) ≡ false
      → select_split ctx (split os no_split) robot_id cap
        ≡ select_positive ctx
            (zero_weight os)
            (with_weight os)
            robot_id
            (effective (0 + weights os) cap)
  unfolding select_split no_split
  select_split-heavy heavy filled =
      rw
        (
          split-parts os no_split (omega arith),
          filled,
          le_int_small (effective (0 + weights os) cap) 0
              (omega (arith, effective-IsEffective.at_most)) (omega arith),
          positive_capacity (effective-IsEffective.nonzero heavy),
        )
        refl

  -- A table that is too long for `make`.
  pub select_split-panic :
      max_ints ≤ min (weights os) cap → select_split ctx (split os no_split) robot_id cap ≡ panic
  unfolding select_positive weights
  select_split-panic long = elim (nil-cases (with_weight os)) [
    | inl light_only ↦ absurd (omega (arith, weights-with_weight os, ap weights light_only))
    | inr heavy ↦
        rw
          (
            select_split-heavy heavy.1 heavy.0,
            new_table-panic (effective (0 + weights os) cap)
                (omega (arith, effective-IsEffective.at_most)) (omega (arith, effective-eq-min)),
          )
          refl
  ]

  pub select_split-IsOptimal :
      min (weights os) cap < max_ints
      → Ends (Polled ctx) (IsOptimal os cap) (select_split ctx (split os no_split) robot_id cap)
  unfolding select_split no_split
  select_split-IsOptimal room = elim (nil-cases (with_weight os)) [
    | inl light_only ↦
        rw (split-parts os no_split (omega arith), light_only)
          (value (only_zeros-IsOptimal light_only))
    | inr heavy ↦ rw (select_split-heavy heavy.1 heavy.0) (
        Ends-map
          (select_positive-IsBest ctx (zero_weight os) (with_weight os) _
            (omega (arith, effective-IsEffective.at_most)) (with_weight-ArePositive os w-small)
            effective-IsEffective.covers heavy.1 (omega (arith, values-parts os))
            (omega (arith, effective-eq-min)) robot_id)
          λ p (chosen, e, best, ne). rw e (
            chosen-IsOptimal chosen _ ne effective-IsEffective.at_most best
              effective-IsEffective.bound))
  ]
