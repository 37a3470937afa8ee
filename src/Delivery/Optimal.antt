-- ===== src/Delivery/Optimal.antt =====
-- What `selectOrdersForDelivery` of webapp/backend/internal/service/robot.go returns.
use snake_42tokyo_tuning.Base.{
  ℕ, ◌≤◌, ◌<◌, ◌≡◌, ◌≢◌, refl, ap, List, [], ◌∷◌, arith, ◌⊎◌, inl, inr, false, int_min, max_ints,
  min, ok, panic, ltb, Bool-cases, Ends, value, Ends-map, le_int_small, ltb→lt, ltb→le,
}
use Prim.Native.String.{String}
use snake_42tokyo_tuning.Model.{Order, DeliveryPlan}
use snake_42tokyo_tuning.Delivery.Table.{Context}
use snake_42tokyo_tuning.Delivery.Select.{
  fitting, split, no_split, is_empty, no_orders, select_split, select_orders_for_delivery,
}
use snake_42tokyo_tuning.Delivery.Spec.{done, Sub-weights, Sub-values, weights, values}
use snake_42tokyo_tuning.Delivery.Halves.{
  Sub-trans, Sub-cons-ne, zero_weight, with_weight, Sub-with_weight,
}
use snake_42tokyo_tuning.Delivery.Row.{Polled}
use snake_42tokyo_tuning.Delivery.Divided.{
  IsOptimal, nil-cases, positive_capacity, select_split-panic, select_split-IsOptimal,
}
use snake_42tokyo_tuning.Delivery.Parts.{
  Sub-fitting, Sub-fitting_of-le, zero_weight-fitting, fitting-AllLe,
}

-- What is optimal among the orders that fit is optimal among all.
fitting-IsOptimal :
    (orders : List Order) (cap : ℕ) (plan : DeliveryPlan)
    → cap < int_min
    → weights orders < int_min
    → IsOptimal (fitting cap orders) cap plan
    → IsOptimal orders cap plan
unfolding weights
fitting-IsOptimal orders cap plan small w-small p = record {
  chosen = p.chosen;
  arranged = rw (zero_weight-fitting cap small orders w-small) at p.arranged;
  selection = Sub-trans p.selection (Sub-with_weight (Sub-fitting cap small orders w-small));
  weight_exact = p.weight_exact;
  value_exact = p.value_exact;
  fits = p.fits;
  optimal = λ ys s w. p.optimal ys (Sub-fitting_of-le cap small s w-small w) w;
  nonempty = λ o s w. p.nonempty o (Sub-fitting_of-le cap small s w-small (omega arith)) w;
}

no_orders-IsOptimal : (robot_id : String) (cap : ℕ) → IsOptimal [] cap (no_orders robot_id)
unfolding no_orders weights values zero_weight with_weight
no_orders-IsOptimal robot_id cap = record {
  chosen = [];
  arranged = refl;
  selection = done;
  weight_exact = refl;
  value_exact = refl;
  fits = omega arith;
  optimal = λ ys s w. Sub-values s;
  nonempty = λ o s w. absurd (Sub-cons-ne s refl);
}

fitting-orders : (cap : ℕ) (orders : List Order) → fitting cap orders ≢ [] → is_empty orders ≡ false
unfolding fitting
fitting-orders cap [] h = absurd (h refl)
fitting-orders cap (o ∷ os) h = refl

-- The capacity that the table is made for: no more than the weight of the orders that fit.
abbrev pub needed : List Order → (cap : ℕ) → ℕ
needed orders cap = min (weights (fitting cap orders)) cap

module _ (ctx : Context) (orders : List Order) (robot_id : String) (cap : ℕ) (positive : 0 < cap)
    (small : cap < int_min) (w-small : weights orders < int_min)
    (v-small : values orders < int_min) where
  -- With orders that fit, the function goes on with them.
  select-fitting :
      fitting cap orders ≢ []
      → is_empty (fitting cap orders) ≡ false
      → select_orders_for_delivery ctx orders robot_id cap
        ≡ select_split ctx (split (fitting cap orders) no_split) robot_id cap
  unfolding select_orders_for_delivery
  select-fitting candidates filled =
      rw
        (
          le_int_small cap 0 small (omega arith),
          positive_capacity positive,
          fitting-orders cap orders candidates,
          filled,
        )
        refl

  without_candidates :
      fitting cap orders ≡ []
      → select_orders_for_delivery ctx orders robot_id cap ≡ ok (no_orders robot_id)
  unfolding select_orders_for_delivery
  without_candidates empty =
      rw (le_int_small cap 0 small (omega arith), positive_capacity positive, empty)
        (elim (Bool-cases (is_empty orders)) [ inl e ↦ rw e refl | inr e ↦ rw e refl ])

  candidate_weights : weights (fitting cap orders) < int_min
  candidate_weights = omega (arith, Sub-weights (Sub-fitting cap small orders w-small))

  candidate_values : values (fitting cap orders) < int_min
  candidate_values = omega (arith, Sub-values (Sub-fitting cap small orders w-small))

  pub select_orders_for_delivery-Ends :
      needed orders cap < max_ints
      → Ends
          (Polled ctx)
          (IsOptimal orders cap)
          (select_orders_for_delivery ctx orders robot_id cap)
  select_orders_for_delivery-Ends room =
      Ends-map
        (elim (nil-cases (fitting cap orders)) [
          | inl empty ↦
              rw (without_candidates empty, empty) (value (no_orders-IsOptimal robot_id cap))
          | inr candidates ↦ rw (select-fitting candidates.1 candidates.0) (
              select_split-IsOptimal ctx robot_id cap positive small (fitting cap orders)
                (fitting-AllLe cap small orders w-small) candidate_weights candidate_values room)
        ])
        λ plan p. fitting-IsOptimal orders cap plan small w-small p

  pub select_orders_for_delivery-panic :
      max_ints ≤ needed orders cap → select_orders_for_delivery ctx orders robot_id cap ≡ panic
  unfolding weights
  select_orders_for_delivery-panic long = elim (nil-cases (fitting cap orders)) [
    | inl empty ↦ absurd (omega (arith, ap weights empty))
    | inr candidates ↦ rw (select-fitting candidates.1 candidates.0) (
        select_split-panic ctx robot_id cap positive small (fitting cap orders)
          (fitting-AllLe cap small orders w-small) candidate_weights candidate_values long)
  ]

-- For a positive capacity below 2 ^ 63, and weights and values whose sums stay below 2 ^ 63. If the
-- capacity, or the weight of the orders that fit, is below 2 ^ 45, the function ends without a panic,
-- whatever the context answers: in the error of a poll of the context, or in an optimal plan. An optimal
-- plan holds all orders without weight, then a selection of the others in the order of the input; its
-- totals are the exact sums; it fits the capacity; no selection of the orders that fits is worth more;
-- and it is not empty if some order fits. Otherwise it panics, as no table can be made.
pub select_orders_for_delivery-IsOptimal :
    (ctx : Context) (orders : List Order) (robot_id : String) (cap : ℕ)
    → 0 < cap
    → cap < int_min
    → weights orders < int_min
    → values orders < int_min
    → ((needed orders cap < max_ints)
        × Ends
            (Polled ctx)
            (IsOptimal orders cap)
            (select_orders_for_delivery ctx orders robot_id cap))
      ⊎ ((max_ints ≤ needed orders cap)
          × (select_orders_for_delivery ctx orders robot_id cap ≡ panic))
select_orders_for_delivery-IsOptimal ctx orders robot_id cap positive small w-small v-small =
    elim (Bool-cases (ltb (needed orders cap) max_ints)) [
      | inl room ↦
          let below = ltb→lt _ _ room in
          inl (
            below,
            select_orders_for_delivery-Ends ctx orders robot_id cap positive small w-small v-small
                below,
          )
      | inr long ↦
          let above = ltb→le _ _ long in
          inr (
            above,
            select_orders_for_delivery-panic ctx orders robot_id cap positive small w-small v-small
                above,
          )
    ]
