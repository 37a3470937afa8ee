-- ===== src/Service/Turns.antt =====
-- Two robots that ask in turn: `RobotService.GenerateDeliveryPlan` of
-- webapp/backend/internal/service/robot.go never gives an order out twice.
use Prim.Native.String.{String}
use mathlib.Core.List.{Permᴰ}
use mathlib.Core.List.Permᴰ.{nil, cons, swap, trans}
use snake_42tokyo_tuning.Base.{
  ℕ, ◌<◌, ◌≡◌, sym, subst, Bool, false, Option, List, [], ◌∷◌, ◌++◌, Bool-cases, Option-cases, inl,
  inr, ok, int_min, ◌==◌, if◌then◌else◌,
}
use snake_42tokyo_tuning.Model.{Product, Order, DeliveryPlan, Error}
use snake_42tokyo_tuning.Delivery.Table.{Context}
use snake_42tokyo_tuning.Delivery.Spec.{Sub, done, skip, keep, weights, values}
use snake_42tokyo_tuning.Delivery.Halves.{zero_weight, with_weight}
use snake_42tokyo_tuning.Delivery.Divided.{IsOptimal}
use snake_42tokyo_tuning.Store.Db.{OrderRow, World, Env}
use snake_42tokyo_tuning.Store.Orders.{
  contains, set_statuses, shipping, shipping_order, shipping_orders, find_product,
}
use snake_42tokyo_tuning.Store.Leaves.{Established}
use snake_42tokyo_tuning.Service.Robot.{order_ids, generate_delivery_plan}
use snake_42tokyo_tuning.Service.Plan.{candidates, departed}
use snake_42tokyo_tuning.Service.Timed.{generate_delivery_plan-Established}

-- Every order is outside of the ids.
abbrev pub Outside : List ℕ → List Order → Type 0
Outside ids [] = Unit
Outside ids (o ∷ os) = (contains o.order_id ids ≡ false) × Outside ids os

module _ (ids : List ℕ) where
  Outside-append : (xs ys : List Order) → Outside ids xs → Outside ids ys → Outside ids (xs ++ ys)
  Outside-append [] ys h k = k
  Outside-append (x ∷ xs) ys h k = (h.0, Outside-append xs ys h.1 k)

  Outside-Sub : {xs ys : List Order} → Sub xs ys → Outside ids ys → Outside ids xs
  Outside-Sub done h = tt
  Outside-Sub (skip s) h = Outside-Sub s h.1
  Outside-Sub (keep s) h = (h.0, Outside-Sub s h.1)

  Outside-Perm : {xs ys : List Order} → Permᴰ xs ys → Outside ids ys → Outside ids xs
  Outside-Perm nil h = tt
  Outside-Perm (cons e p) h =
      (subst (λ (o : Order). contains o.order_id ids ≡ false) (sym e) h.0, Outside-Perm p h.1)
  Outside-Perm (swap e f) h = (
    subst (λ (o : Order). contains o.order_id ids ≡ false) (sym e) h.1.0,
    (subst (λ (o : Order). contains o.order_id ids ≡ false) (sym f) h.0, h.1.1),
  )
  Outside-Perm (trans p q) h = Outside-Perm p (Outside-Perm q h)

  Outside-zero_weight : (os : List Order) → Outside ids os → Outside ids (zero_weight os)
  unfolding zero_weight
  Outside-zero_weight [] h = tt
  Outside-zero_weight (o ∷ os) h = elim (Bool-cases (o.weight == 0)) [
    | inl zero_weight_order ↦ rw zero_weight_order ((h.0, Outside-zero_weight os h.1))
    | inr heavy ↦ rw heavy (Outside-zero_weight os h.1)
  ]

  Outside-with_weight : (os : List Order) → Outside ids os → Outside ids (with_weight os)
  unfolding with_weight
  Outside-with_weight [] h = tt
  Outside-with_weight (o ∷ os) h = elim (Bool-cases (o.weight == 0)) [
    | inl zero_weight_order ↦ rw zero_weight_order (Outside-with_weight os h.1)
    | inr heavy ↦ rw heavy ((h.0, Outside-with_weight os h.1))
  ]

  Outside-shipping_order :
      (same : String → String → Bool) (products : List Product) (r : OrderRow)
      → contains r.order_id ids ≡ false
      → Outside ids (shipping_order same products r)
  unfolding shipping_order
  Outside-shipping_order same products r outside =
      elim (Bool-cases (same r.shipped_status shipping)) [
        | inr elsewhere ↦ rw elsewhere tt
        | inl waiting ↦ elim (Option-cases (find_product r.product_id products)) [
          | inl missing ↦ rw (waiting, missing) tt
          | inr (p, found) ↦ rw (waiting, found) (outside, tt)
        ]
      ]

  elsewhere-Outside :
      (same : String → String → Bool) (products : List Product) (r : OrderRow)
      → same r.shipped_status shipping ≡ false
      → Outside ids (shipping_order same products r)
  unfolding shipping_order
  elsewhere-Outside same products r elsewhere = rw elsewhere tt

  -- What has left is not in shipping any more.
  Outside-shipping_orders :
      (same : String → String → Bool) (s : String) (products : List Product) (rows : List OrderRow)
      → same s shipping ≡ false
      → Outside ids (shipping_orders same products (set_statuses ids s rows))
  unfolding shipping_orders set_statuses
  Outside-shipping_orders same s products [] left = tt
  Outside-shipping_orders same s products (r ∷ rows) left =
      Outside-append _ _ here (Outside-shipping_orders same s products rows left)
    where
      here : Outside ids (
          shipping_order same products
            (if contains r.order_id ids then record r { shipped_status = s } else r))
      here = elim (Bool-cases (contains r.order_id ids)) [
        | inl hit ↦ rw hit (elsewhere-Outside same products (record r { shipped_status = s }) left)
        | inr elsewhere ↦ rw elsewhere (Outside-shipping_order same products r elsewhere)
      ]

module _ (env : Env) (ctx ctx' : Context) where
  -- If two plans are generated in turn, with no other statement between them, the second has no order
  -- of the first. It holds for positive capacities, for weights and values of the shipping orders with
  -- sums below 2 ^ 63 at both times, if the server lists each row once and tells 'delivering' from
  -- 'shipping'.
  pub generate_delivery_plan-Outside :
      (fired fired' : Option Error) (robot_id robot_id' : String) (cap cap' : ℕ) (w w1 w2 : World)
      (plan plan' : DeliveryPlan)
      → ((os : List Order) → Permᴰ (env.arrange os) os)
      → env.same "delivering" shipping ≡ false
      → 0 < cap
      → cap < int_min
      → 0 < cap'
      → cap' < int_min
      → weights (candidates env w.tables) < int_min
      → values (candidates env w.tables) < int_min
      → weights (candidates env w1.tables) < int_min
      → values (candidates env w1.tables) < int_min
      → generate_delivery_plan env ctx fired robot_id cap w ≡ (ok plan, w1)
      → generate_delivery_plan env ctx' fired' robot_id' cap' w1 ≡ (ok plan', w2)
      → Outside (order_ids plan.orders) plan'.orders
  generate_delivery_plan-Outside fired fired' robot_id robot_id' cap cap' w w1 w2 plan plan' lists
        tells pos small pos' small' w-s v-s w-s' v-s' first second =
      let ids = order_ids plan.orders in
      let (best, left) =
        subst
          (Established λ plan w'.
            IsOptimal (candidates env w.tables) cap plan × (w'.tables ≡ departed w.tables plan))
          first
          (generate_delivery_plan-Established env fired ctx robot_id cap w pos small w-s v-s) in
      let (best', left') =
        subst
          (Established λ plan w'.
            IsOptimal (candidates env w1.tables) cap' plan × (w'.tables ≡ departed w1.tables plan))
          second
          (generate_delivery_plan-Established env fired' ctx' robot_id' cap' w1 pos' small' w-s'
            v-s') in
      let outside : Outside ids (candidates env w1.tables) = rw left (
        Outside-Perm ids (lists _) (
          Outside-shipping_orders ids env.same "delivering" w.tables.products w.tables.orders
            tells)) in
      rw best'.arranged (
        Outside-append ids (zero_weight (candidates env w1.tables)) best'.chosen
          (Outside-zero_weight ids _ outside)
          (Outside-Sub ids best'.selection (Outside-with_weight ids _ outside)))
