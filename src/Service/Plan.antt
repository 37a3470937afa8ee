-- ===== src/Service/Plan.antt =====
-- What `RobotService.GenerateDeliveryPlan` of webapp/backend/internal/service/robot.go leaves behind.
use Prim.Native.String.{String}
use snake_42tokyo_tuning.Base.{
  ℕ, ◌<◌, ◌≡◌, refl, sym, ap, ◌∙◌, subst, List, [], ◌∷◌, none, int_min, max_ints, ◌≤◌, value, ok,
  Ends, Ends-error,
}
use snake_42tokyo_tuning.Model.{Order, DeliveryPlan}
use snake_42tokyo_tuning.Delivery.Table.{Context}
use snake_42tokyo_tuning.Delivery.Row.{Polled}
use snake_42tokyo_tuning.Delivery.Spec.{weights, values}
use snake_42tokyo_tuning.Delivery.Divided.{IsOptimal}
use snake_42tokyo_tuning.Delivery.Optimal.{
  needed, select_orders_for_delivery-Ends, select_orders_for_delivery-panic,
}
use snake_42tokyo_tuning.Delivery.Select.{select_orders_for_delivery}
use snake_42tokyo_tuning.Store.Db.{OrderRow, Tables, World, Env}
use snake_42tokyo_tuning.Store.Orders.{
  set_statuses, contains, shipping_orders, update_statuses, get_shipping_orders,
}
use snake_42tokyo_tuning.Store.Tx.{with_timeout}
use snake_42tokyo_tuning.Store.Leaves.{
  Leaves, done, Failure, own, Reverted, Never, Leaves-Never, exec_tx-Never, Leaves-bind,
  lift-Leaves, query-Leaves, exec-Leaves, exec_tx-Leaves,
}
use snake_42tokyo_tuning.Service.Robot.{
  order_ids, mark_delivering, plan_in_tx, generate_delivery_plan,
}

set_statuses-nil : (s : String) (rs : List OrderRow) → set_statuses [] s rs ≡ rs
unfolding set_statuses contains
set_statuses-nil s [] = refl
set_statuses-nil s (r ∷ rs) = ap (λ qs. r ∷ qs) (set_statuses-nil s rs)

-- The tables after the orders of a plan have left.
abbrev pub departed : Tables → DeliveryPlan → Tables
departed t plan = record t { orders = set_statuses (order_ids plan.orders) "delivering" t.orders }

-- The orders that the service plans with.
abbrev pub candidates : Env → Tables → List Order
candidates env t = env.arrange (shipping_orders env.same t.products t.orders)

module _ (env : Env) (ctx : Context) where
  mark_delivering-departed :
      (plan : DeliveryPlan) (w : World)
      → Leaves
          (λ e w'. Failure env (Polled ctx) e)
          (λ a w'. w'.tables ≡ departed w.tables plan)
          (mark_delivering env plan w)
  unfolding mark_delivering update_statuses order_ids
  mark_delivering-departed plan w = from plan.orders refl
    where
      from :
          (os : List Order)
          → plan.orders ≡ os
          → Leaves {A = Unit {0}}
              (λ e w'. Failure env (Polled ctx) e)
              (λ a w'. w'.tables ≡ departed w.tables plan)
              (elim os [
                | [] ↦ (ok tt, w)
                | o ∷ os ↦ update_statuses env (order_ids (o ∷ os)) "delivering" w
              ])
      from [] e = rw e (
          done (
            sym (
              ap (λ rs. record w.tables { orders = rs })
                (set_statuses-nil "delivering" w.tables.orders))))
      from (o ∷ os) e = rw e (
          exec-Leaves env (Polled ctx)
            (λ a t. t ≡ record w.tables {
              orders = set_statuses (order_ids (o ∷ os)) "delivering" w.tables.orders;
            })
            _ w (λ time. value refl))

  -- The transaction behind `GenerateDeliveryPlan`, while the timeout does not fire and the table can be
  -- made, from tables whose shipping orders have weights and values with sums below 2 ^ 63, and for a
  -- positive capacity. It never panics. Either it returns a plan that is optimal among the shipping
  -- orders, and the tables differ from the old ones only in the status of the orders of the plan, which
  -- is 'delivering'. Or it returns an error of the driver or of the context, and no row has changed.
  pub generate_delivery_plan-IsOptimal :
      (robot_id : String) (cap : ℕ) (w : World)
      → 0 < cap
      → cap < int_min
      → weights (candidates env w.tables) < int_min
      → values (candidates env w.tables) < int_min
      → needed (candidates env w.tables) cap < max_ints
      → Leaves
          (Reverted env (Polled ctx) w.tables)
          (λ plan w'.
            IsOptimal (candidates env w.tables) cap plan × (w'.tables ≡ departed w.tables plan))
          (generate_delivery_plan env ctx none robot_id cap w)
  unfolding generate_delivery_plan with_timeout plan_in_tx get_shipping_orders
  generate_delivery_plan-IsOptimal robot_id cap w positive small w-small v-small room =
      exec_tx-Leaves env (Polled ctx)
        (λ plan t. IsOptimal (candidates env w.tables) cap plan × (t ≡ departed w.tables plan)) _ w
        λ w1 start.
          Leaves-bind
            (query-Leaves env (Polled ctx) {P = λ os. os ≡ candidates env w.tables}
              (λ t. ok (candidates env t)) w1 (value (ap (candidates env) start)))
            λ os w2 (read, kept).
              Leaves-bind
                (lift-Leaves w2 (
                  subst
                    (λ os.
                      Ends (Failure env (Polled ctx)) (IsOptimal (candidates env w.tables) cap)
                        (select_orders_for_delivery ctx os robot_id cap))
                    (sym read)
                    (Ends-error
                      (select_orders_for_delivery-Ends ctx (candidates env w.tables) robot_id cap
                        positive small w-small v-small room)
                      λ e q. own q)))
                λ plan w3 (best, same).
                  Leaves-bind (mark_delivering-departed plan w3)
                    λ a w4 left. done (best, left ∙ ap (λ t. departed t plan) (same ∙ kept ∙ start))

  -- If the table cannot be made, the transaction does not return a plan.
  pub generate_delivery_plan-Never :
      (robot_id : String) (cap : ℕ) (w : World)
      → 0 < cap
      → cap < int_min
      → weights (candidates env w.tables) < int_min
      → values (candidates env w.tables) < int_min
      → max_ints ≤ needed (candidates env w.tables) cap
      → Never (generate_delivery_plan env ctx none robot_id cap w)
  unfolding generate_delivery_plan with_timeout plan_in_tx get_shipping_orders
  generate_delivery_plan-Never robot_id cap w positive small w-small v-small long =
      exec_tx-Never env (Polled ctx) _ w λ w1 start.
        Leaves-Never _
          (query-Leaves env (Polled ctx) {P = λ os. os ≡ candidates env w.tables}
            (λ t. ok (candidates env t)) w1 (value (ap (candidates env) start)))
          λ os w2 (read, kept).
            rw
              (
                read,
                select_orders_for_delivery-panic ctx (candidates env w.tables) robot_id cap positive
                    small w-small v-small long,
              )
              tt
