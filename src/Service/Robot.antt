-- ===== src/Service/Robot.antt =====
-- `RobotService` of webapp/backend/internal/service/robot.go.
use Prim.Native.String.{String}
use text.Mathlib.Text.{◌==◌ as str_eq}
use snake_42tokyo_tuning.Base.{
  ℕ, Bool, true, ◌&&◌, Option, none, some, List, [], ◌∷◌, if◌then◌else◌, lt_int,
}
use snake_42tokyo_tuning.Model.{Order, DeliveryPlan, Error}
use snake_42tokyo_tuning.Delivery.Table.{Context}
use snake_42tokyo_tuning.Delivery.Select.{select_orders_for_delivery}
use snake_42tokyo_tuning.Store.Db.{Env, M, ◌>>=◌, ◌>>◌, return, lift}
use snake_42tokyo_tuning.Store.Orders.{
  update_statuses, count_shipping, clone_as_shipping, get_shipping_orders,
}
use snake_42tokyo_tuning.Store.Tx.{exec_tx, with_timeout}

pub record RobotService : Type 0 where
  pub clone_enabled : Bool
  pub supply_target : ℕ

-- `NewRobotService`: what the two variables parse to, `none` if one is not set or does not parse.
unfoldable pub new_robot_service : Option Bool → Option ℕ → RobotService
new_robot_service clone target = record {
  clone_enabled = elim clone [ none ↦ true | some b ↦ b ];
  supply_target = elim target [ none ↦ 500 | some n ↦ if lt_int n 0 then 0 else n ];
}

unfoldable pub order_ids : List Order → List ℕ
order_ids [] = []
order_ids (o ∷ os) = o.order_id ∷ order_ids os

unfoldable pub needs_refill : RobotService → String → Bool
needs_refill s new_status =
    str_eq new_status "completed" && s.clone_enabled && lt_int 0 s.supply_target

module _ (env : Env) where
  -- The update that follows a plan with orders.
  unfoldable pub mark_delivering : DeliveryPlan → M (Unit {0})
  mark_delivering plan w = elim plan.orders [
    | [] ↦ return tt w
    | o ∷ os ↦ update_statuses env (order_ids (o ∷ os)) "delivering" w
  ]

  unfoldable pub plan_in_tx : Context → String → ℕ → M DeliveryPlan
  plan_in_tx ctx robot_id capacity = do
    orders ← get_shipping_orders env
    plan ← lift (select_orders_for_delivery ctx orders robot_id capacity)
    mark_delivering plan
    return plan

  -- `fired` is the answer of the `select` in `WithTimeout`.
  unfoldable pub generate_delivery_plan : Context → Option Error → String → ℕ → M DeliveryPlan
  generate_delivery_plan ctx fired robot_id capacity =
      with_timeout fired (exec_tx env true (plan_in_tx ctx robot_id capacity))

  unfoldable pub refill : RobotService → (order_id : ℕ) → M (Unit {0})
  refill s order_id = do
    shipping_count ← count_shipping env
    if lt_int shipping_count s.supply_target
        then clone_as_shipping env (order_id ∷ [])
        else return tt

  unfoldable pub status_in_tx : RobotService → (order_id : ℕ) → String → M (Unit {0})
  status_in_tx s order_id new_status = do
    update_statuses env (order_id ∷ []) new_status
    if needs_refill s new_status then refill s order_id else return tt

  unfoldable pub update_order_status :
      RobotService → Option Error → (order_id : ℕ) → String → M (Unit {0})
  update_order_status s fired order_id new_status =
      with_timeout fired (exec_tx env true (status_in_tx s order_id new_status))
