-- ===== src/Service/Counter.antt =====
-- The transactions of webapp/backend/internal/service/robot.go and product.go do not turn the counter of
-- the order ids back.
use Prim.Native.String.{String}
use snake_42tokyo_tuning.Base.{
  ℕ, zero, suc, ◌≤◌, none, List, [], ◌∷◌, ◌&&◌, Bool-cases, inl, inr, lt_int, Run, ok, arith,
}
use snake_42tokyo_tuning.Model.{Error, Order, DeliveryPlan, RequestItem}
use snake_42tokyo_tuning.Delivery.Table.{Context}
use snake_42tokyo_tuning.Delivery.Select.{select_orders_for_delivery}
use snake_42tokyo_tuning.Store.Db.{Tables, World, Env, lift}
use snake_42tokyo_tuning.Store.Orders.{
  has_user, is_some, find_product, insert_order, create, update_statuses, count_shipping,
  clone_as_shipping, get_shipping_orders,
}
use snake_42tokyo_tuning.Store.Tx.{with_timeout}
use snake_42tokyo_tuning.Store.Counter.{
  Grows, grows, Grows-bind, Keeps, query-Grows, exec-Grows, exec_tx-Grows,
}
use snake_42tokyo_tuning.Service.Robot.{
  RobotService, order_ids, needs_refill, mark_delivering, plan_in_tx, generate_delivery_plan,
  refill, status_in_tx, update_order_status,
}
use snake_42tokyo_tuning.Service.Product.{
  Quantities, create_many, create_all, create_in_tx, create_orders, collect,
}

module _ (env : Env) (n : ℕ) where
  update_statuses-Grows :
      (ids : List ℕ) (s : String) (w : World)
      → n ≤ w.tables.next_order_id
      → Grows n (update_statuses env ids s w)
  unfolding update_statuses
  update_statuses-Grows [] s w h = grows h
  update_statuses-Grows (id ∷ ids) s w h = exec-Grows env n _ w h λ time t k. k

  clone_as_shipping-Grows :
      (ids : List ℕ) (w : World)
      → n ≤ w.tables.next_order_id
      → Grows n (clone_as_shipping env ids w)
  unfolding clone_as_shipping
  clone_as_shipping-Grows [] w h = grows h
  clone_as_shipping-Grows (id ∷ ids) w h = exec-Grows env n _ w h λ time t k. omega arith

  insert_order-Keeps :
      (user_id product_id time : ℕ) (t : Tables)
      → n ≤ t.next_order_id
      → Keeps env n (insert_order user_id product_id time t)
  unfolding insert_order
  insert_order-Keeps user_id product_id time t h =
      elim (Bool-cases (has_user user_id t.users && is_some (find_product product_id t.products))) [
        | inl keyed ↦ rw keyed (omega arith)
        | inr unkeyed ↦ rw unkeyed tt
      ]

  create-Grows :
      (user_id product_id : ℕ) (w : World)
      → n ≤ w.tables.next_order_id
      → Grows n (create env user_id product_id w)
  unfolding create
  create-Grows user_id product_id w h =
      exec-Grows env n _ w h λ time t k. insert_order-Keeps user_id product_id time t k

  mark_delivering-Grows :
      (plan : DeliveryPlan) (w : World)
      → n ≤ w.tables.next_order_id
      → Grows n (mark_delivering env plan w)
  unfolding mark_delivering
  mark_delivering-Grows plan w h = from plan.orders
    where
      from :
          (os : List Order)
          → Grows n {A = Unit {0}} (elim os [
            | [] ↦ (ok tt, w)
            | o ∷ os ↦ update_statuses env (order_ids (o ∷ os)) "delivering" w
          ])
      from [] = grows h
      from (o ∷ os) = update_statuses-Grows (order_ids (o ∷ os)) "delivering" w h

  lift-Grows {ℓ} :
      {A : Type ℓ} (r : Run Error A) (w : World) → n ≤ w.tables.next_order_id → Grows n (lift r w)
  lift-Grows r w h = grows h

  plan_in_tx-Grows :
      (ctx : Context) (robot_id : String) (cap : ℕ) (w : World)
      → n ≤ w.tables.next_order_id
      → Grows n (plan_in_tx env ctx robot_id cap w)
  unfolding plan_in_tx get_shipping_orders
  plan_in_tx-Grows ctx robot_id cap w h = Grows-bind (query-Grows env n _ w h) λ os w1 h1.
      Grows-bind (lift-Grows (select_orders_for_delivery ctx os robot_id cap) w1 h1)
        λ plan w2 h2. Grows-bind (mark_delivering-Grows plan w2 h2) λ a w3 h3. grows h3

  refill-Grows :
      (s : RobotService) (id : ℕ) (w : World)
      → n ≤ w.tables.next_order_id
      → Grows n (refill env s id w)
  unfolding refill count_shipping
  refill-Grows s id w h = Grows-bind (query-Grows env n _ w h) λ count w1 h1.
      elim (Bool-cases (lt_int count s.supply_target)) [
        | inl fewer ↦ rw fewer (clone_as_shipping-Grows (id ∷ []) w1 h1)
        | inr enough ↦ rw enough (grows h1)
      ]

  status_in_tx-Grows :
      (s : RobotService) (id : ℕ) (new_status : String) (w : World)
      → n ≤ w.tables.next_order_id
      → Grows n (status_in_tx env s id new_status w)
  unfolding status_in_tx
  status_in_tx-Grows s id new_status w h =
      Grows-bind (update_statuses-Grows (id ∷ []) new_status w h) λ a w1 h1.
        elim (Bool-cases (needs_refill s new_status)) [
          | inl refills ↦ rw refills (refill-Grows s id w1 h1)
          | inr other ↦ rw other (grows h1)
        ]

  create_many-Grows :
      (user_id product_id quantity : ℕ) (w : World)
      → n ≤ w.tables.next_order_id
      → Grows n (create_many env user_id product_id quantity w)
  unfolding create_many
  create_many-Grows user_id product_id zero w h = grows h
  create_many-Grows user_id product_id (suc k) w h =
      Grows-bind (create-Grows user_id product_id w h)
        λ id w1 h1. Grows-bind (create_many-Grows user_id product_id k w1 h1) λ ids w2 h2. grows h2

  create_all-Grows :
      (user_id : ℕ) (visits : Quantities) (w : World)
      → n ≤ w.tables.next_order_id
      → Grows n (create_all env user_id visits w)
  unfolding create_all
  create_all-Grows user_id [] w h = grows h
  create_all-Grows user_id ((p, quantity) ∷ visits) w h =
      Grows-bind (create_many-Grows user_id p quantity w h)
        λ ids w1 h1. Grows-bind (create_all-Grows user_id visits w1 h1) λ more w2 h2. grows h2

  create_in_tx-Grows :
      (user_id : ℕ) (visit : Quantities → Quantities) (m : Quantities) (w : World)
      → n ≤ w.tables.next_order_id
      → Grows n (create_in_tx env user_id visit m w)
  unfolding create_in_tx
  create_in_tx-Grows user_id visit [] w h = grows h
  create_in_tx-Grows user_id visit (x ∷ m) w h = create_all-Grows user_id (visit (x ∷ m)) w h

module _ (env : Env) where
  pub generate_delivery_plan-Grows :
      (ctx : Context) (robot_id : String) (cap : ℕ) (w : World)
      → Grows w.tables.next_order_id (generate_delivery_plan env ctx none robot_id cap w)
  unfolding generate_delivery_plan with_timeout
  generate_delivery_plan-Grows ctx robot_id cap w =
      exec_tx-Grows env w.tables.next_order_id _ w (omega arith)
        λ w1 h. plan_in_tx-Grows env w.tables.next_order_id ctx robot_id cap w1 h

  pub update_order_status-Grows :
      (s : RobotService) (id : ℕ) (new_status : String) (w : World)
      → Grows w.tables.next_order_id (update_order_status env s none id new_status w)
  unfolding update_order_status with_timeout
  update_order_status-Grows s id new_status w =
      exec_tx-Grows env w.tables.next_order_id _ w (omega arith)
        λ w1 h. status_in_tx-Grows env w.tables.next_order_id s id new_status w1 h

  pub create_orders-Grows :
      (user_id : ℕ) (visit : Quantities → Quantities) (items : List RequestItem) (w : World)
      → Grows w.tables.next_order_id (create_orders env user_id visit items w)
  unfolding create_orders
  create_orders-Grows user_id visit items w =
      exec_tx-Grows env w.tables.next_order_id _ w (omega arith)
        λ w1 h. create_in_tx-Grows env w.tables.next_order_id user_id visit (collect items []) w1 h
