-- ===== src/Delivery/Select.antt =====
-- `selectOrdersForDelivery` of webapp/backend/internal/service/robot.go.
use snake_42tokyo_tuning.Base.{
  ℕ, zero, suc, ◌+◌, ◌-◌, Bool, true, false, ◌&&◌, ◌||◌, Option, none, some, List, [], ◌∷◌, ◌++◌,
  ltb, ◌==◌, if◌then◌else◌, length, get_elem?, add_int, lt_int, le_int, Run, ok, no_fuel, ◌>>=◌,
  index, store,
}
use Prim.Native.String.{String}
use snake_42tokyo_tuning.Model.{Order, DeliveryPlan, Error}
use snake_42tokyo_tuning.Delivery.Table.{Context, Table, new_table, fill, find_best, follow}

-- The first loop. It writes over the slice that it reads, always behind the reading index.
unfoldable pub fitting : ℕ → List Order → List Order
fitting robot_capacity [] = []
fitting robot_capacity (o ∷ os) =
    if le_int o.weight robot_capacity
    then o ∷ fitting robot_capacity os
    else fitting robot_capacity os

pub record Split : Type 0 where
  pub zero_weight_orders : List Order
  pub positive_orders : List Order
  pub total_weight : ℕ

-- The loop that sets the orders of weight 0 aside.
unfoldable pub split : List Order → Split → Split
split [] s = s
split (o ∷ os) s = split os (
    if o.weight == 0
    then record s { zero_weight_orders = s.zero_weight_orders ++ o ∷ [] }
    else record s {
      positive_orders = s.positive_orders ++ o ∷ [];
      total_weight = add_int s.total_weight o.weight;
    })

-- `totalWeight += o.Weight` and `totalValue += o.Value`, from a start.
unfoldable pub add_weights : ℕ → List Order → ℕ
add_weights total [] = total
add_weights total (o ∷ os) = add_weights (add_int total o.weight) os

unfoldable pub add_values : ℕ → List Order → ℕ
add_values total [] = total
add_values total (o ∷ os) = add_values (add_int total o.value) os

-- Is `o` the better fallback than `best`?
unfoldable pub better : Order → Order → Bool
better o best = lt_int best.value o.value || (o.value == best.value && lt_int o.weight best.weight)

-- One round of the loop that looks for a fallback; `none` is the -1 of the source.
unfoldable pub consider : (positives : List Order) (i : ℕ) → Order → Option ℕ → Run Error (Option ℕ)
consider positives i o none = ok (some i)
consider positives i o (some k) =
    index (get_elem? positives k) >>= λ best. ok (if better o best then some i else some k)

-- That loop, from index `i`.
unfoldable pub fallback :
    (positives : List Order) (effective_cap i : ℕ) → List Order → Option ℕ → Run Error (Option ℕ)
fallback positives effective_cap i [] found = ok found
fallback positives effective_cap i (o ∷ os) found =
    (if lt_int effective_cap o.weight then ok found else consider positives i o found)
    >>= fallback positives effective_cap (suc i) os

-- `if fallbackIdx != -1 { selected = append(selected, positiveOrders[fallbackIdx]) }`
unfoldable pub append_at : (positives selected : List Order) → Option ℕ → Run Error (List Order)
append_at positives selected none = ok selected
append_at positives selected (some k) =
    index (get_elem? positives k) >>= λ o. ok (selected ++ o ∷ [])

-- The whole `if len(selected) == len(zeroWeightOrders)`.
unfoldable pub with_fallback :
    (zeros positives : List Order) (effective_cap : ℕ) → List Order → Run Error (List Order)
with_fallback zeros positives effective_cap selected =
    if length selected == length zeros
    then fallback positives effective_cap 0 positives none >>= append_at positives selected
    else ok selected

-- The swap loop, from both ends inwards.
unfoldable pub swap_ends : (fuel i j : ℕ) → List Order → Run Error (List Order)
swap_ends zero i j selected = no_fuel
swap_ends (suc fuel) i j selected =
    let rest = index (get_elem? selected i) >>= λ a. index (get_elem? selected j) >>= λ b.
    store selected i b >>= λ once.
    store once j a >>= λ twice. swap_ends fuel (suc i) (j - 1) twice in
    if ltb i j then rest else ok selected

-- The whole `if len(selected) > len(zeroWeightOrders)`.
unfoldable pub restore_order : (zeros selected : List Order) → Run Error (List Order)
restore_order zeros selected =
    if ltb (length zeros) (length selected)
    then swap_ends (suc (length selected)) (length zeros) (length selected - 1) selected
    else ok selected

abbrev pub is_empty {ℓ} : {A : Type ℓ} → List A → Bool
is_empty [] = true
is_empty (_ ∷ _) = false

unfoldable pub plan_of : String → List Order → DeliveryPlan
plan_of robot_id selected = record {
  robot_id = robot_id;
  total_weight = add_weights 0 selected;
  total_value = add_values 0 selected;
  orders = selected;
}

unfoldable pub no_orders : String → DeliveryPlan
no_orders robot_id = record { robot_id = robot_id; total_weight = 0; total_value = 0; orders = [] }

-- The plan of the two early returns that follow the split.
unfoldable pub only_zeros : String → List Order → DeliveryPlan
only_zeros robot_id zeros = record {
  robot_id = robot_id;
  total_weight = 0;
  total_value = add_values 0 zeros;
  orders = zeros;
}

-- From the filled table on: the selection, the fallback, the order and the totals.
unfoldable pub finish_plan :
    (zeros positives : List Order) → String → (effective_cap : ℕ) → Table → Run Error DeliveryPlan
finish_plan zeros positives robot_id effective_cap t = do
  best_cap ← find_best t.best_value effective_cap (effective_cap + 2) 0 0 0
  start ← index (get_elem? t.best_path_idx best_cap)
  found ← follow positives t.paths (length t.paths) start zeros
  selected ← with_fallback zeros positives effective_cap found
  ordered ← restore_order zeros selected
  ok (plan_of robot_id ordered)

unfoldable pub select_positive :
    Context → (zeros positives : List Order) → String → (effective_cap : ℕ) → Run Error DeliveryPlan
select_positive ctx zeros positives robot_id effective_cap = do
  empty ← new_table effective_cap
  filled ← fill ctx effective_cap 0 positives empty
  finish_plan zeros positives robot_id effective_cap filled

unfoldable pub effective : (total_weight robot_capacity : ℕ) → ℕ
effective total_weight robot_capacity =
    if lt_int total_weight robot_capacity then total_weight else robot_capacity

unfoldable pub select_split : Context → Split → String → ℕ → Run Error DeliveryPlan
select_split ctx s robot_id robot_capacity =
    if is_empty s.positive_orders || le_int (effective s.total_weight robot_capacity) 0
    then ok (only_zeros robot_id s.zero_weight_orders)
    else select_positive ctx s.zero_weight_orders s.positive_orders robot_id
        (effective s.total_weight robot_capacity)

unfoldable pub no_split : Split
no_split = record { zero_weight_orders = []; positive_orders = []; total_weight = 0 }

unfoldable pub select_orders_for_delivery :
    Context → List Order → String → ℕ → Run Error DeliveryPlan
select_orders_for_delivery ctx orders robot_id robot_capacity =
    let candidates = fitting robot_capacity orders in
    if le_int robot_capacity 0 || is_empty orders || is_empty candidates
    then ok (no_orders robot_id)
    else select_split ctx (split candidates no_split) robot_id robot_capacity
