-- ===== src/Delivery/Program.antt =====
-- `selectOrdersForDelivery` of webapp/backend/internal/service/robot.go, for runs on concrete inputs.
use snake_42tokyo_tuning.Base.{make_ints, add_int, sub_int, lt_int, le_int, store}
use snake_42tokyo_tuning.Delivery.Table.{
  new_table, improve, relax_cell, count_step, relax_row, fill_round, fill, find_best, follow,
}
use snake_42tokyo_tuning.Delivery.Select.{
  fitting, split, add_weights, add_values, better, consider, fallback, append_at, with_fallback,
  swap_ends, restore_order, plan_of, no_orders, only_zeros, finish_plan, select_positive, effective,
  select_split, no_split, select_orders_for_delivery,
}

-- Unfolds the whole planner.
unfoldable pub planner : Unit {0}
unfolding make_ints add_int sub_int lt_int le_int store new_table improve relax_cell count_step
    relax_row fill_round fill find_best follow fitting split add_weights add_values better consider
    fallback append_at with_fallback swap_ends restore_order plan_of no_orders only_zeros
    finish_plan select_positive effective select_split no_split select_orders_for_delivery
planner = tt
