-- ===== src/Delivery/Tests.antt =====
-- The cases of webapp/backend/internal/service/robot_test.go.
use snake_42tokyo_tuning.Base.{
  ℕ, ◌≡◌, refl, none, some, List, [], ◌∷◌, Run, ok, err, Ends, reverse, arith, ◌<◌, ◌≤◌, ◌⊎◌, panic,
  max_ints,
}
use snake_42tokyo_tuning.Model.{Order, DeliveryPlan, Error, cancelled}
use snake_42tokyo_tuning.Delivery.Table.{Context, fill}
use snake_42tokyo_tuning.Delivery.Select.{swap_ends, select_orders_for_delivery}
use snake_42tokyo_tuning.Delivery.Program.{planner}
use snake_42tokyo_tuning.Delivery.Spec.{weights, values}
use snake_42tokyo_tuning.Delivery.Row.{Polled}
use snake_42tokyo_tuning.Delivery.Ended.{EndsFrom, follow-fill_terminates}
use snake_42tokyo_tuning.Delivery.Fill.{IsFilled, blank, fill-new_table}
use snake_42tokyo_tuning.Delivery.Loops.{swap_ends-reverse}
use snake_42tokyo_tuning.Delivery.Divided.{IsOptimal}
use snake_42tokyo_tuning.Delivery.Optimal.{needed, select_orders_for_delivery-IsOptimal}

abbrev order : ℕ → ℕ → ℕ → Order
order id w v = record {
  order_id = id;
  user_id = 0;
  product_id = 0;
  product_name = "";
  shipped_status = "";
  weight = w;
  value = v;
  created_at = 0;
  arrived_at = none;
}

abbrev background : Context
background = record { at_order = λ i. none; at_step = λ n. none }

abbrev cancelled_context : Context
cancelled_context = record { at_order = λ i. some cancelled; at_step = λ n. some cancelled }

abbrev plan : ℕ → ℕ → List Order → Run Error DeliveryPlan
plan w v os = ok (record { robot_id = "robot"; total_weight = w; total_value = v; orders = os })

basic :
    select_orders_for_delivery background
      (order 1 5 10 ∷ order 2 4 40 ∷ order 3 6 30 ∷ [])
      "robot"
      9
    ≡ plan 9 50 (order 1 5 10 ∷ order 2 4 40 ∷ [])
unfolding planner
basic = refl

no_orders_given : select_orders_for_delivery background [] "robot" 10 ≡ plan 0 0 []
unfolding planner
no_orders_given = refl

zero_weight :
    select_orders_for_delivery background (order 1 0 5 ∷ order 2 2 3 ∷ order 3 3 8 ∷ []) "robot" 2
    ≡ plan 2 8 (order 1 0 5 ∷ order 2 2 3 ∷ [])
unfolding planner
zero_weight = refl

zero_value :
    select_orders_for_delivery background (order 1 3 0 ∷ order 2 4 0 ∷ []) "robot" 5
    ≡ plan 3 0 (order 1 3 0 ∷ [])
unfolding planner
zero_value = refl

context_cancelled :
    select_orders_for_delivery cancelled_context
      (order 1 1 1 ∷ order 2 1 1 ∷ order 3 1 1 ∷ order 4 1 1 ∷ order 5 1 1 ∷ [])
      "robot"
      3
    ≡ err cancelled
unfolding planner
context_cancelled = refl

-- Two orders that fit, and one that does not.
abbrev sample : List Order
sample = order 1 5 10 ∷ order 2 4 40 ∷ order 3 60 30 ∷ []

select_orders_for_delivery-IsOptimal_example :
    ((needed sample 9 < max_ints)
      × Ends
          (Polled background)
          (IsOptimal sample 9)
          (select_orders_for_delivery background sample "robot" 9))
    ⊎ ((max_ints ≤ needed sample 9)
        × (select_orders_for_delivery background sample "robot" 9 ≡ panic))
unfolding weights values
select_orders_for_delivery-IsOptimal_example =
    select_orders_for_delivery-IsOptimal background sample "robot" 9 (omega arith) (omega arith)
      (omega arith) (omega arith)

fill-new_table_example :
    Ends
      (Polled background)
      (IsFilled background
        (order 1 5 10 ∷ order 2 4 40 ∷ [])
        9
        (omega arith)
        (reverse (order 1 5 10 ∷ order 2 4 40 ∷ [])))
      (fill background 9 0 (order 1 5 10 ∷ order 2 4 40 ∷ []) (blank 9))
unfolding values planner
fill-new_table_example =
    fill-new_table background (order 1 5 10 ∷ order 2 4 40 ∷ []) 9 (omega arith) (blank 9) refl
      (omega arith, omega arith, (omega arith, omega arith, tt)) (omega arith)

-- One order as heavy as the largest number: its table is too long for `make`.
too_long :
    select_orders_for_delivery background
      (order 1 9223372036854775807 1 ∷ [])
      "robot"
      9223372036854775807
    ≡ panic
unfolding planner
too_long = refl

swap_ends-reverse_example :
    swap_ends 3 1 2 (order 1 5 10 ∷ order 2 4 40 ∷ order 3 6 30 ∷ [])
    ≡ ok (order 1 5 10 ∷ order 3 6 30 ∷ order 2 4 40 ∷ [])
swap_ends-reverse_example =
    swap_ends-reverse 3 (order 1 5 10 ∷ []) (order 2 4 40 ∷ order 3 6 30 ∷ []) [] 2 (omega arith)
      refl

follow-fill_terminates_example :
    Ends
      (Polled background)
      (EndsFrom (order 1 5 10 ∷ order 2 4 40 ∷ []) 9 (order 3 0 5 ∷ []))
      (fill background 9 0 (order 1 5 10 ∷ order 2 4 40 ∷ []) (blank 9))
unfolding values planner
follow-fill_terminates_example =
    follow-fill_terminates background (order 1 5 10 ∷ order 2 4 40 ∷ []) 9 (order 3 0 5 ∷ [])
      (blank 9) refl (omega arith) (omega arith, omega arith, (omega arith, omega arith, tt))
      (omega arith)
