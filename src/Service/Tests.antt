-- ===== src/Service/Tests.antt =====
-- The backend on a small shop.
mod Sessions
use text.Mathlib.Text.{◌==◌ as str_eq}
use mathlib.Core.Option.{some-injective}
use mathlib.Core.List.{Memᴰ}
use mathlib.Core.List.Permᴰ as Permᴰ
use snake_42tokyo_tuning.Base.{
  ◌+◌, ℕ, ◌≡◌, refl, sym, ap, subst, true, none, some, List, [], ◌∷◌, arith,
}
use snake_42tokyo_tuning.Base.Dict.{lookup, insert, delete}
use snake_42tokyo_tuning.Model.{DeliveryPlan, User, Product, RequestItem}
use snake_42tokyo_tuning.Cache.{
  Cache, new_cache, get, set, is_expired, forget, is_full, make_room, evict_expired, drop_expired,
  evict_oldest, find_oldest,
}
use snake_42tokyo_tuning.Delivery.Table.{Context}
use snake_42tokyo_tuning.Delivery.Row.{Polled}
use snake_42tokyo_tuning.Delivery.Spec.{weights, values}
use snake_42tokyo_tuning.Delivery.Divided.{IsOptimal}
use snake_42tokyo_tuning.Delivery.Optimal.{needed}
use snake_42tokyo_tuning.Delivery.Program.{planner}
use snake_42tokyo_tuning.Store.Db.{OrderRow, Tables, World, Env, now, ping, query, exec, settle}
use snake_42tokyo_tuning.Store.Orders.{
  find_product, has_user, count_shipping_rows, shipping_order, shipping_orders, get_shipping_orders,
  update_statuses, set_statuses, contains, create, insert_order, shipping,
}
use snake_42tokyo_tuning.Store.Rows.{IsConsistent}
use snake_42tokyo_tuning.Store.Accounts.{
  new_session_cache, find_by_user_name, find_name, create_session, new_random, insert_session,
  has_session, find_user_by_session_id, cached_session, look_up_session, remember_session,
  find_session, find_by_user_id, find_id,
}
use snake_42tokyo_tuning.Store.Backing.{IsBacked, OwnerIn, NamedIn}
use snake_42tokyo_tuning.Store.Leaves.{Leaves}
use snake_42tokyo_tuning.Store.Counter.{SameRows, RolledBack}
use snake_42tokyo_tuning.Base.{◌<◌, ◌≤◌, ◌≢◌, max_ints, ok}
use snake_42tokyo_tuning.Store.Tx.{
  Restored, exec_tx, close_tx, commit, rollback, with_timeout, exec_tx_atomic,
}
use snake_42tokyo_tuning.Service.Robot.{
  RobotService, order_ids, mark_delivering, plan_in_tx, generate_delivery_plan, update_order_status,
}
use snake_42tokyo_tuning.Service.Plan.{candidates, departed}
use snake_42tokyo_tuning.Service.Refill.{NoError, IsUpdated}
use snake_42tokyo_tuning.Service.Timed.{
  Late, Departed, generate_delivery_plan-Timed, update_order_status-Timed,
}
use snake_42tokyo_tuning.Base.{◌⊎◌, err}
use snake_42tokyo_tuning.Model.{cancelled}
use snake_42tokyo_tuning.Service.Turns.{Outside, generate_delivery_plan-Outside}
use snake_42tokyo_tuning.Service.Auth.{
  day, login, log_in, start_session, map_error, translate, get_user, load_user, cached_user,
  remember_user, verify_session, session_user,
}
use snake_42tokyo_tuning.Service.Login.{Refusal, IsLoggedIn, login-IsLoggedIn}
use snake_42tokyo_tuning.Service.Verify.{Unverified, verify_session-OwnerIn}
use snake_42tokyo_tuning.Service.Session.{verify_session-login}
use snake_42tokyo_tuning.Service.Product.{create_orders}
use snake_42tokyo_tuning.Service.Wanted.{wanted}
use snake_42tokyo_tuning.Service.Placement.{NoKey, IsPlaced, create_orders-IsPlaced}

-- Nothing fails; the hash of a password is the password.
abbrev pub calm : Env
calm = record {
  fault = λ n. none;
  clock = λ n. n;
  new_uuid = λ n. some "u-1";
  compare_hash = str_eq;
  range_sessions = λ m. m;
  range_users = λ m. m;
  arrange = λ os. os;
  same = str_eq;
  datetime = λ time. time;
}

abbrev pub alice : User
alice = record { user_id = 1; password_hash = "secret"; user_name = "alice" }

abbrev apple : Product
apple = record {
  product_id = 5;
  name = "apple";
  value = 10;
  weight = 3;
  image = "";
  description = "";
}

abbrev first_order : OrderRow
first_order = record {
  order_id = 0;
  user_id = 1;
  product_id = 5;
  shipped_status = shipping;
  created_at = 0;
  arrived_at = none;
}

abbrev pub shop : Tables
shop = record {
  users = alice ∷ [];
  products = apple ∷ [];
  orders = first_order ∷ [];
  next_order_id = 1;
  user_sessions = record { session_uuid = "s"; user_id = 1; expires_at = 100 } ∷ [];
}

abbrev pub opened : World
opened = record {
  tables = shop;
  session_cache = new_session_cache;
  user_cache = some (new_cache 5 2);
  asked = 0;
}

abbrev background : Context
background = record { at_order = λ i. none; at_step = λ n. none }

abbrev robots : RobotService
robots = record { clone_enabled = true; supply_target = 500 }

shop-IsConsistent : IsConsistent shop
unfolding has_user find_product
shop-IsConsistent = record { numbered = (omega arith, omega arith); keyed = (refl, refl, tt) }

pub opened-IsBacked : IsBacked calm shop opened
unfolding new_session_cache new_cache lookup
opened-IsBacked = record {
  same_tables = refl;
  sessions = λ k e found. absurd (cc);
  users = λ c on k e found.
      let same : c.entries ≡ [] =
        sym (ap (λ (d : Cache User). d.entries) (some-injective _ _ on)) in
      absurd (cc (subst (λ m. lookup k m ≡ some e) same found));
}

exec_tx_atomic_example : Restored shop (exec_tx calm true (create calm 9 5) opened).1.tables
unfolding exec_tx ping close_tx create exec settle insert_order has_user
exec_tx_atomic_example = exec_tx_atomic calm (create calm 9 5) opened (λ a e. absurd (cc))

-- The plan is committed, and the timeout fires all the same.
generate_delivery_plan-Timed_example :
    ((needed (candidates calm shop) 9 < max_ints)
      × Leaves
          (λ e w'.
            RolledBack calm (Polled background) shop e w'
            ⊎ Late
                (some cancelled)
                (λ w'. SameRows shop w'.tables)
                (Departed calm (some cancelled) 9 shop)
                e
                w')
          (λ plan w'. IsOptimal (candidates calm shop) 9 plan × (w'.tables ≡ departed shop plan))
          (generate_delivery_plan calm background (some cancelled) "robot" 9 opened))
    ⊎ ((max_ints ≤ needed (candidates calm shop) 9)
        × ((plan : DeliveryPlan)
            → (generate_delivery_plan calm background (some cancelled) "robot" 9 opened).0
              ≢ ok plan)
        × SameRows shop
            (generate_delivery_plan calm background (some cancelled) "robot" 9 opened).1.tables)
unfolding weights values shipping_orders shipping_order find_product
generate_delivery_plan-Timed_example =
    generate_delivery_plan-Timed calm (some cancelled) background "robot" 9 opened (omega arith)
      (omega arith) (omega arith) (omega arith)

update_order_status-Timed_example :
    Leaves
      (λ e w'.
        RolledBack calm NoError shop e w'
        ⊎ Late none
            (λ w'. SameRows shop w'.tables)
            (λ w'. IsUpdated calm robots 0 "completed" shop w'.tables)
            e
            w')
      (λ a w'. IsUpdated calm robots 0 "completed" shop w'.tables)
      (update_order_status calm robots none 0 "completed" opened)
unfolding count_shipping_rows
update_order_status-Timed_example =
    update_order_status-Timed calm none robots 0 "completed" opened refl shop-IsConsistent
      (omega arith) (omega arith)

-- Two items of one product: the later one counts.
abbrev items : List RequestItem
items = record { product_id = 5; quantity = 1 } ∷ record { product_id = 5; quantity = 2 } ∷ []

create_orders-IsPlaced_example :
    Leaves
      (RolledBack calm NoKey shop)
      (λ ids w'. IsPlaced 1 shop w'.tables ids (λ p. wanted p items))
      (create_orders calm 1 (λ m. m) items opened)
create_orders-IsPlaced_example =
    create_orders-IsPlaced calm 1 (λ m. m) items opened Permᴰ.refl shop-IsConsistent

-- The first plan takes the only order.
abbrev first_plan : DeliveryPlan
first_plan = record {
  robot_id = "r1";
  total_weight = 3;
  total_value = 10;
  orders =
      record {
        order_id = 0;
        user_id = 0;
        product_id = 0;
        product_name = "";
        shipped_status = "";
        weight = 3;
        value = 10;
        created_at = 0;
        arrived_at = none;
      }
      ∷ [];
}

abbrev second_plan : DeliveryPlan
second_plan = record { robot_id = "r2"; total_weight = 0; total_value = 0; orders = [] }

-- The state after `n` more questions, the order having left.
abbrev after_first : ℕ → World
after_first n = record opened {
  tables = record shop { orders = record first_order { shipped_status = "delivering" } ∷ [] };
  asked = n;
}

planning : Unit {0}
unfolding planner weights values shipping_orders shipping_order find_product generate_delivery_plan
    with_timeout exec_tx ping close_tx commit rollback plan_in_tx get_shipping_orders query
    mark_delivering update_statuses exec settle set_statuses contains order_ids
planning = tt

-- A timeout that fires while the plan is committed: the order has left, and no robot has the plan.
test_late :
    generate_delivery_plan calm background (some cancelled) "r1" 9 opened
    ≡ (err cancelled, after_first 4)
unfolding planning
test_late = refl

generate_delivery_plan-Outside_example : Outside (order_ids first_plan.orders) second_plan.orders
unfolding planning
generate_delivery_plan-Outside_example =
    generate_delivery_plan-Outside calm background background none none "r1" "r2" 9 9 opened
      (after_first 4) (after_first 7) first_plan second_plan Permᴰ.refl refl (omega arith)
      (omega arith) (omega arith) (omega arith) (omega arith) (omega arith) (omega arith)
      (omega arith) refl refl
