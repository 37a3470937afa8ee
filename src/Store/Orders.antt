-- ===== src/Store/Orders.antt =====
-- `OrderRepository` of webapp/backend/internal/repository/order.go: the statements on `orders`.
use Prim.Native.String.{String}
use snake_42tokyo_tuning.Base.{
  ℕ, suc, ◌+◌, Bool, true, false, ◌&&◌, ◌||◌, Option, none, some, List, [], ◌∷◌, ◌++◌, ◌==◌,
  if◌then◌else◌, length, Run, ok, err,
}
use snake_42tokyo_tuning.Model.{User, Product, Order, Error, other}
use snake_42tokyo_tuning.Store.Db.{OrderRow, Tables, Env, M, return, query, exec}

-- `x IN (xs)`
unfoldable pub contains : ℕ → List ℕ → Bool
contains x [] = false
contains x (y ∷ ys) = x == y || contains x ys

unfoldable pub find_product : ℕ → List Product → Option Product
find_product id [] = none
find_product id (p ∷ ps) = if p.product_id == id then some p else find_product id ps

unfoldable pub has_user : ℕ → List User → Bool
has_user id [] = false
has_user id (u ∷ us) = u.user_id == id || has_user id us

abbrev pub shipping : String
shipping = "shipping"

-- A foreign key of webapp/mysql/init/init.sql does not hold.
abbrev pub foreign_key_error : Error
foreign_key_error = other 1452

abbrev pub is_some {ℓ} : {A : Type ℓ} → Option A → Bool
is_some none = false
is_some (some _) = true

-- `INSERT INTO orders … VALUES (?, ?, 'shipping', NOW())`: one row, under the next number.
unfoldable pub insert_order : (user_id product_id now : ℕ) → Tables → Run Error (ℕ × Tables)
insert_order user_id product_id now t =
    if has_user user_id t.users && is_some (find_product product_id t.products)
    then ok (
      t.next_order_id,
      record t {
        orders =
            t.orders
            ++ record {
              order_id = t.next_order_id;
              user_id = user_id;
              product_id = product_id;
              shipped_status = shipping;
              created_at = now;
              arrived_at = none;
            }
              ∷ [];
        next_order_id = t.next_order_id + 1;
      },
    )
    else err foreign_key_error

-- `UPDATE orders SET shipped_status = ? WHERE order_id IN (?)`
unfoldable pub set_statuses : List ℕ → String → List OrderRow → List OrderRow
set_statuses ids new_status [] = []
set_statuses ids new_status (r ∷ rs) =
    (if contains r.order_id ids then record r { shipped_status = new_status } else r)
    ∷ set_statuses ids new_status rs

-- `same` is the collation. `SELECT COUNT(*) FROM orders WHERE shipped_status = 'shipping'`
unfoldable pub count_shipping_rows : (String → String → Bool) → List OrderRow → ℕ
count_shipping_rows same [] = 0
count_shipping_rows same (r ∷ rs) =
    (if same r.shipped_status shipping then 1 else 0) + count_shipping_rows same rs

-- `INSERT INTO orders … SELECT user_id, product_id, 'shipping', NOW() FROM orders WHERE order_id IN
-- (?)`: a new row for each row `r` that is found, numbered from `next`.
unfoldable pub clone_rows : List ℕ → (now next : ℕ) → List OrderRow → List OrderRow
clone_rows ids now next [] = []
clone_rows ids now next (r ∷ rs) =
    let rest = clone_rows ids now next rs in
    let more = clone_rows ids now (suc next) rs in
    if contains r.order_id ids
    then record {
      order_id = next;
      user_id = r.user_id;
      product_id = r.product_id;
      shipped_status = shipping;
      created_at = now;
      arrived_at = none;
    }
      ∷ more
    else rest

-- The columns `order_id`, `weight` and `value` of the join of `orders` with `products`, for a row in
-- status 'shipping'; the other fields of the `Order` stay at their zero values.
unfoldable pub shipping_order : (String → String → Bool) → List Product → OrderRow → List Order
shipping_order same products r =
    if same r.shipped_status shipping
    then elim (find_product r.product_id products) [
      | none ↦ []
      | some p ↦
          record {
            order_id = r.order_id;
            user_id = 0;
            product_id = 0;
            product_name = "";
            shipped_status = "";
            weight = p.weight;
            value = p.value;
            created_at = 0;
            arrived_at = none;
          }
          ∷ []
    ]
    else []

unfoldable pub shipping_orders :
    (String → String → Bool) → List Product → List OrderRow → List Order
shipping_orders same products [] = []
shipping_orders same products (r ∷ rs) =
    shipping_order same products r ++ shipping_orders same products rs

module _ (env : Env) where
  -- `Create`. The id is returned as a number; the source returns its decimal text.
  unfoldable pub create : (user_id product_id : ℕ) → M ℕ
  create user_id product_id = exec env (insert_order user_id product_id)

  -- `UpdateStatuses`: without ids no statement is sent.
  unfoldable pub update_statuses : List ℕ → String → M (Unit {0})
  update_statuses [] new_status = return tt
  update_statuses (id ∷ ids) new_status =
      exec env (λ now t. ok (tt, record t { orders = set_statuses (id ∷ ids) new_status t.orders }))

  unfoldable pub count_shipping : M ℕ
  count_shipping = query env (λ t. ok (count_shipping_rows env.same t.orders))

  unfoldable pub clone_as_shipping : List ℕ → M (Unit {0})
  clone_as_shipping [] = return tt
  clone_as_shipping (id ∷ ids) = exec env (λ now t.
      let new = clone_rows (id ∷ ids) now t.next_order_id t.orders in
      ok (tt, record t { orders = t.orders ++ new; next_order_id = t.next_order_id + length new }))

  unfoldable pub get_shipping_orders : M (List Order)
  get_shipping_orders =
      query env (λ t. ok (env.arrange (shipping_orders env.same t.products t.orders)))
