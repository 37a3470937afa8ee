-- ===== src/Store/Listing.antt =====
-- `ListOrders` and `ListProducts` of webapp/backend/internal/repository/order.go and product.go: the
-- conditions and the order that the source writes into its statements, and what the server answers.
use Prim.Native.String.{String, ◌++◌ as str_append}
use text.Mathlib.Text.{◌==◌ as str_eq}
use snake_42tokyo_tuning.Base.{
  ℕ, zero, suc, Bool, true, false, ◌&&◌, ◌||◌, none, some, List, [], ◌∷◌, ◌==◌, if◌then◌else◌,
  length, take, int_min, ltb, Run, ok, err, panic, no_fuel,
}
use snake_42tokyo_tuning.Model.{Product, Order, Error, other, ListRequest}
use snake_42tokyo_tuning.Store.Db.{OrderRow, Tables, Env, M, ◌>>=◌, return, query}
use snake_42tokyo_tuning.Store.Orders.{find_product}

-- A condition of a WHERE clause with the argument of its placeholder.
pub data Condition : Type 0 where
  user_is : ℕ → Condition
  name_like : String → Condition
  name_or_description_like : String → Condition

-- A term of an ORDER BY clause: a column and a direction, as the statement's text has them.
pub record Term : Type 0 where
  pub column : String
  pub direction : String

-- What the server brings: `LIKE`, and the ordering of rows by terms.
pub record Server : Type 0 where
  pub like : String → String → Bool
  pub sort_orders : List Term → List Order → List Order
  pub sort_products : List Term → List Product → List Product

-- The pattern that `ListOrders` searches for.
unfoldable pub order_pattern : ListRequest → String
order_pattern req =
    if str_eq req.type "prefix"
    then str_append req.search "%"
    else str_append "%" (str_append req.search "%")

unfoldable pub order_conditions : ℕ → ListRequest → List Condition
order_conditions user_id req =
    user_is user_id ∷ (if str_eq req.search "" then [] else name_like (order_pattern req) ∷ [])

unfoldable pub order_terms : ListRequest → List Term
order_terms req =
    record { column = req.sort_field; direction = req.sort_order }
    ∷ (if str_eq req.sort_field "o.order_id"
        then []
        else record { column = "o.order_id"; direction = "ASC" } ∷ [])

unfoldable pub product_conditions : ListRequest → List Condition
product_conditions req =
    if str_eq req.search ""
    then []
    else name_or_description_like (str_append "%" (str_append req.search "%")) ∷ []

unfoldable pub product_terms : ListRequest → List Term
product_terms req =
    record { column = req.sort_field; direction = req.sort_order }
    ∷ record { column = "product_id"; direction = "ASC" }
    ∷ []

unfoldable pub skip {ℓ} : {A : Type ℓ} → ℕ → List A → List A
skip n [] = []
skip zero (x ∷ xs) = x ∷ xs
skip (suc n) (x ∷ xs) = skip n xs

-- A LIMIT or an OFFSET that is negative.
abbrev pub syntax_error : Error
syntax_error = other 1064

-- `LIMIT ? OFFSET ?`
unfoldable pub page_of {ℓ} : {A : Type ℓ} → (limit offset : ℕ) → List A → Run Error (List A)
page_of limit offset rows =
    if ltb limit int_min && ltb offset int_min
    then ok (take limit (skip offset rows))
    else err syntax_error

-- The row of an order with its product's.
abbrev pub joined_row : OrderRow → Product → Order
joined_row r p = record {
  order_id = r.order_id;
  user_id = r.user_id;
  product_id = r.product_id;
  product_name = p.name;
  shipped_status = r.shipped_status;
  weight = p.weight;
  value = p.value;
  created_at = r.created_at;
  arrived_at = r.arrived_at;
}

-- `orders o JOIN products p ON o.product_id = p.product_id`
unfoldable pub join_products : List Product → List OrderRow → List Order
join_products products [] = []
join_products products (r ∷ rs) =
    let rest = join_products products rs in
    elim (find_product r.product_id products) [ none ↦ rest | some p ↦ joined_row r p ∷ rest ]

-- The two statements run in goroutines of their own. `first` tells whose error comes first into the
-- channel, if both fail; the other one runs to its end anyway.
unfoldable pub first_error {ℓ κ} :
    {A : Type ℓ} {B : Type κ} → Bool → Run Error A → Run Error B → Run Error (A × B)
first_error first (ok a) (ok b) = ok (a, b)
first_error first (ok a) (err e) = err e
first_error first (err e) (ok b) = err e
first_error first (err e) (err f) = if first then err e else err f
first_error first (ok a) panic = panic
first_error first (ok a) no_fuel = no_fuel
first_error first (err e) panic = panic
first_error first (err e) no_fuel = no_fuel
first_error first panic s = panic
first_error first no_fuel s = no_fuel

unfoldable pub both {ℓ κ} : {A : Type ℓ} {B : Type κ} → Bool → M A → M B → M (A × B)
both first m n w = (first_error first (m w).0 (n (m w).1).0, (n (m w).1).1)

-- The end of both functions: no rows if the count is 0.
unfoldable pub listed {ℓ} : {A : Type ℓ} → ℕ × List A → List A × ℕ
listed (total, rows) = if total == 0 then ([], 0) else (rows, total)

module _ (server : Server) where
  unfoldable pub order_holds : Condition → Order → Bool
  order_holds (user_is id) o = o.user_id == id
  order_holds (name_like pattern) o = server.like o.product_name pattern
  order_holds (name_or_description_like pattern) o = false

  unfoldable pub product_holds : Condition → Product → Bool
  product_holds (user_is id) p = false
  product_holds (name_like pattern) p = server.like p.name pattern
  product_holds (name_or_description_like pattern) p =
      server.like p.name pattern || server.like p.description pattern

  module _ {ℓ} {A : Type ℓ} (holds : Condition → A → Bool) where
    unfoldable pub all_hold : List Condition → A → Bool
    all_hold [] a = true
    all_hold (c ∷ cs) a = holds c a && all_hold cs a

    -- `WHERE … AND …`
    unfoldable pub select_where : List Condition → List A → List A
    select_where cs [] = []
    select_where cs (a ∷ rows) =
        let rest = select_where cs rows in if all_hold cs a then a ∷ rest else rest

  unfoldable pub orders_of : ℕ → ListRequest → Tables → List Order
  orders_of user_id req t =
      select_where order_holds (order_conditions user_id req) (join_products t.products t.orders)

  unfoldable pub products_of : ListRequest → Tables → List Product
  products_of req t = select_where product_holds (product_conditions req) t.products

  module _ (env : Env) (first : Bool) where
    -- `ListOrders`
    unfoldable pub list_orders : ℕ → ListRequest → M (List Order × ℕ)
    list_orders user_id req = do
      answers ← both first (query env (λ t. ok (length (orders_of user_id req t)))) (
          query env (λ t.
            page_of req.page_size req.offset
              (server.sort_orders (order_terms req) (orders_of user_id req t))))
      return (listed answers)

    -- `ListProducts`; the user is not used.
    unfoldable pub list_products : ℕ → ListRequest → M (List Product × ℕ)
    list_products user_id req = do
      answers ← both first (query env (λ t. ok (length (products_of req t)))) (
          query env (λ t.
            page_of req.page_size req.offset
              (server.sort_products (product_terms req) (products_of req t))))
      return (listed answers)
