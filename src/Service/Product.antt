-- ===== src/Service/Product.antt =====
-- `ProductService.CreateOrders` of webapp/backend/internal/service/product.go.
use snake_42tokyo_tuning.Base.{ℕ, zero, suc, true, List, [], ◌∷◌, ◌++◌, ◌==◌, lt_int, if◌then◌else◌}
use snake_42tokyo_tuning.Model.{RequestItem}
use snake_42tokyo_tuning.Store.Db.{Env, M, ◌>>=◌, return}
use snake_42tokyo_tuning.Store.Orders.{create}
use snake_42tokyo_tuning.Store.Tx.{exec_tx}

-- `map[int]int`: quantities by product.
abbrev pub Quantities : Type 0
Quantities = List (ℕ × ℕ)

-- `itemsToProcess[product_id] = quantity`
unfoldable pub put : (product_id quantity : ℕ) → Quantities → Quantities
put p q [] = (p, q) ∷ []
put p q ((j, r) ∷ m) = let rest = put p q m in if j == p then (p, q) ∷ m else (j, r) ∷ rest

-- The loop over the items: a later item of a product replaces an earlier one.
unfoldable pub collect : List RequestItem → Quantities → Quantities
collect [] m = m
collect (item ∷ items) m =
    collect items (if lt_int 0 item.quantity then put item.product_id item.quantity m else m)

module _ (env : Env) (user_id : ℕ) where
  unfoldable pub create_many : (product_id quantity : ℕ) → M (List ℕ)
  create_many product_id zero = return []
  create_many product_id (suc n) = do
    id ← create env user_id product_id
    ids ← create_many product_id n
    return (id ∷ ids)

  -- The loop over the map, in the order in which `range` visits it.
  unfoldable pub create_all : Quantities → M (List ℕ)
  create_all [] = return []
  create_all ((product_id, quantity) ∷ visits) = do
    ids ← create_many product_id quantity
    more ← create_all visits
    return (ids ++ more)

  unfoldable pub create_in_tx : (visit : Quantities → Quantities) → Quantities → M (List ℕ)
  create_in_tx visit [] = return []
  create_in_tx visit (x ∷ m) = create_all (visit (x ∷ m))

  unfoldable pub create_orders : (visit : Quantities → Quantities) → List RequestItem → M (List ℕ)
  create_orders visit items = exec_tx env true (create_in_tx visit (collect items []))
