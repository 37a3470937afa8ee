-- ===== src/Service/Lists.antt =====
-- The methods that only fetch a list: `FetchOrders` of webapp/backend/internal/service/order.go and
-- `FetchProducts` of webapp/backend/internal/service/product.go.
use snake_42tokyo_tuning.Base.{ℕ, Bool, Option, List}
use snake_42tokyo_tuning.Model.{Order, Product, Error, ListRequest}
use snake_42tokyo_tuning.Store.Db.{Env, M}
use snake_42tokyo_tuning.Store.Listing.{Server, list_orders, list_products}
use snake_42tokyo_tuning.Store.Tx.{with_timeout}

module _ (server : Server) (env : Env) (first : Bool) where
  -- `FetchOrders`
  unfoldable pub fetch_orders :
      (fired : Option Error) → (user_id : ℕ) → ListRequest → M (List Order × ℕ)
  fetch_orders fired user_id req = with_timeout fired (list_orders server env first user_id req)

  -- `FetchProducts`, which has no timeout.
  unfoldable pub fetch_products : (user_id : ℕ) → ListRequest → M (List Product × ℕ)
  fetch_products user_id req = list_products server env first user_id req
