-- ===== src/Model.antt =====
-- webapp/backend/internal/model/model.go: the rows and the request bodies. `int` and `int64` are the
-- bit patterns of Base/Word.antt, a `time.Time` is a number of nanoseconds, and the `json` and `db`
-- tags have no counterpart.
use Prim.Native.String.{String}
use snake_42tokyo_tuning.Base.{ℕ, Option, List}

pub record User : Type 0 where
  pub user_id : ℕ
  pub password_hash : String
  pub user_name : String

pub record Product : Type 0 where
  pub product_id : ℕ
  pub name : String
  pub value : ℕ
  pub weight : ℕ
  pub image : String
  pub description : String

-- `arrived_at` is an `sql.NullTime`.
pub record Order : Type 0 where
  pub order_id : ℕ
  pub user_id : ℕ
  pub product_id : ℕ
  pub product_name : String
  pub shipped_status : String
  pub weight : ℕ
  pub value : ℕ
  pub created_at : ℕ
  pub arrived_at : Option ℕ

pub record DeliveryPlan : Type 0 where
  pub robot_id : String
  pub total_weight : ℕ
  pub total_value : ℕ
  pub orders : List Order

pub record LoginRequest : Type 0 where
  pub user_name : String
  pub password : String

pub record RequestItem : Type 0 where
  pub product_id : ℕ
  pub quantity : ℕ

pub record CreateOrderRequest : Type 0 where
  pub items : List RequestItem

pub record UpdateOrderStatusRequest : Type 0 where
  pub order_id : ℕ
  pub new_status : String

pub record LoginResponse : Type 0 where
  pub user_id : ℕ
  pub user_name : String

pub record ListRequest : Type 0 where
  pub search : String
  pub type : String
  pub page : ℕ
  pub page_size : ℕ
  pub sort_field : String
  pub sort_order : String
  pub offset : ℕ

-- The error values that the handlers tell apart: `sql.ErrNoRows`, the three of service/auth.go, the
-- context's, and any other that a statement or a library call returns, by a number.
pub data Error : Type 0 where
  no_rows : Error
  user_not_found : Error
  invalid_password : Error
  internal_server : Error
  cancelled : Error
  other : ℕ → Error
