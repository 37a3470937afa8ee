-- ===== src/Handler/Replies.antt =====
-- The handlers of webapp/backend/internal/handler/ and the middleware of
-- webapp/backend/internal/middleware/auth.go. A request stands for what the libraries make of it:
-- `none` for a cookie or a body that is missing or does not parse.
use Prim.Native.String.{String}
use text.Mathlib.Text.{◌==◌ as str_eq}
use snake_42tokyo_tuning.Base.{
  ℕ, Bool, not, ◌||◌, Option, none, some, List, if◌then◌else◌, Run, ok, err, panic, no_fuel,
}
use snake_42tokyo_tuning.Model.{
  User, Product, Order, DeliveryPlan, LoginRequest, LoginResponse, CreateOrderRequest,
  UpdateOrderStatusRequest, ListRequest, Error, no_rows, user_not_found, invalid_password,
  internal_server, cancelled, other,
}
use snake_42tokyo_tuning.Delivery.Table.{Context}
use snake_42tokyo_tuning.Store.Db.{World, Env}
use snake_42tokyo_tuning.Store.Accounts.{find_user_by_session_id}
use snake_42tokyo_tuning.Store.Listing.{Server}
use snake_42tokyo_tuning.Service.Lists.{fetch_orders, fetch_products}
use snake_42tokyo_tuning.Service.Auth.{login, verify_session}
use snake_42tokyo_tuning.Service.Product.{Quantities, create_orders}
use snake_42tokyo_tuning.Service.Robot.{RobotService, generate_delivery_plan, update_order_status}
use snake_42tokyo_tuning.Handler.Requests.{prepare_orders, prepare_products}

-- The status code and what is sent with it, or a panic, which ends the connection.
pub data Reply {ℓ} (A : Type ℓ) : Type ℓ where
  sent : ℕ → A → Reply A
  refused : ℕ → Reply A
  aborted : Reply A

-- The reply after a call of a service: `good` with the value, or what `status` makes of the error.
unfoldable pub reply {ℓ} :
    {A : Type ℓ} → (good : ℕ) → (Error → ℕ) → Run Error A × World → Reply A × World
reply good status (ok a, w) = (sent good a, w)
reply good status (err e, w) = (refused (status e), w)
reply good status (panic, w) = (aborted, w)
reply good status (no_fuel, w) = (aborted, w)

-- A reply with another body.
unfoldable pub present {ℓ κ} :
    {A : Type ℓ} {B : Type κ} → (A → B) → Reply A × World → Reply B × World
present f (sent status a, w) = (sent status (f a), w)
present f (refused status, w) = (refused status, w)
present f (aborted, w) = (aborted, w)

-- The body of `AuthHandler.Verify`.
unfoldable pub login_response : User → LoginResponse
login_response user = record { user_id = user.user_id; user_name = user.user_name }

-- The status codes of `AuthHandler.Login`.
unfoldable pub login_status : Error → ℕ
login_status user_not_found = 401
login_status invalid_password = 401
login_status no_rows = 500
login_status internal_server = 500
login_status cancelled = 500
login_status (other n) = 500

-- The status codes of `AuthHandler.Verify`.
unfoldable pub verify_status : Error → ℕ
verify_status user_not_found = 401
verify_status invalid_password = 500
verify_status no_rows = 500
verify_status internal_server = 500
verify_status cancelled = 500
verify_status (other n) = 500

abbrev pub failure_status : Error → ℕ
failure_status e = 500

-- `RobotAuthMiddleware`: the key of the header, "" if there is none.
unfoldable pub robot_auth {ℓ} :
    {A : Type ℓ}
    → (valid_api_key api_key : String) → (World → Reply A × World)
    → World
    → Reply A × World
robot_auth valid_api_key api_key next w =
    if str_eq api_key "" || not (str_eq api_key valid_api_key) then (refused 403, w) else next w

-- The handler behind the middleware runs for the user of a session that has been found.
unfoldable pub admit {ℓ} :
    {A : Type ℓ} → (ℕ → World → Reply A × World) → Run Error ℕ × World → Reply A × World
admit next (ok user_id, w) = next user_id w
admit next (err e, w) = (refused 401, w)
admit next (panic, w) = (aborted, w)
admit next (no_fuel, w) = (aborted, w)

module _ (env : Env) where
  -- `UserAuthMiddleware`
  unfoldable pub user_auth {ℓ} :
      {A : Type ℓ}
      → (cookie : Option String) → (ℕ → World → Reply A × World)
      → World
      → Reply A × World
  user_auth none next w = (refused 401, w)
  user_auth (some session_id) next w = admit next (find_user_by_session_id env session_id w)

  unfoldable pub login_reply :
      (fired : Option Error) → (body : Option LoginRequest) → World → Reply (String × ℕ) × World
  login_reply fired none w = (refused 400, w)
  login_reply fired (some req) w =
      reply 200 login_status (login env fired req.user_name req.password w)

  unfoldable pub verify_reply :
      (fired : Option Error) → (cookie : Option String) → World → Reply LoginResponse × World
  verify_reply fired none w = (refused 401, w)
  verify_reply fired (some session_id) w =
      present login_response (reply 200 verify_status (verify_session env fired session_id w))

  -- `capacity`: the text of the parameter, and what `strconv.Atoi` makes of it.
  unfoldable pub plan_reply :
      Context
      → (fired : Option Error) → (capacity : String) → (parsed : Option ℕ) → World
      → Reply DeliveryPlan × World
  plan_reply ctx fired capacity none w = (refused 400, w)
  plan_reply ctx fired capacity (some n) w =
      if str_eq capacity ""
      then (refused 400, w)
      else reply 200 failure_status (generate_delivery_plan env ctx fired "robot-001" n w)

  unfoldable pub status_reply :
      RobotService
      → (fired : Option Error) → (body : Option UpdateOrderStatusRequest) → World
      → Reply (Unit {0}) × World
  status_reply s fired none w = (refused 400, w)
  status_reply s fired (some req) w =
      reply 200 failure_status (update_order_status env s fired req.order_id req.new_status w)

  -- `user`: what the middleware has put into the context.
  unfoldable pub create_reply :
      (visit : Quantities → Quantities)
      → (user : Option ℕ) → (body : Option CreateOrderRequest) → World
      → Reply (List ℕ) × World
  create_reply visit none body w = (refused 500, w)
  create_reply visit (some user_id) none w = (refused 400, w)
  create_reply visit (some user_id) (some req) w =
      reply 201 failure_status (create_orders env user_id visit req.items w)

  module _ (server : Server) (lower : String → String) (first : Bool) where
    -- `OrderHandler.List`
    unfoldable pub orders_reply :
        (fired : Option Error)
        → (user : Option ℕ) → (body : Option ListRequest) → World
        → Reply (List Order × ℕ) × World
    orders_reply fired none body w = (refused 500, w)
    orders_reply fired (some user_id) none w = (refused 400, w)
    orders_reply fired (some user_id) (some req) w =
        reply 200 failure_status
          (fetch_orders server env first fired user_id (prepare_orders lower req) w)

    -- `ProductHandler.List`
    unfoldable pub products_reply :
        (user : Option ℕ) → (body : Option ListRequest) → World → Reply (List Product × ℕ) × World
    products_reply none body w = (refused 500, w)
    products_reply (some user_id) none w = (refused 400, w)
    products_reply (some user_id) (some req) w =
        reply 200 failure_status
          (fetch_products server env first user_id (prepare_products lower req) w)
