-- ===== src/Start/Routes.antt =====
-- The routes of webapp/backend/internal/server/server.go and what runs for a request. The router of
-- chi is a parameter: which of the routes it finds, and what it replies if it finds none.
use Prim.Native.String.{String, ◌++◌ as str_append}
use snake_42tokyo_tuning.Base.{
  ℕ, Bool, Option, none, some, List, [], ◌∷◌, ◌++◌, if◌then◌else◌, Run, ok, err, panic, no_fuel,
}
use snake_42tokyo_tuning.Base.Dict.{Dict}
use snake_42tokyo_tuning.Model.{
  Product, Order, DeliveryPlan, LoginRequest, LoginResponse, CreateOrderRequest,
  UpdateOrderStatusRequest, ListRequest, Error,
}
use snake_42tokyo_tuning.Delivery.Table.{Context}
use snake_42tokyo_tuning.Store.Db.{World, Env}
use snake_42tokyo_tuning.Store.Listing.{Server}
use snake_42tokyo_tuning.Service.Product.{Quantities}
use snake_42tokyo_tuning.Service.Robot.{RobotService}
use snake_42tokyo_tuning.Handler.Image.{image_reply}
use snake_42tokyo_tuning.Handler.Replies.{
  Reply, sent, robot_auth, user_auth, login_reply, verify_reply, plan_reply, status_reply,
  create_reply, orders_reply, products_reply, present,
}
use snake_42tokyo_tuning.Start.Environment.{getenv_or}
use snake_42tokyo_tuning.Start.Database.{Connection, DbError}

pub data Method : Type 0 where
  get : Method
  post : Method
  patch : Method

-- The middleware in front of a route.
pub data Guard : Type 0 where
  open_to_all : Guard
  user_guard : Guard
  robot_guard : Guard

-- The handlers.
pub data Endpoint : Type 0 where
  health : Endpoint
  login : Endpoint
  verify : Endpoint
  list_products : Endpoint
  create_orders : Endpoint
  list_orders : Endpoint
  get_image : Endpoint
  delivery_plan : Endpoint
  order_status : Endpoint

pub record Route : Type 0 where
  pub method : Method
  pub pattern : String
  pub guard : Guard
  pub endpoint : Endpoint

-- `Route` of chi: a prefix, a middleware and the routes below.
unfoldable pub route_group :
    (prefix : String) → Guard → List (Method × String × Endpoint) → List Route
route_group prefix guard [] = []
route_group prefix guard ((method, pattern, endpoint) ∷ routes) =
    record {
      method = method;
      pattern = str_append prefix pattern;
      guard = guard;
      endpoint = endpoint;
    }
    ∷ route_group prefix guard routes

-- `setupRoutes`, after the route that `NewServer` adds itself.
unfoldable pub setup_routes : List Route
unfolding route_group
setup_routes =
    route_group "" open_to_all (
      (get, "/api/health", health)
      ∷ (post, "/api/login", login)
      ∷ (get, "/api/verify", verify)
      ∷ [])
    ++ (route_group "/api/v1" user_guard (
          (post, "/product", list_products)
          ∷ (post, "/product/post", create_orders)
          ∷ (post, "/orders", list_orders)
          ∷ (get, "/image", get_image)
          ∷ [])
        ++ route_group "/api/robot" robot_guard
            ((get, "/delivery-plan", delivery_plan) ∷ (patch, "/orders/status", order_status) ∷ []))

-- A request, as the handlers read it.
pub record Request : Type 0 where
  pub method : Method
  pub path : String
  pub cookie : Option String
  pub api_key : String
  pub login_body : Option LoginRequest
  pub list_body : Option ListRequest
  pub create_body : Option CreateOrderRequest
  pub status_body : Option UpdateOrderStatusRequest
  pub image_param : String
  pub capacity : String
  pub parsed_capacity : Option ℕ

pub data Body : Type 0 where
  plain : String → Body
  session : String → ℕ → Body
  user : LoginResponse → Body
  products : List Product → ℕ → Body
  orders : List Order → ℕ → Body
  order_ids : List ℕ → Body
  image : (content_type bytes : String) → Body
  plan : DeliveryPlan → Body
  updated : Body

-- What the handlers use beside the request: the services, the files, and how the request meets its
-- deadlines.
pub record Shop : Type 0 where
  pub env : Env
  pub ctx : Context
  pub robot : RobotService
  pub server : Server
  pub visit : Quantities → Quantities
  pub lower : String → String
  pub first : Bool
  pub fired : Option Error
  pub exists : String → Bool
  pub read_file : String → Option String

-- `ROBOT_API_KEY`, or the key that stands in the source.
unfoldable pub robot_api_key : Dict String → String
robot_api_key vars = getenv_or vars "ROBOT_API_KEY" "test-robot-key"

-- The address of `Run`.
unfoldable pub listen_address : Dict String → String
listen_address vars = str_append ":" (getenv_or vars "PORT" "8080")

module _ (shop : Shop) where
  -- The handler of an endpoint, for the user that the middleware has found.
  unfoldable pub handle : Endpoint → Request → (found : Option ℕ) → World → Reply Body × World
  handle health req found w = (sent 200 (plain "ok"), w)
  handle login req found w =
      present (λ (a : String × ℕ). session a.0 a.1)
        (login_reply shop.env shop.fired req.login_body w)
  handle verify req found w = present user (verify_reply shop.env shop.fired req.cookie w)
  handle list_products req found w =
      present (λ (a : List Product × ℕ). products a.0 a.1)
        (products_reply shop.env shop.server shop.lower shop.first found req.list_body w)
  handle create_orders req found w =
      present order_ids (create_reply shop.env shop.visit found req.create_body w)
  handle list_orders req found w =
      present (λ (a : List Order × ℕ). orders a.0 a.1)
        (orders_reply shop.env shop.server shop.lower shop.first shop.fired found req.list_body w)
  handle get_image req found w =
      present (λ (a : String × String). image a.0 a.1)
        (image_reply shop.exists shop.read_file shop.lower req.image_param, w)
  handle delivery_plan req found w =
      present plan (plan_reply shop.env shop.ctx shop.fired req.capacity req.parsed_capacity w)
  handle order_status req found w =
      present (λ (u : Unit {0}). updated)
        (status_reply shop.env shop.robot shop.fired req.status_body w)

  -- A route with its middleware.
  unfoldable pub run_route : (valid_api_key : String) → Route → Request → World → Reply Body × World
  unfolding handle
  run_route valid_api_key r req w = elim r.guard [
    | open_to_all ↦ handle r.endpoint req none w
    | user_guard ↦
        user_auth shop.env req.cookie (λ user_id w'. handle r.endpoint req (some user_id) w') w
    | robot_guard ↦ robot_auth valid_api_key req.api_key (λ w'. handle r.endpoint req none w') w
  ]

  unfoldable pub run_found :
      (valid_api_key : String)
      → (miss : Request → World → Reply Body × World) → Option Route
      → Request
      → World
      → Reply Body × World
  unfolding run_route
  run_found valid_api_key miss none req w = miss req w
  run_found valid_api_key miss (some r) req w = run_route valid_api_key r req w

  -- The server that `NewServer` makes, at a request.
  unfoldable pub serve :
      Dict String
      → (find : List Route → Method → String → Option Route)
      → (miss : Request → World → Reply Body × World) → Request
      → World
      → Reply Body × World
  unfolding run_found setup_routes robot_api_key
  serve vars find miss req w =
      run_found (robot_api_key vars) miss (find setup_routes req.method req.path) req w

-- `main` of webapp/backend/cmd/main.go: it ends with the status 1 if the server cannot be made or
-- cannot listen, and else serves at an address over a connection.
unfoldable pub start :
    Dict String → (listens : String → Bool) → Run DbError Connection → Run ℕ (String × Connection)
unfolding listen_address
start vars listens (ok connection) =
    if listens (listen_address vars) then ok (listen_address vars, connection) else err 1
start vars listens (err e) = err 1
start vars listens panic = panic
start vars listens no_fuel = no_fuel
