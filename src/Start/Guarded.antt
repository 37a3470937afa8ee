-- ===== src/Start/Guarded.antt =====
-- Which handler of webapp/backend/internal/server/server.go runs behind which middleware.
use Prim.Native.String.{String}
use mathlib.Core.List.{Memᴰ}
use mathlib.Core.List.Memᴰ.{head, tail}
use snake_42tokyo_tuning.Base.{
  ◌≡◌, ◌≢◌, refl, sym, subst, ◌∙◌, ◌⊎◌, inl, inr, Option, none, some, List, [], ◌∷◌, Option-cases,
}
use snake_42tokyo_tuning.Base.Dict.{Dict}
use snake_42tokyo_tuning.Store.Db.{Tables, World}
use snake_42tokyo_tuning.Store.Backing.{IsBacked}
use snake_42tokyo_tuning.Handler.Replies.{Reply, refused, robot_auth}
use snake_42tokyo_tuning.Handler.Access.{Admitted, user_auth-Admitted, robot_auth-cases}
use snake_42tokyo_tuning.Start.Routes.{
  Method, get, post, patch, Guard, Endpoint, Route, Request, Body, Shop, open_to_all, user_guard,
  robot_guard, health, login, verify, list_products, create_orders, list_orders, get_image,
  delivery_plan, order_status, route_group, setup_routes, robot_api_key, handle, run_route,
  run_found, serve,
}

-- The middleware that an endpoint must stand behind.
abbrev pub guard_of : Endpoint → Guard
guard_of health = open_to_all
guard_of login = open_to_all
guard_of verify = open_to_all
guard_of list_products = user_guard
guard_of create_orders = user_guard
guard_of list_orders = user_guard
guard_of get_image = user_guard
guard_of delivery_plan = robot_guard
guard_of order_status = robot_guard

abbrev pub method_of : Endpoint → Method
method_of health = get
method_of login = post
method_of verify = get
method_of list_products = post
method_of create_orders = post
method_of list_orders = post
method_of get_image = get
method_of delivery_plan = get
method_of order_status = patch

abbrev pub path_of : Endpoint → String
path_of health = "/api/health"
path_of login = "/api/login"
path_of verify = "/api/verify"
path_of list_products = "/api/v1/product"
path_of create_orders = "/api/v1/product/post"
path_of list_orders = "/api/v1/orders"
path_of get_image = "/api/v1/image"
path_of delivery_plan = "/api/robot/delivery-plan"
path_of order_status = "/api/robot/orders/status"

-- A route leads to its endpoint by the method and the path, through the middleware, of that endpoint.
pub record IsRight (r : Route) : Type 0 where
  pub method : r.method ≡ method_of r.endpoint
  pub pattern : r.pattern ≡ path_of r.endpoint
  pub guard : r.guard ≡ guard_of r.endpoint

abbrev AllRight : List Route → Type 0
AllRight [] = Unit
AllRight (r ∷ rs) = IsRight r × AllRight rs

AllRight-Memᴰ : {r : Route} {rs : List Route} → Memᴰ r rs → AllRight rs → IsRight r
AllRight-Memᴰ (head e) h = subst IsRight (sym e) h.0
AllRight-Memᴰ (tail m) h = AllRight-Memᴰ m h.1

setup_routes-AllRight : AllRight setup_routes
unfolding setup_routes route_group
setup_routes-AllRight =
    let row : (e : Endpoint)
        → IsRight (record {
          method = method_of e;
          pattern = path_of e;
          guard = guard_of e;
          endpoint = e;
        }) =
      λ e. record { method = refl; pattern = refl; guard = refl } in
    (
      row health,
      (
        row login,
        (
          row verify,
          (
            row list_products,
            (
              row create_orders,
              (row list_orders, (row get_image, (row delivery_plan, (row order_status, tt)))),
            ),
          ),
        ),
      ),
    )

-- The request asks for an endpoint.
pub record Asks (req : Request) (e : Endpoint) : Type 0 where
  pub method : req.method ≡ method_of e
  pub path : req.path ≡ path_of e

-- The router finds only routes that are there, by their method and their pattern.
abbrev pub IsSound : (List Route → Method → String → Option Route) → Type 0
IsSound find =
    (rs : List Route) (m : Method) (p : String) (r : Route)
    → find rs m p ≡ some r
    → Memᴰ r rs × (r.method ≡ m) × (r.pattern ≡ p)

module _ (shop : Shop) (vars : Dict String) (find : List Route → Method → String → Option Route)
    (miss : Request → World → Reply Body × World) (sound : IsSound find) (t : Tables) where
  -- What the server does with a request.
  pub data Guarded (req : Request) (w : World) : Reply Body × World → Type 0 where
    missed : find setup_routes req.method req.path ≡ none → Guarded req w (miss req w)
    public :
        (e : Endpoint)
        → Asks req e
        → guard_of e ≡ open_to_all
        → Guarded req w (handle shop e req none w)
    for_user :
        (e : Endpoint) {r : Reply Body × World}
        → Asks req e
        → guard_of e ≡ user_guard
        → Admitted shop.env t req.cookie (λ user_id w'. handle shop e req (some user_id) w') r
        → Guarded req w r
    for_robot :
        (e : Endpoint)
        → Asks req e
        → guard_of e ≡ robot_guard
        → req.api_key ≢ ""
        → req.api_key ≡ robot_api_key vars
        → Guarded req w (handle shop e req none w)
    no_robot :
        (e : Endpoint)
        → Asks req e
        → guard_of e ≡ robot_guard
        → (req.api_key ≡ "") ⊎ (req.api_key ≢ robot_api_key vars)
        → Guarded req w (refused 403, w)

  module _ (req : Request) (w : World) (b : IsBacked shop.env t w) where
    robot-Guarded :
        (e : Endpoint)
        → Asks req e
        → guard_of e ≡ robot_guard
        → Guarded req w
            (robot_auth (robot_api_key vars) req.api_key (λ w'. handle shop e req none w') w)
    robot-Guarded e asks g =
        elim (robot_auth-cases (robot_api_key vars) req.api_key (λ w'. handle shop e req none w')
          w) [
            | inl (filled, valid, eq) ↦ rw eq (for_robot e asks g filled valid)
            | inr (why, eq) ↦ rw eq (no_robot e asks g why)
          ]

    behind-Guarded :
        (e : Endpoint) (g : Guard)
        → Asks req e
        → guard_of e ≡ g
        → Guarded req w (
            run_route shop
              (robot_api_key vars)
              (record { method = req.method; pattern = req.path; guard = g; endpoint = e })
              req
              w)
    unfolding run_route
    behind-Guarded e open_to_all asks g = public e asks g
    behind-Guarded e user_guard asks g = for_user e asks g (
        user_auth-Admitted shop.env (λ user_id w'. handle shop e req (some user_id) w') t req.cookie
          w b)
    behind-Guarded e robot_guard asks g = robot-Guarded e asks g

    route-Guarded :
        (r : Route)
        → IsRight r
        → r.method ≡ req.method
        → r.pattern ≡ req.path
        → Guarded req w (run_route shop (robot_api_key vars) r req w)
    unfolding run_route
    route-Guarded r right m p =
        behind-Guarded r.endpoint r.guard
          (record { method = sym m ∙ right.method; path = sym p ∙ right.pattern }) (sym right.guard)

    -- With a sound router, and rows behind the caches, each request reaches at most the endpoint with
    -- its method and its path: health, login and verify run for everyone; lists, orders and images only
    -- behind the session middleware, for a user to whom the session of the cookie belongs; the plan and
    -- the status only with the key of the environment, or the default key if there is none, and else the
    -- reply is 403 and nothing changes.
    pub serve-Guarded : Guarded req w (serve shop vars find miss req w)
    unfolding serve run_found
    serve-Guarded = elim (Option-cases (find setup_routes req.method req.path)) [
      | inl unknown ↦ rw (serve, run_found, unknown) (missed unknown)
      | inr (r, found) ↦
          let (member, m, p) = sound setup_routes req.method req.path r found in
          rw (serve, run_found, found)
            (route-Guarded r (AllRight-Memᴰ member setup_routes-AllRight) m p)
    ]
