-- ===== src/Start/Tests/Requests.antt =====
-- Requests to the server on a small shop.
use Prim.Native.String.{String}
use text.Mathlib.Text.{◌==◌ as str_eq}
use text.Mathlib.TextEquality.{eq_iff}
use mathlib.Core.List.Memᴰ.{head, tail}
use snake_42tokyo_tuning.Base.{
  ℕ, Bool, true, false, ◌&&◌, ◌≡◌, refl, sym, subst, Option, none, some, List, [], ◌∷◌,
  if◌then◌else◌, Bool-cases, inl, inr,
}
use snake_42tokyo_tuning.Base.Dict.{lookup}
use snake_42tokyo_tuning.Store.Db.{World, Env, OrderRow}
use snake_42tokyo_tuning.Cache.{new_cache}
use snake_42tokyo_tuning.Store.Accounts.{new_session_cache}
use snake_42tokyo_tuning.Store.Listing.{Server}
use snake_42tokyo_tuning.Store.Backing.{IsBacked}
use snake_42tokyo_tuning.Handler.Replies.{
  Reply, refused, robot_auth, user_auth, plan_reply, present,
}
use snake_42tokyo_tuning.Start.Environment.{getenv, getenv_or}
use snake_42tokyo_tuning.Start.Routes.{
  Method, get, post, patch, Route, Request, Body, Shop, setup_routes, route_group, robot_api_key,
  handle, run_route, run_found, serve,
}
use snake_42tokyo_tuning.Start.Guarded.{IsSound, Guarded, serve-Guarded}
use snake_42tokyo_tuning.Base.{lt_int, le_int}
use snake_42tokyo_tuning.Base.Dict.{insert}
use snake_42tokyo_tuning.Cache.{is_expired, get as get_cached, set, make_room, is_full}
use snake_42tokyo_tuning.Store.Db.{settle, now, query}
use snake_42tokyo_tuning.Store.Orders.{find_product}
use snake_42tokyo_tuning.Store.Accounts.{
  find_user_by_session_id, look_up_session, find_session, cached_session, remember_session,
}
use snake_42tokyo_tuning.Store.Tx.{with_timeout}
use snake_42tokyo_tuning.Store.Listing.{
  order_pattern, order_conditions, order_terms, skip, page_of, join_products, first_error, both,
  listed, order_holds, all_hold, select_where, orders_of, list_orders,
}
use snake_42tokyo_tuning.Service.Lists.{fetch_orders}
use snake_42tokyo_tuning.Handler.Requests.{
  upper_order, choose_field, choose_order, with_page, with_type, sanitize, prepare_orders,
}
use snake_42tokyo_tuning.Handler.Replies.{admit, reply, orders_reply}

-- A backend on which nothing fails.
abbrev pub calm : Env
calm = record {
  fault = λ n. none;
  clock = λ n. n;
  new_uuid = λ n. none;
  compare_hash = str_eq;
  range_sessions = λ m. m;
  range_users = λ m. m;
  arrange = λ os. os;
  same = str_eq;
  datetime = λ time. time;
}

abbrev pub listing : Server
listing = record {
  like = λ text pattern. true;
  sort_orders = λ terms os. os;
  sort_products = λ terms ps. ps;
}

abbrev pub row : ℕ → ℕ → OrderRow
row id user_id = record {
  order_id = id;
  user_id = user_id;
  product_id = 2;
  shipped_status = "shipping";
  created_at = 0;
  arrived_at = none;
}

abbrev opened : World
opened = record {
  tables = record { users = []; products = []; orders = []; next_order_id = 1; user_sessions = [] };
  session_cache = new_session_cache;
  user_cache = none;
  asked = 0;
}

opened-IsBacked : IsBacked calm opened.tables opened
unfolding new_session_cache new_cache lookup
opened-IsBacked = record {
  same_tables = refl;
  sessions = λ k e found. absurd (cc);
  users = λ c on k e found. absurd (cc);
}

abbrev pub shop : Shop
shop = record {
  env = calm;
  ctx = record { at_order = λ n. none; at_step = λ n. none };
  robot = record { clone_enabled = false; supply_target = 0 };
  server = listing;
  visit = λ q. q;
  lower = λ s. s;
  first = true;
  fired = none;
  exists = λ p. false;
  read_file = λ p. none;
}

abbrev pub request : Request
request = record {
  method = get;
  path = "/api/robot/delivery-plan";
  cookie = none;
  api_key = "test-robot-key";
  login_body = none;
  list_body = none;
  create_body = none;
  status_body = none;
  image_param = "";
  capacity = "x";
  parsed_capacity = none;
}

same_method : Method → Method → Bool
same_method get get = true
same_method get post = false
same_method get patch = false
same_method post get = false
same_method post post = true
same_method post patch = false
same_method patch get = false
same_method patch post = false
same_method patch patch = true

same_method_sound : (m n : Method) → same_method m n ≡ true → m ≡ n
unfolding same_method
same_method_sound get get h = refl
same_method_sound get post h = cc
same_method_sound get patch h = cc
same_method_sound post get h = cc
same_method_sound post post h = refl
same_method_sound post patch h = cc
same_method_sound patch get h = cc
same_method_sound patch post h = cc
same_method_sound patch patch h = refl

-- A router that compares whole paths.
pub find_route : List Route → Method → String → Option Route
find_route [] m p = none
find_route (r ∷ rs) m p =
    if same_method r.method m && str_eq r.pattern p then some r else find_route rs m p

pub find_route-IsSound : IsSound find_route
unfolding find_route
find_route-IsSound [] m p r h = absurd (cc)
find_route-IsSound (x ∷ rs) m p r h = elim (Bool-cases (same_method x.method m)) [
  | inr another ↦
      let (member, same, path) = find_route-IsSound rs m p r (rw another at h) in
      (tail member, same, path)
  | inl same ↦ elim (Bool-cases (str_eq x.pattern p)) [
    | inr elsewhere ↦
        let (member, m_same, path) = find_route-IsSound rs m p r (rw (same, elsewhere) at h) in
        (tail member, m_same, path)
    | inl there ↦
        let e : some x ≡ some r = rw (same, there) at h in
        let e' : x ≡ r = cc in
        (
          head (sym e'),
          subst (λ (q : Route). q.method ≡ m) e' (same_method_sound x.method m same),
          subst (λ (q : Route). q.pattern ≡ p) e' ((eq_iff x.pattern p).0 there),
        )
  ]
]

abbrev pub missing : Request → World → Reply Body × World
missing req w = (refused 404, w)

serve-Guarded_example :
    Guarded shop [] find_route missing find_route-IsSound opened.tables request opened
      (serve shop [] find_route missing request opened)
serve-Guarded_example =
    serve-Guarded shop [] find_route missing find_route-IsSound opened.tables request opened
      opened-IsBacked

unfoldable pub program : Unit {0}
unfolding getenv getenv_or lookup setup_routes route_group robot_api_key handle run_route run_found
    serve robot_auth user_auth admit same_method find_route plan_reply present reply orders_reply
    fetch_orders with_timeout prepare_orders upper_order choose_field choose_order with_page
    with_type sanitize find_user_by_session_id look_up_session find_session cached_session
    remember_session new_session_cache new_cache is_expired get_cached set make_room is_full insert
    settle now query order_pattern order_conditions order_terms skip page_of join_products
    first_error both listed order_holds all_hold select_where orders_of list_orders find_product
    le_int lt_int
program = tt

test_plan : (serve shop [] find_route missing request opened).0 ≡ refused 400
unfolding program
test_plan = refl
