-- ===== src/Handler/Tests.antt =====
-- List requests on a small shop.
use Prim.Native.String.{String}
use text.Mathlib.Text.{◌==◌ as str_eq}
use mathlib.Core.List.Permᴰ as Permᴰ
use snake_42tokyo_tuning.Base.{refl, ℕ, ◌*◌, ◌≡◌, true, none, some, List, [], ◌∷◌, take, ok, arith}
use snake_42tokyo_tuning.Model.{Product, ListRequest}
use snake_42tokyo_tuning.Store.Db.{World, Env}
use snake_42tokyo_tuning.Store.Accounts.{new_session_cache}
use snake_42tokyo_tuning.Store.Leaves.{Leaves}
use snake_42tokyo_tuning.Store.Listing.{Server}
use snake_42tokyo_tuning.Handler.Requests.{
  order_fields, product_fields, prepare_orders, prepare_products,
}
use snake_42tokyo_tuning.Handler.Replies.{Reply, sent, refused, user_auth, orders_reply}
use snake_42tokyo_tuning.Handler.Access.{Admitted, user_auth-Admitted}
use snake_42tokyo_tuning.Store.Backing.{IsBacked}
use snake_42tokyo_tuning.Cache.{new_cache}
use snake_42tokyo_tuning.Base.Dict.{lookup}
use snake_42tokyo_tuning.Base.{Option, if◌then◌else◌}
use snake_42tokyo_tuning.Paths.{
  is_abs, push, split, join, up, step, walk, render, clean, join_path, ext_from, ext,
  begins_with_dot, contains_dots,
}
use snake_42tokyo_tuning.Handler.Image.{image_path, content_type, serve_file, image_reply}
use snake_42tokyo_tuning.Handler.Confined.{Confined, image_reply-Confined}
use snake_42tokyo_tuning.Handler.Safety.{IsSafe, prepare-IsSafe}
use snake_42tokyo_tuning.Handler.Pages.{
  collect_pages, collect_pages-products, orders_reply-ignores_page,
}

-- Nothing fails.
abbrev calm : Env
calm = record {
  fault = λ n. none;
  clock = λ n. n;
  new_uuid = λ n. none;
  compare_hash = str_eq;
  range_sessions = λ m. m;
  range_users = λ m. m;
  arrange = λ os. os;
  same = str_eq;
  datetime = λ time. time;
}

-- Everything matches, and the rows are in order already.
abbrev plain : Server
plain = record {
  like = λ text pattern. true;
  sort_orders = λ terms os. os;
  sort_products = λ terms ps. ps;
}

abbrev product : ℕ → Product
product id = record {
  product_id = id;
  name = "apple";
  value = 10;
  weight = 3;
  image = "";
  description = "";
}

abbrev three : List Product
three = product 1 ∷ product 2 ∷ product 3 ∷ []

abbrev opened : World
opened = record {
  tables = record {
    users = [];
    products = three;
    orders =
        record {
          order_id = 0;
          user_id = 7;
          product_id = 2;
          shipped_status = "shipping";
          created_at = 0;
          arrived_at = none;
        }
        ∷ [];
    next_order_id = 1;
    user_sessions = [];
  };
  session_cache = new_session_cache;
  user_cache = none;
  asked = 0;
}

abbrev request : ListRequest
request = record {
  search = "";
  type = "";
  page = 1;
  page_size = 2;
  sort_field = "weight; DROP TABLE orders";
  sort_order = "desc";
  offset = 0;
}

abbrev same_case : String → String
same_case s = s

prepare-IsSafe_example :
    IsSafe order_fields (prepare_orders same_case request)
    × IsSafe product_fields (prepare_products same_case request)
prepare-IsSafe_example = prepare-IsSafe same_case request

collect_pages-products_example :
    collect_pages (prepare_products same_case) request three 2 ≡ ok (take (2 * 2) three)
collect_pages-products_example =
    collect_pages-products same_case request three 2 (omega arith) (omega arith)

orders_reply-ignores_page_example :
    orders_reply calm plain same_case true none (some 7) (some (record request { page = 1 })) opened
    ≡ orders_reply calm plain same_case true none
        (some 7)
        (some (record request { page = 2 }))
        opened
orders_reply-ignores_page_example =
    orders_reply-ignores_page calm plain same_case true none (some 7) request 1 2 opened

opened-IsBacked : IsBacked calm opened.tables opened
unfolding new_session_cache new_cache lookup
opened-IsBacked = record {
  same_tables = refl;
  sessions = λ k e found. absurd (cc);
  users = λ c on k e found. absurd (cc);
}

-- A handler that replies with the user's id.
abbrev who : ℕ → World → Reply ℕ × World
who user_id w = (sent 200 user_id, w)

user_auth-Admitted_example :
    Admitted calm opened.tables (some "s") who (user_auth calm (some "s") who opened)
user_auth-Admitted_example =
    user_auth-Admitted calm who opened.tables (some "s") opened opened-IsBacked

abbrev images : String → Option String
images path = if str_eq path "/app/images/a/b.PNG" then some "bytes" else none

lower_png : String → String
lower_png e = if str_eq e ".PNG" then ".png" else e

image_program : Unit {0}
unfolding image_reply image_path serve_file content_type ext ext_from contains_dots begins_with_dot
    is_abs push split join up step walk render clean join_path lower_png
image_program = tt

test_image :
    image_reply (λ path. true) images lower_png "./a//b.PNG" ≡ sent 200 ("image/png", "bytes")
unfolding image_program
test_image = refl

test_image_above : image_reply (λ path. true) images lower_png "a/../../b" ≡ refused 400
unfolding image_program
test_image_above = refl

test_image_inside :
    image_reply (λ path. true) images lower_png "a/../a/b.PNG" ≡ sent 200 ("image/png", "bytes")
unfolding image_program
test_image_inside = refl

image_reply-Confined_example :
    Confined
      (λ path. true)
      images
      lower_png
      "a/b.PNG"
      (image_reply (λ path. true) images lower_png "a/b.PNG")
image_reply-Confined_example = image_reply-Confined (λ path. true) images lower_png "a/b.PNG"
