-- ===== src/Start/Tests/Sessions.antt =====
-- Requests with a cookie, on a shop where one user has a session.
use snake_42tokyo_tuning.Base.{◌≡◌, refl, none, some, List, [], ◌∷◌}
use snake_42tokyo_tuning.Base.Dict.{lookup}
use snake_42tokyo_tuning.Store.Db.{World}
use snake_42tokyo_tuning.Cache.{new_cache}
use snake_42tokyo_tuning.Store.Accounts.{new_session_cache}
use snake_42tokyo_tuning.Store.Backing.{IsBacked}
use snake_42tokyo_tuning.Start.Routes.{post, Request, serve}
use snake_42tokyo_tuning.Model.{Order}
use snake_42tokyo_tuning.Store.Accounts.{find_user_by_session_id}
use snake_42tokyo_tuning.Store.Paging.{IsOrdering}
use snake_42tokyo_tuning.Store.Leaves.{Leaves}
use snake_42tokyo_tuning.Base.{ok}
use snake_42tokyo_tuning.Store.Recent.{IsRecent, IsAccepted, find_user_by_session_id-IsRecent}
use mathlib.Core.List.Permᴰ as Permᴰ
use snake_42tokyo_tuning.Start.Owners.{IsOwn, orders_shown, serve-IsOwn}
use snake_42tokyo_tuning.Start.Tests.Requests.{
  calm, listing, row, shop, request, find_route, find_route-IsSound, missing, program,
}

listing-IsOrdering : IsOrdering listing
listing-IsOrdering = record { orders = λ terms. Permᴰ.refl; products = λ terms. Permᴰ.refl }

-- The user 7 has a session and an order, the user 8 has an order.
abbrev busy : World
busy = record {
  tables = record {
    users = [];
    products =
        record {
          product_id = 2;
          name = "pear";
          value = 5;
          weight = 1;
          image = "";
          description = "";
        }
        ∷ [];
    orders = row 0 7 ∷ row 1 8 ∷ [];
    next_order_id = 2;
    user_sessions = record { session_uuid = "s"; user_id = 7; expires_at = 99 } ∷ [];
  };
  session_cache = new_session_cache;
  user_cache = none;
  asked = 0;
}

busy-IsBacked : IsBacked calm busy.tables busy
unfolding new_session_cache new_cache lookup
busy-IsBacked = record {
  same_tables = refl;
  sessions = λ k e found. absurd (cc);
  users = λ c on k e found. absurd (cc);
}

abbrev order_request : Request
order_request = record request {
  method = post;
  path = "/api/v1/orders";
  cookie = some "s";
  list_body = some (record {
    search = "";
    type = "";
    page = 1;
    page_size = 20;
    sort_field = "";
    sort_order = "";
    offset = 0;
  });
}

abbrev shown_rows : List Order
shown_rows =
    record {
      order_id = 0;
      user_id = 7;
      product_id = 2;
      product_name = "pear";
      shipped_status = "shipping";
      weight = 1;
      value = 5;
      created_at = 0;
      arrived_at = none;
    }
    ∷ []

busy_shows : orders_shown (serve shop [] find_route missing order_request busy).0 ≡ some shown_rows
unfolding program
busy_shows = refl

serve-IsOwn_example : IsOwn calm busy.tables (some "s") shown_rows
serve-IsOwn_example =
    serve-IsOwn shop listing-IsOrdering busy.tables [] find_route missing find_route-IsSound
      (λ req w. refl) order_request busy shown_rows busy-IsBacked busy_shows

busy-IsRecent : IsRecent calm busy.tables.user_sessions busy.session_cache.ttl busy
unfolding new_session_cache new_cache lookup
busy-IsRecent = record { same_rows = refl; same_ttl = refl; entries = λ k e found. absurd (cc) }

find_user_by_session_id-IsRecent_example :
    Leaves
      (λ e w'. Unit {0})
      (λ user_id w'.
        IsAccepted calm busy.tables.user_sessions busy.session_cache.ttl busy "s" user_id
        × IsRecent calm busy.tables.user_sessions busy.session_cache.ttl w')
      (find_user_by_session_id calm "s" busy)
find_user_by_session_id-IsRecent_example =
    find_user_by_session_id-IsRecent calm busy.tables.user_sessions busy.session_cache.ttl "s" busy
      busy-IsRecent

-- After the session has expired, an answer from before is still in the cache.
test_expired_session :
    (find_user_by_session_id calm "s"
      (record (find_user_by_session_id calm "s" busy).1 { asked = 100 })).0
    ≡ ok 7
unfolding program
test_expired_session = refl
