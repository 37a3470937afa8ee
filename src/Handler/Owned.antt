-- ===== src/Handler/Owned.antt =====
-- Whose orders `OrderHandler.List` of webapp/backend/internal/handler/order.go shows.
use Prim.Native.String.{String}
use snake_42tokyo_tuning.Base.{ℕ, Bool, Option, none, some, Run}
use snake_42tokyo_tuning.Model.{Error, ListRequest}
use snake_42tokyo_tuning.Store.Db.{World, Env}
use snake_42tokyo_tuning.Store.Leaves.{Leaves, done, failed, Leaves-map}
use snake_42tokyo_tuning.Store.Listing.{Server}
use snake_42tokyo_tuning.Store.Paging.{IsOrdering, list_orders-IsPage}
use snake_42tokyo_tuning.Store.Owned.{AllRows, IsOwned, page-AllRows}
use snake_42tokyo_tuning.Store.Tx.{with_timeout}
use snake_42tokyo_tuning.Service.Lists.{fetch_orders}
use snake_42tokyo_tuning.Handler.Requests.{prepare_orders}
use snake_42tokyo_tuning.Handler.Replies.{Reply, sent, refused, reply, failure_status, orders_reply}

-- What is sent has a property, or the request is refused; the connection is not aborted.
pub data Shows {ℓ ν} {A : Type ℓ} (P : A → Type ν) : Reply A → Type (ℓ ⊔ ν) where
  shown : {status : ℕ} {a : A} → P a → Shows P (sent status a)
  turned_down : {status : ℕ} → Shows P (refused status)

reply-Shows {κ ℓ ν} :
    {A : Type ℓ} {Q : Error → World → Type κ} {P : A → Type ν} (good : ℕ) (status : Error → ℕ)
    {r : Run Error A × World}
    → Leaves Q (λ a w. P a) r
    → Shows P (reply good status r).0
unfolding reply
reply-Shows good status (done p) = shown p
reply-Shows good status (failed q) = turned_down

-- Where the server's ORDER BY permutes the rows, every order that `OrderHandler.List` sends belongs to
-- the user of the request and has the id and the owner of a row of the table, for any request, with or
-- without a timeout. Any other reply is a refusal: the handler never panics.
pub orders_reply-Shows :
    (env : Env) (server : Server) (lower : String → String) (first : Bool)
    → IsOrdering server
    → (fired : Option Error) (user_id : ℕ) (body : Option ListRequest) (w : World)
    → Shows
        (λ answer. AllRows (IsOwned w.tables user_id) answer.0)
        (orders_reply env server lower first fired (some user_id) body w).0
unfolding orders_reply fetch_orders with_timeout reply
orders_reply-Shows env server lower first h fired user_id none w = turned_down
orders_reply-Shows env server lower first h (some e) user_id (some req) w = turned_down
orders_reply-Shows env server lower first h none user_id (some req) w =
    reply-Shows 200 failure_status (
      Leaves-map (list_orders-IsPage server h env first user_id (prepare_orders lower req) w)
        (λ e w' q. q)
        λ answer w' p. page-AllRows server h user_id (prepare_orders lower req) w.tables answer p.0)
