-- ===== src/Start/Owners.antt =====
-- Whose orders leave the server of webapp/backend/internal/server/server.go.
use Prim.Native.String.{String}
use mathlib.Core.Option.{some-injective}
use snake_42tokyo_tuning.Base.{
  ℕ, ◌≡◌, ◌≢◌, refl, ap, subst, Option, none, some, List, ◌⊎◌, inl, inr,
}
use snake_42tokyo_tuning.Base.Dict.{Dict}
use snake_42tokyo_tuning.Model.{Order}
use snake_42tokyo_tuning.Store.Db.{Tables, World, Env}
use snake_42tokyo_tuning.Store.Paging.{IsOrdering}
use snake_42tokyo_tuning.Store.Owned.{AllRows, IsOwned}
use snake_42tokyo_tuning.Store.Backing.{OwnerIn, IsBacked}
use snake_42tokyo_tuning.Handler.Replies.{Reply, sent, refused, aborted, present}
use snake_42tokyo_tuning.Handler.Access.{Admitted, turned_away, let_in}
use snake_42tokyo_tuning.Handler.Owned.{Shows, shown, turned_down, orders_reply-Shows}
use snake_42tokyo_tuning.Start.Routes.{
  Method, Endpoint, Route, Request, Body, Shop, health, login, verify, list_products, create_orders,
  list_orders, get_image, delivery_plan, order_status, user_guard, plain, session, user, products,
  orders, order_ids, image, plan, updated, handle, serve,
}
use snake_42tokyo_tuning.Start.Guarded.{
  IsSound, Guarded, missed, public, for_user, for_robot, no_robot, guard_of, serve-Guarded,
}

-- The orders in a body.
abbrev pub orders_in : Body → Option (List Order)
orders_in (plain words) = none
orders_in (session id user_id) = none
orders_in (user response) = none
orders_in (products rows total) = none
orders_in (orders rows total) = some rows
orders_in (order_ids ids) = none
orders_in (image type bytes) = none
orders_in (plan p) = none
orders_in updated = none

abbrev pub orders_shown : Reply Body → Option (List Order)
orders_shown (sent status body) = orders_in body
orders_shown (refused status) = none
orders_shown aborted = none

present-none {ℓ} :
    {A : Type ℓ} (f : A → Body)
    → ((a : A) → orders_in (f a) ≡ none)
    → (r : Reply A × World) → orders_shown (present f r).0 ≡ none
unfolding present
present-none f h (sent status a, w) = h a
present-none f h (refused status, w) = refl
present-none f h (aborted, w) = refl

-- One endpoint shows orders, and no other.
handle-cases :
    (shop : Shop) (e : Endpoint)
    → (e ≡ list_orders)
      ⊎ ((req : Request) (found : Option ℕ) (w : World)
          → orders_shown (handle shop e req found w).0 ≡ none)
unfolding handle
handle-cases shop health = inr (λ req found w. refl)
handle-cases shop login = inr (λ req found w. present-none _ (λ a. refl) _)
handle-cases shop verify = inr (λ req found w. present-none _ (λ a. refl) _)
handle-cases shop list_products = inr (λ req found w. present-none _ (λ a. refl) _)
handle-cases shop create_orders = inr (λ req found w. present-none _ (λ a. refl) _)
handle-cases shop list_orders = inl refl
handle-cases shop get_image = inr (λ req found w. present-none _ (λ a. refl) _)
handle-cases shop delivery_plan = inr (λ req found w. present-none _ (λ a. refl) _)
handle-cases shop order_status = inr (λ req found w. present-none _ (λ a. refl) _)

present-orders {ν} :
    (P : List Order → Type ν) (r : Reply (List Order × ℕ) × World) (rows : List Order)
    → Shows (λ answer. P answer.0) r.0
    → orders_shown (present (λ (a : List Order × ℕ). orders a.0 a.1) r).0 ≡ some rows
    → P rows
unfolding present
present-orders P (sent status a, w) rows (shown p) e = subst P (some-injective _ _ e) p
present-orders P (refused status, w) rows turned_down e = absurd (cc)
present-orders P (aborted, w) rows never e = elim never [ ]

-- An endpoint behind another middleware shows no orders.
unseen :
    (shop : Shop) (e : Endpoint) (req : Request) (found : Option ℕ) (w : World)
    → guard_of e ≢ user_guard
    → orders_shown (handle shop e req found w).0 ≡ none
unseen shop e req found w elsewhere = elim (handle-cases shop e) [
  | inl same ↦ absurd (elsewhere (ap guard_of same))
  | inr silent ↦ silent req found w
]

-- The cookie names a session of a user, and the orders are that user's.
pub record IsOwn (env : Env) (t : Tables) (cookie : Option String) (rows : List Order)
    : Type 0 where
  pub session_id : String
  pub user_id : ℕ
  pub given : cookie ≡ some session_id
  pub owner : OwnerIn env t.user_sessions session_id user_id
  pub own : AllRows (IsOwned t user_id) rows

module _ (shop : Shop) (h : IsOrdering shop.server) (t : Tables) where
  list-IsOwned :
      (req : Request) (user_id : ℕ) (w : World) (rows : List Order)
      → w.tables ≡ t
      → orders_shown (handle shop list_orders req (some user_id) w).0 ≡ some rows
      → AllRows (IsOwned t user_id) rows
  unfolding handle
  list-IsOwned req user_id w rows same e =
      subst (λ u. AllRows (IsOwned u user_id) rows) same
        (present-orders (AllRows (IsOwned w.tables user_id)) _ rows
          (orders_reply-Shows shop.env shop.server shop.lower shop.first h shop.fired user_id
            req.list_body w)
          e)

  Admitted-IsOwn :
      (e : Endpoint) (req : Request) (rows : List Order) {r : Reply Body × World}
      → Admitted shop.env t req.cookie (λ user_id w'. handle shop e req (some user_id) w') r
      → orders_shown r.0 ≡ some rows
      → IsOwn shop.env t req.cookie rows
  Admitted-IsOwn e req rows (turned_away b) eq = absurd (cc)
  Admitted-IsOwn e req rows (let_in {w} session_id user_id given owner b) eq =
      elim (handle-cases shop e) [
        | inl same ↦ record {
          session_id = session_id;
          user_id = user_id;
          given = given;
          owner = owner;
          own = list-IsOwned req user_id w rows b.same_tables (
              subst
                (λ (x : Endpoint). orders_shown (handle shop x req (some user_id) w).0 ≡ some rows)
                same eq);
        }
        | inr silent ↦ absurd (cc (silent req (some user_id) w, eq))
      ]

  module _ (vars : Dict String) (find : List Route → Method → String → Option Route)
      (miss : Request → World → Reply Body × World) (sound : IsSound find)
      (quiet : (req : Request) (w : World) → orders_shown (miss req w).0 ≡ none) where
    Guarded-IsOwn :
        (req : Request) (w : World) (rows : List Order) {r : Reply Body × World}
        → Guarded shop vars find miss sound t req w r
        → orders_shown r.0 ≡ some rows
        → IsOwn shop.env t req.cookie rows
    Guarded-IsOwn req w rows (missed unknown) eq = absurd (cc (quiet req w, eq))
    Guarded-IsOwn req w rows (public e asks g) eq =
        absurd (cc (unseen shop e req none w (λ u. absurd (cc (u, g))), eq))
    Guarded-IsOwn req w rows (for_user e asks g admitted) eq = Admitted-IsOwn e req rows admitted eq
    Guarded-IsOwn req w rows (for_robot e asks g filled valid) eq =
        absurd (cc (unseen shop e req none w (λ u. absurd (cc (u, g))), eq))
    Guarded-IsOwn req w rows (no_robot e asks g why) eq = absurd (cc)

    -- Where the server's ORDER BY permutes the rows, chi finds only routes that are there and sends no
    -- orders of its own, and rows stand behind the caches: whatever the request, if the reply holds
    -- orders, then the cookie of the request names a session, a row of the tables gives this session to
    -- a user, and each of the orders belongs to that user and has the id and the owner of a row.
    pub serve-IsOwn :
        (req : Request) (w : World) (rows : List Order)
        → IsBacked shop.env t w
        → orders_shown (serve shop vars find miss req w).0 ≡ some rows
        → IsOwn shop.env t req.cookie rows
    serve-IsOwn req w rows b eq =
        Guarded-IsOwn req w rows (serve-Guarded shop vars find miss sound t req w b) eq
