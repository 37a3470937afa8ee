-- ===== src/Handler/Pages.antt =====
-- The pages of the two lists: webapp/backend/internal/handler/product.go and order.go with the
-- LIMIT and OFFSET of webapp/backend/internal/repository/.
use Prim.Native.String.{String}
use native.Mathlib.Nat.{zero-add, suc-add, suc-mul, zero-mul, le-mul_of_pos_right}
use snake_42tokyo_tuning.Base.{
  ℕ, zero, suc, ◌+◌, ◌-◌, ◌*◌, ◌<◌, ◌≡◌, refl, sym, ap, Bool, Option, none, some, List, [], ◌∷◌,
  ◌++◌, if◌then◌else◌, take, int_min, le_int, le_int_small, lt→ltb, sub_int_small, mul_int_small,
  Run, ok, arith, ◌>>=◌,
}
use snake_42tokyo_tuning.Model.{Error, ListRequest}
use snake_42tokyo_tuning.Store.Db.{World, Env}
use snake_42tokyo_tuning.Store.Listing.{
  Server, skip, page_of, list_orders, orders_of, order_conditions, order_pattern, order_terms,
}
use snake_42tokyo_tuning.Service.Lists.{fetch_orders}
use snake_42tokyo_tuning.Handler.Requests.{
  with_type, with_page, with_offset, sanitize, prepare_orders, prepare_products,
}
use snake_42tokyo_tuning.Handler.Replies.{orders_reply}

-- What a client collects that asks for the pages 1 to `n` of a list, with the request that the
-- handler makes of its own.
unfoldable pub collect_pages {ℓ} :
    {A : Type ℓ} → (ListRequest → ListRequest) → ListRequest → List A → ℕ → Run Error (List A)
collect_pages prepare req rows zero = ok []
collect_pages prepare req rows (suc n) = do
  earlier ← collect_pages prepare req rows n
  rows' ←
      (let prepared = prepare (record req { page = suc n }) in
        page_of prepared.page_size prepared.offset rows)
  ok (earlier ++ rows')

take-nil {ℓ} : {A : Type ℓ} (n : ℕ) → take {A = A} n [] ≡ []
take-nil zero = refl
take-nil (suc n) = refl

take-append_skip {ℓ} :
    {A : Type ℓ} (a b : ℕ) (xs : List A) → take (a + b) xs ≡ take a xs ++ take b (skip a xs)
unfolding skip
take-append_skip zero b [] = rw (zero-add b) refl
take-append_skip zero b (x ∷ xs) = rw (zero-add b) refl
take-append_skip (suc a) b [] = rw (suc-add a b) (sym (take-nil b))
take-append_skip (suc a) b (x ∷ xs) = rw (suc-add a b) (ap (λ ys. x ∷ ys) (take-append_skip a b xs))

-- The limit and the offset of a page of products.
module _ (lower : String → String) (req : ListRequest) (n : ℕ) (positive : 0 < req.page_size)
    (small : suc n * req.page_size < int_min) where
  size_small : req.page_size < int_min
  size_small = omega (arith, suc-mul n req.page_size)

  page_small : suc n < int_min
  page_small = omega (arith, le-mul_of_pos_right (suc n) positive)

  size_kept : (if le_int req.page_size 0 then 20 else req.page_size) ≡ req.page_size
  size_kept = rw (le_int_small req.page_size 0 size_small (omega arith)) (ground arith)

  page_kept : (if le_int (suc n) 0 then 1 else suc n) ≡ suc n
  page_kept = rw (le_int_small (suc n) 0 page_small (omega arith)) (ground arith)

  page_before : suc n - 1 ≡ n
  page_before = omega arith

  prepared_size : (prepare_products lower (record req { page = suc n })).page_size ≡ req.page_size
  unfolding prepare_products with_offset sanitize with_page
  prepared_size = size_kept

  prepared_offset :
      (prepare_products lower (record req { page = suc n })).offset ≡ n * req.page_size
  unfolding prepare_products with_offset sanitize with_page
  prepared_offset =
      rw (size_kept, page_kept, sub_int_small (suc n) 1 (omega arith) page_small, page_before)
        (mul_int_small n req.page_size (omega (arith, suc-mul n req.page_size)))

  page_of-prepared {ℓ} :
      {A : Type ℓ} (rows : List A)
      → page_of
          (prepare_products lower (record req { page = suc n })).page_size
          (prepare_products lower (record req { page = suc n })).offset
          rows
        ≡ ok (take req.page_size (skip (n * req.page_size) rows))
  unfolding page_of
  page_of-prepared rows =
      rw
        (
          prepared_size,
          prepared_offset,
          lt→ltb req.page_size int_min size_small,
          lt→ltb (n * req.page_size) int_min (omega (arith, suc-mul n req.page_size)),
        )
        refl

-- The pages 1 to `n` of the product list, put together, are the first `n` times page size rows of the
-- list, for a positive page size and while `n` times the page size is below 2 ^ 63.
pub collect_pages-products {ℓ} :
    {A : Type ℓ} (lower : String → String) (req : ListRequest) (rows : List A) (n : ℕ)
    → 0 < req.page_size
    → n * req.page_size < int_min
    → collect_pages (prepare_products lower) req rows n ≡ ok (take (n * req.page_size) rows)
unfolding collect_pages
collect_pages-products lower req rows zero positive small = rw (zero-mul req.page_size) refl
collect_pages-products lower req rows (suc n) positive small =
    rw
      (
        collect_pages-products lower req rows n positive (omega (arith, suc-mul n req.page_size)),
        page_of-prepared lower req n positive small rows,
        suc-mul n req.page_size,
      )
      (ap ok (sym (take-append_skip (n * req.page_size) req.page_size rows)))

-- The order list does not read the page: with any two pages `OrderHandler.List` sends the
-- same reply, from the same state, to the same user.
pub orders_reply-ignores_page :
    (env : Env) (server : Server) (lower : String → String) (first : Bool) (fired : Option Error)
    (user : Option ℕ) (req : ListRequest) (p q : ℕ) (w : World)
    → orders_reply env server lower first fired user (some (record req { page = p })) w
      ≡ orders_reply env server lower first fired user (some (record req { page = q })) w
unfolding orders_reply fetch_orders list_orders orders_of order_conditions order_pattern order_terms
    prepare_orders with_type sanitize with_page
orders_reply-ignores_page env server lower first fired none req p q w = refl
orders_reply-ignores_page env server lower first fired (some user_id) req p q w = refl
