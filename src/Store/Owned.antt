-- ===== src/Store/Owned.antt =====
-- Whose orders webapp/backend/internal/repository/order.go lists.
use mathlib.Core.List.{Memᴰ, Permᴰ}
use mathlib.Core.List.Memᴰ.{head, tail}
use mathlib.Core.List.Permᴰ.{nil, cons, swap, trans}
use snake_42tokyo_tuning.Base.{
  ℕ, zero, suc, ◌≡◌, refl, sym, subst, true, Option-cases, Bool-cases, inl, inr, List, [], ◌∷◌,
  ◌==◌, ==_iff, take,
}
use snake_42tokyo_tuning.Model.{Product, Order, ListRequest}
use snake_42tokyo_tuning.Store.Db.{OrderRow, Tables}
use snake_42tokyo_tuning.Store.Orders.{find_product}
use snake_42tokyo_tuning.Store.Listing.{
  Server, skip, join_products, order_conditions, order_holds, order_terms, all_hold, select_where,
  orders_of,
}
use snake_42tokyo_tuning.Store.Paging.{IsPage, IsOrdering}

abbrev pub AllRows {ℓ ν} : {A : Type ℓ} → (A → Type ν) → List A → Type ν
AllRows P [] = Unit
AllRows P (x ∷ xs) = P x × AllRows P xs

module _ {ℓ ν} {A : Type ℓ} (P : A → Type ν) where
  AllRows-take : (n : ℕ) (xs : List A) → AllRows P xs → AllRows P (take n xs)
  AllRows-take zero xs h = tt
  AllRows-take (suc n) [] h = tt
  AllRows-take (suc n) (x ∷ xs) h = (h.0, AllRows-take n xs h.1)

  AllRows-skip : (n : ℕ) (xs : List A) → AllRows P xs → AllRows P (skip n xs)
  unfolding skip
  AllRows-skip n [] h = tt
  AllRows-skip zero (x ∷ xs) h = h
  AllRows-skip (suc n) (x ∷ xs) h = AllRows-skip n xs h.1

  AllRows-Permᴰ : {xs ys : List A} → Permᴰ xs ys → AllRows P ys → AllRows P xs
  AllRows-Permᴰ nil h = tt
  AllRows-Permᴰ (cons e p) h = (subst P (sym e) h.0, AllRows-Permᴰ p h.1)
  AllRows-Permᴰ (swap e f) h = (subst P (sym e) h.1.0, (subst P (sym f) h.0, h.1.1))
  AllRows-Permᴰ (trans p q) h = AllRows-Permᴰ p (AllRows-Permᴰ q h)

-- The order of a row of the table.
abbrev pub IsRow : Order → List OrderRow → Type 0
IsRow o rows = (r : OrderRow) × Memᴰ r rows × (r.order_id ≡ o.order_id) × (r.user_id ≡ o.user_id)

-- An order of a user.
pub record IsOwned (t : Tables) (user_id : ℕ) (o : Order) : Type 0 where
  pub owner : o.user_id ≡ user_id
  pub stored : IsRow o t.orders

join_products-AllRows :
    (products : List Product) (rows all : List OrderRow)
    → ((r : OrderRow) → Memᴰ r rows → Memᴰ r all)
    → AllRows (λ o. IsRow o all) (join_products products rows)
unfolding join_products
join_products-AllRows products [] all within = tt
join_products-AllRows products (r ∷ rs) all within =
    let rest = join_products-AllRows products rs all (λ q m. within q (tail m)) in
    elim (Option-cases (find_product r.product_id products)) [
      | inl missing ↦ rw (join_products, missing) rest
      | inr (p, found) ↦ rw (join_products, found) ((r, within r (head refl), refl, refl), rest)
    ]

module _ (server : Server) where
  -- The first condition of the statement.
  order_conditions-owner :
      (user_id : ℕ) (req : ListRequest) (o : Order)
      → all_hold server (order_holds server) (order_conditions user_id req) o ≡ true
      → o.user_id ≡ user_id
  unfolding all_hold order_conditions order_holds
  order_conditions-owner user_id req o h = elim (Bool-cases (o.user_id == user_id)) [
    | inl same ↦ (==_iff o.user_id user_id).0 same
    | inr another ↦ absurd (cc (rw another at h))
  ]

  select_where-AllRows :
      (user_id : ℕ) (req : ListRequest) (t : Tables) (rows : List Order)
      → AllRows (λ o. IsRow o t.orders) rows
      → AllRows
          (IsOwned t user_id)
          (select_where server (order_holds server) (order_conditions user_id req) rows)
  unfolding select_where
  select_where-AllRows user_id req t [] h = tt
  select_where-AllRows user_id req t (o ∷ rows) h =
      let rest = select_where-AllRows user_id req t rows h.1 in
      elim (Bool-cases (all_hold server (order_holds server) (order_conditions user_id req) o)) [
        | inl chosen ↦
            rw (select_where, chosen)
              (record { owner = order_conditions-owner user_id req o chosen; stored = h.0 }, rest)
        | inr left_out ↦ rw (select_where, left_out) rest
      ]

  pub orders_of-AllRows :
      (user_id : ℕ) (req : ListRequest) (t : Tables)
      → AllRows (IsOwned t user_id) (orders_of server user_id req t)
  unfolding orders_of
  orders_of-AllRows user_id req t =
      select_where-AllRows user_id req t (join_products t.products t.orders)
        (join_products-AllRows t.products t.orders t.orders (λ r m. m))

  pub page-AllRows :
      (h : IsOrdering server) (user_id : ℕ) (req : ListRequest) (t : Tables)
      (answer : List Order × ℕ)
      → IsPage req (server.sort_orders (order_terms req) (orders_of server user_id req t)) answer
      → AllRows (IsOwned t user_id) answer.0
  page-AllRows h user_id req t answer page = subst (AllRows (IsOwned t user_id)) (sym page.rows) (
      AllRows-take (IsOwned t user_id) req.page_size _ (
        AllRows-skip (IsOwned t user_id) req.offset _ (
          AllRows-Permᴰ (IsOwned t user_id) (h.orders (order_terms req) _)
            (orders_of-AllRows user_id req t))))
