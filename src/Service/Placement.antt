-- ===== src/Service/Placement.antt =====
-- What `ProductService.CreateOrders` of webapp/backend/internal/service/product.go leaves behind.
use mathlib.Core.List.{Permᴰ}
use text.Mathlib.Text.{◌==◌ as str_eq}
use snake_42tokyo_tuning.Base.{
  ℕ, zero, suc, none, ◌+◌, ◌≡◌, refl, sym, ap, ◌∙◌, subst, ◌&&◌, List, [], ◌∷◌, ◌++◌, append-nil,
  append_assoc, ◌==◌, ==_iff, if◌then◌else◌, Bool-cases, inl, inr, Ends, value, error, arith,
}
use snake_42tokyo_tuning.Model.{RequestItem, Error}
use snake_42tokyo_tuning.Store.Db.{OrderRow, Tables, World, Env}
use snake_42tokyo_tuning.Store.Orders.{
  insert_order, create, has_user, find_product, is_some, foreign_key_error, shipping,
}
use snake_42tokyo_tuning.Store.Rows.{IsConsistent, insert_order-IsConsistent}
use snake_42tokyo_tuning.Service.Counter.{create_orders-Grows}
use snake_42tokyo_tuning.Store.Counter.{RolledBack, Reverted-RolledBack}
use snake_42tokyo_tuning.Store.Leaves.{
  Leaves, done, Failure, Leaves-bind, Leaves-map, exec-Leaves, exec_tx-Leaves,
}
use snake_42tokyo_tuning.Service.Wanted.{wanted, amount, amount-Perm, amount-eq-wanted}
use snake_42tokyo_tuning.Service.Product.{
  Quantities, collect, create_many, create_all, create_in_tx, create_orders,
}

-- The numbers of rows.
unfoldable pub row_ids : List OrderRow → List ℕ
row_ids [] = []
row_ids (r ∷ rs) = r.order_id ∷ row_ids rs

-- How many of the rows are orders of the user for the product, in shipping.
unfoldable pub count_placed : (user_id product_id : ℕ) → List OrderRow → ℕ
count_placed user_id product_id [] = 0
count_placed user_id product_id (r ∷ rs) =
    (if r.user_id == user_id && (r.product_id == product_id && str_eq r.shipped_status shipping)
      then 1
      else 0)
    + count_placed user_id product_id rs

-- The rows are orders of the user in shipping.
abbrev pub AllOwned : (user_id : ℕ) → List OrderRow → Type 0
AllOwned user_id [] = Unit
AllOwned user_id (r ∷ rs) =
    (r.user_id ≡ user_id) × (r.shipped_status ≡ shipping) × AllOwned user_id rs

-- The only change from `t` to `t'` are new rows with these ids: `f p` orders for each product `p`.
pub record IsPlaced (user_id : ℕ) (t t' : Tables) (ids : List ℕ) (f : ℕ → ℕ) : Type 0 where
  pub new : List OrderRow
  pub arranged : t' ≡ record t { orders = t.orders ++ new; next_order_id = t'.next_order_id }
  pub returned : ids ≡ row_ids new
  pub owned : AllOwned user_id new
  pub placed : (p : ℕ) → count_placed user_id p new ≡ f p
  pub consistent : IsConsistent t'

row_ids-append : (rs qs : List OrderRow) → row_ids (rs ++ qs) ≡ row_ids rs ++ row_ids qs
unfolding row_ids
row_ids-append [] qs = refl
row_ids-append (r ∷ rs) qs = ap (λ ids. r.order_id ∷ ids) (row_ids-append rs qs)

AllOwned-append :
    (user_id : ℕ) (rs qs : List OrderRow)
    → AllOwned user_id rs
    → AllOwned user_id qs
    → AllOwned user_id (rs ++ qs)
AllOwned-append user_id [] qs h k = k
AllOwned-append user_id (r ∷ rs) qs h k = (h.0, h.1, AllOwned-append user_id rs qs h.2 k)

count_placed-append :
    (user_id p : ℕ) (rs qs : List OrderRow)
    → count_placed user_id p (rs ++ qs) ≡ count_placed user_id p rs + count_placed user_id p qs
unfolding count_placed
count_placed-append user_id p [] qs = omega arith
count_placed-append user_id p (r ∷ rs) qs = omega (arith, count_placed-append user_id p rs qs)

module _ (user_id : ℕ) where
  nothing-IsPlaced : (t : Tables) → IsConsistent t → IsPlaced user_id t t [] (λ p. 0)
  unfolding row_ids count_placed
  nothing-IsPlaced t c = record {
    new = [];
    arranged = ap (λ rs. record t { orders = rs }) (sym (append-nil t.orders));
    returned = refl;
    owned = tt;
    placed = λ p. refl;
    consistent = c;
  }

  IsPlaced-trans :
      {t t1 t2 : Tables} {ids ids' : List ℕ} {f g : ℕ → ℕ}
      → IsPlaced user_id t t1 ids f
      → IsPlaced user_id t1 t2 ids' g
      → IsPlaced user_id t t2 (ids ++ ids') (λ p. f p + g p)
  IsPlaced-trans {t} {t1} {t2} a b = record {
    new = a.new ++ b.new;
    arranged =
        b.arranged
        ∙ ap
            (λ (s : Tables). record s {
              orders = s.orders ++ b.new;
              next_order_id = t2.next_order_id;
            })
            a.arranged
        ∙ ap (λ rs. record t { orders = rs; next_order_id = t2.next_order_id })
            (append_assoc t.orders a.new b.new);
    returned = rw (a.returned, b.returned) (sym (row_ids-append a.new b.new));
    owned = AllOwned-append user_id a.new b.new a.owned b.owned;
    placed = λ p. omega (arith, count_placed-append user_id p a.new b.new, a.placed p, b.placed p);
    consistent = b.consistent;
  }

  IsPlaced-amount :
      {t t' : Tables} {ids : List ℕ} {f g : ℕ → ℕ}
      → ((p : ℕ) → f p ≡ g p)
      → IsPlaced user_id t t' ids f
      → IsPlaced user_id t t' ids g
  IsPlaced-amount e a = record {
    new = a.new;
    arranged = a.arranged;
    returned = a.returned;
    owned = a.owned;
    placed = λ p. a.placed p ∙ e p;
    consistent = a.consistent;
  }

-- A product or the user has no row.
abbrev pub NoKey : Error → Type 0
NoKey e = e ≡ foreign_key_error

module _ (env : Env) (user_id : ℕ) where
  insert_order-Ends :
      (p time : ℕ) (t : Tables)
      → IsConsistent t
      → Ends NoKey
          (λ r. IsPlaced user_id t r.1 (r.0 ∷ []) (λ q. if p == q then 1 else 0))
          (insert_order user_id p time t)
  unfolding insert_order row_ids count_placed
  insert_order-Ends p time t c =
      elim (Bool-cases (has_user user_id t.users && is_some (find_product p t.products))) [
        | inr missing ↦ rw missing (error refl)
        | inl found ↦ rw found (
            value (record {
              new = order ∷ [];
              arranged = refl;
              returned = refl;
              owned = (refl, refl, tt);
              placed = λ q. ground (arith, ==_iff user_id user_id);
              consistent =
                  insert_order-IsConsistent user_id p time t.next_order_id t _
                    (rw (found, insert_order) refl) c;
            }))
      ]
    where
      order : OrderRow
      order = record {
        order_id = t.next_order_id;
        user_id = user_id;
        product_id = p;
        shipped_status = shipping;
        created_at = time;
        arrived_at = none;
      }

  create_many-IsPlaced :
      (p n : ℕ) (w : World)
      → IsConsistent w.tables
      → Leaves
          (λ e w'. Failure env NoKey e)
          (λ ids w'. IsPlaced user_id w.tables w'.tables ids (λ q. if p == q then n else 0))
          (create_many env user_id p n w)
  unfolding create_many create
  create_many-IsPlaced p zero w c =
      done (IsPlaced-amount user_id (λ q. ground arith) (nothing-IsPlaced user_id w.tables c))
  create_many-IsPlaced p (suc n) w c =
      Leaves-bind
        (exec-Leaves env NoKey
          (λ id t. IsPlaced user_id w.tables t (id ∷ []) (λ q. if p == q then 1 else 0)) _ w
          λ time. insert_order-Ends p time w.tables c)
        λ id w1 one. Leaves-bind (create_many-IsPlaced p n w1 one.consistent) λ ids w2 more.
          done (IsPlaced-amount user_id (λ q. ground arith) (IsPlaced-trans user_id one more))

  create_all-IsPlaced :
      (m : Quantities) (w : World)
      → IsConsistent w.tables
      → Leaves
          (λ e w'. Failure env NoKey e)
          (λ ids w'. IsPlaced user_id w.tables w'.tables ids (λ q. amount q m))
          (create_all env user_id m w)
  unfolding create_all amount
  create_all-IsPlaced [] w c = done (nothing-IsPlaced user_id w.tables c)
  create_all-IsPlaced ((p, n) ∷ m) w c =
      Leaves-bind (create_many-IsPlaced p n w c) λ ids w1 some_orders.
        Leaves-bind (create_all-IsPlaced m w1 some_orders.consistent)
          λ ids' w2 more. done (IsPlaced-trans user_id some_orders more)

  create_in_tx-IsPlaced :
      (visit : Quantities → Quantities) (m : Quantities) (w : World)
      → Permᴰ (visit m) m
      → IsConsistent w.tables
      → Leaves
          (λ e w'. Failure env NoKey e)
          (λ ids w'. IsPlaced user_id w.tables w'.tables ids (λ q. amount q m))
          (create_in_tx env user_id visit m w)
  unfolding create_in_tx amount
  create_in_tx-IsPlaced visit [] w h c =
      done (IsPlaced-amount user_id (λ q. refl) (nothing-IsPlaced user_id w.tables c))
  create_in_tx-IsPlaced visit (x ∷ m) w h c =
      Leaves-map (create_all-IsPlaced (visit (x ∷ m)) w c) (λ e w' q. q)
        λ ids w' placed. IsPlaced-amount user_id (λ q. amount-Perm q h) placed

  -- `CreateOrders`, from consistent tables, if `range` visits each entry of the map once. It never
  -- panics. Either it ends well: then the only change of the tables are new rows, whose ids it
  -- returns; they are orders of the user in shipping, for each product as many as the last item of
  -- the product with a positive quantity asks for; and the tables are consistent. Or it returns an
  -- error of the driver or of a foreign key, the rows are unchanged, and the counter of the order ids is
  -- not turned back.
  pub create_orders-IsPlaced :
      (visit : Quantities → Quantities) (items : List RequestItem) (w : World)
      → ((m : Quantities) → Permᴰ (visit m) m)
      → IsConsistent w.tables
      → Leaves
          (RolledBack env NoKey w.tables)
          (λ ids w'. IsPlaced user_id w.tables w'.tables ids (λ p. wanted p items))
          (create_orders env user_id visit items w)
  unfolding create_orders
  create_orders-IsPlaced visit items w h c =
      Reverted-RolledBack env NoKey w.tables
        (exec_tx-Leaves env NoKey (λ ids t. IsPlaced user_id w.tables t ids (λ p. wanted p items)) _
          w
          λ w1 start.
            subst
              (λ t.
                Leaves (λ e w'. Failure env NoKey e)
                  (λ ids w'. IsPlaced user_id t w'.tables ids (λ p. wanted p items))
                  (create_in_tx env user_id visit (collect items []) w1))
              start
              (Leaves-map
                (create_in_tx-IsPlaced visit (collect items []) w1 (h (collect items []))
                  (subst IsConsistent (sym start) c))
                (λ e w' q. q)
                λ ids w' placed. IsPlaced-amount user_id (λ p. amount-eq-wanted p items) placed))
        (create_orders-Grows env user_id visit items w)
