-- ===== src/Store/Rows.antt =====
-- What the statements of webapp/backend/internal/repository/order.go do to the rows of `orders`.
use Prim.Native.String.{String}
use snake_42tokyo_tuning.Base.{
  ℕ, suc, ◌+◌, ◌≤◌, ◌<◌, ◌≡◌, refl, ap, subst, Bool, true, false, ◌&&◌, List, [], ◌∷◌, ◌++◌, ◌==◌,
  length, Bool-cases, inl, inr, Run, ok, arith,
}
use snake_42tokyo_tuning.Model.{User, Product, Error}
use snake_42tokyo_tuning.Store.Db.{OrderRow, Tables}
use snake_42tokyo_tuning.Store.Orders.{
  contains, find_product, has_user, shipping, is_some, insert_order, set_statuses,
  count_shipping_rows, clone_rows,
}

-- The numbers of the rows ascend, from `lo` on and below `hi`: each is used once.
abbrev pub Ascending : ℕ → ℕ → List OrderRow → Type 0
Ascending lo hi [] = lo ≤ hi
Ascending lo hi (r ∷ rs) = (lo ≤ r.order_id) × Ascending (suc r.order_id) hi rs

-- The foreign keys of the rows hold.
abbrev pub HasKeys : List User → List Product → List OrderRow → Type 0
HasKeys users products [] = Unit
HasKeys users products (r ∷ rs) =
    (has_user r.user_id users ≡ true)
    × (is_some (find_product r.product_id products) ≡ true)
    × HasKeys users products rs

pub record IsConsistent (t : Tables) : Type 0 where
  pub numbered : Ascending 0 t.next_order_id t.orders
  pub keyed : HasKeys t.users t.products t.orders

Ascending-append :
    (lo mid hi : ℕ) (rs qs : List OrderRow)
    → Ascending lo mid rs
    → Ascending mid hi qs
    → Ascending lo hi (rs ++ qs)
Ascending-append lo mid hi [] [] h k = omega arith
Ascending-append lo mid hi [] (q ∷ qs) h k = (omega arith, k.1)
Ascending-append lo mid hi (r ∷ rs) qs h k =
    (h.0, Ascending-append (suc r.order_id) mid hi rs qs h.1 k)

HasKeys-append :
    (users : List User) (products : List Product) (rs qs : List OrderRow)
    → HasKeys users products rs
    → HasKeys users products qs
    → HasKeys users products (rs ++ qs)
HasKeys-append users products [] qs h k = k
HasKeys-append users products (r ∷ rs) qs h k =
    (h.0, h.1, HasKeys-append users products rs qs h.2 k)

set_statuses-Ascending :
    (ids : List ℕ) (s : String) (lo hi : ℕ) (rs : List OrderRow)
    → Ascending lo hi rs
    → Ascending lo hi (set_statuses ids s rs)
unfolding set_statuses
set_statuses-Ascending ids s lo hi [] h = h
set_statuses-Ascending ids s lo hi (r ∷ rs) h = elim (Bool-cases (contains r.order_id ids)) [
  | inl hit ↦ rw hit (h.0, set_statuses-Ascending ids s (suc r.order_id) hi rs h.1)
  | inr other ↦ rw other (h.0, set_statuses-Ascending ids s (suc r.order_id) hi rs h.1)
]

set_statuses-HasKeys :
    (ids : List ℕ) (s : String) (users : List User) (products : List Product) (rs : List OrderRow)
    → HasKeys users products rs
    → HasKeys users products (set_statuses ids s rs)
unfolding set_statuses
set_statuses-HasKeys ids s users products [] h = h
set_statuses-HasKeys ids s users products (r ∷ rs) h = elim (Bool-cases (contains r.order_id ids)) [
  | inl hit ↦ rw hit (h.0, h.1, set_statuses-HasKeys ids s users products rs h.2)
  | inr other ↦ rw other (h.0, h.1, set_statuses-HasKeys ids s users products rs h.2)
]

clone_rows-Ascending :
    (ids : List ℕ) (now next : ℕ) (rs : List OrderRow)
    → Ascending next (next + length (clone_rows ids now next rs)) (clone_rows ids now next rs)
unfolding clone_rows
clone_rows-Ascending ids now next [] = omega arith
clone_rows-Ascending ids now next (r ∷ rs) = elim (Bool-cases (contains r.order_id ids)) [
  | inl hit ↦ rw hit (
    omega arith,
    subst (λ hi. Ascending (suc next) hi (clone_rows ids now (suc next) rs)) (omega arith)
        (clone_rows-Ascending ids now (suc next) rs),
  )
  | inr other ↦ rw other (clone_rows-Ascending ids now next rs)
]

clone_rows-HasKeys :
    (ids : List ℕ) (now next : ℕ) (users : List User) (products : List Product) (rs : List OrderRow)
    → HasKeys users products rs
    → HasKeys users products (clone_rows ids now next rs)
unfolding clone_rows
clone_rows-HasKeys ids now next users products [] h = tt
clone_rows-HasKeys ids now next users products (r ∷ rs) h =
    elim (Bool-cases (contains r.order_id ids)) [
      | inl hit ↦ rw hit (h.0, h.1, clone_rows-HasKeys ids now (suc next) users products rs h.2)
      | inr other ↦ rw other (clone_rows-HasKeys ids now next users products rs h.2)
    ]

pub insert_order-IsConsistent :
    (user_id product_id now id : ℕ) (t t' : Tables)
    → insert_order user_id product_id now t ≡ ok (id, t')
    → IsConsistent t
    → IsConsistent t'
unfolding insert_order
insert_order-IsConsistent user_id product_id now id t t' done c =
    elim (Bool-cases (has_user user_id t.users && is_some (find_product product_id t.products))) [
      | inr missing ↦ absurd (cc (rw (missing, insert_order) at done))
      | inl found ↦ subst IsConsistent (ok_tables (rw (found, insert_order) at done)) (record {
        numbered =
            Ascending-append 0 t.next_order_id (t.next_order_id + 1) t.orders _ c.numbered
              (omega arith);
        keyed =
            HasKeys-append t.users t.products t.orders _ c.keyed (ground arith, ground arith, tt);
      })
    ]
  where
    ok_tables : {a b : ℕ × Tables} → ◌≡◌ {A = Run Error (ℕ × Tables)} (ok a) (ok b) → a.1 ≡ b.1
    ok_tables e = cc

pub set_statuses-IsConsistent :
    (ids : List ℕ) (s : String) (t : Tables)
    → IsConsistent t
    → IsConsistent (record t { orders = set_statuses ids s t.orders })
set_statuses-IsConsistent ids s t c = record {
  numbered = set_statuses-Ascending ids s 0 t.next_order_id t.orders c.numbered;
  keyed = set_statuses-HasKeys ids s t.users t.products t.orders c.keyed;
}

pub clone_rows-IsConsistent :
    (ids : List ℕ) (now : ℕ) (t : Tables)
    → IsConsistent t
    → IsConsistent (record t {
      orders = t.orders ++ clone_rows ids now t.next_order_id t.orders;
      next_order_id = t.next_order_id + length (clone_rows ids now t.next_order_id t.orders);
    })
clone_rows-IsConsistent ids now t c = record {
  numbered =
      Ascending-append 0 t.next_order_id _ t.orders _ c.numbered
        (clone_rows-Ascending ids now t.next_order_id t.orders);
  keyed =
      HasKeys-append t.users t.products t.orders _ c.keyed
        (clone_rows-HasKeys ids now t.next_order_id t.users t.products t.orders c.keyed);
}

-- A row whose number is below all others is not found again.
clone_rows_above :
    (id now next lo hi : ℕ) (rs : List OrderRow)
    → id < lo
    → Ascending lo hi rs
    → clone_rows (id ∷ []) now next rs ≡ []
unfolding clone_rows contains
clone_rows_above id now next lo hi [] below h = refl
clone_rows_above id now next lo hi (r ∷ rs) below h =
    let other : (r.order_id == id) ≡ false = ground arith in
    rw other (clone_rows_above id now next (suc r.order_id) hi rs (omega arith) h.1)

-- Cloning one order makes one row at most.
pub length-clone_rows_one :
    (id now next lo hi : ℕ) (rs : List OrderRow)
    → Ascending lo hi rs
    → length (clone_rows (id ∷ []) now next rs) ≤ 1
unfolding clone_rows contains
length-clone_rows_one id now next lo hi [] h = omega arith
length-clone_rows_one id now next lo hi (r ∷ rs) h = elim (Bool-cases (r.order_id == id)) [
  | inl hit ↦ rw hit (
      omega (
        arith,
        ap length (clone_rows_above id now (suc next) (suc r.order_id) hi rs (ground arith) h.1),
      ))
  | inr other ↦ rw other (length-clone_rows_one id now next (suc r.order_id) hi rs h.1)
]

pub count_shipping_rows-append :
    (same : String → String → Bool) (rs qs : List OrderRow)
    → count_shipping_rows same (rs ++ qs)
      ≡ count_shipping_rows same rs + count_shipping_rows same qs
unfolding count_shipping_rows
count_shipping_rows-append same [] qs = omega arith
count_shipping_rows-append same (r ∷ rs) qs = omega (arith, count_shipping_rows-append same rs qs)

count-le-length :
    (same : String → String → Bool) (rs : List OrderRow) → count_shipping_rows same rs ≤ length rs
unfolding count_shipping_rows
count-le-length same [] = omega arith
count-le-length same (r ∷ rs) = ground (arith, count-le-length same rs)

pub count-clone_rows-le :
    (same : String → String → Bool) (ids : List ℕ) (now next : ℕ) (rs : List OrderRow)
    → count_shipping_rows same (clone_rows ids now next rs) ≤ length (clone_rows ids now next rs)
count-clone_rows-le same ids now next rs = count-le-length same (clone_rows ids now next rs)

-- Leaving the status 'shipping' adds no shipping order.
pub count-set_statuses-le :
    (same : String → String → Bool) (ids : List ℕ) (s : String) (rs : List OrderRow)
    → same s shipping ≡ false
    → count_shipping_rows same (set_statuses ids s rs) ≤ count_shipping_rows same rs
unfolding count_shipping_rows set_statuses
count-set_statuses-le same ids s [] h = omega arith
count-set_statuses-le same ids s (r ∷ rs) h = elim (Bool-cases (contains r.order_id ids)) [
  | inl hit ↦ rw (hit, h) (omega (arith, count-set_statuses-le same ids s rs h))
  | inr other ↦ rw other (omega (arith, count-set_statuses-le same ids s rs h))
]
