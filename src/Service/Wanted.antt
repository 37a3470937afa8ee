-- ===== src/Service/Wanted.antt =====
-- The map of `ProductService.CreateOrders` of webapp/backend/internal/service/product.go, against
-- what a request asks for.
use mathlib.Core.List.{Permᴰ}
use mathlib.Core.List.Permᴰ.{nil, cons, swap, trans}
use snake_42tokyo_tuning.Base.{
  ℕ, ◌+◌, ◌≡◌, refl, sym, ap, ◌∙◌, subst, ◌&&◌, List, [], ◌∷◌, ◌==◌, ==_iff, lt_int, if◌then◌else◌,
  Bool-cases, inl, inr, arith,
}
use snake_42tokyo_tuning.Model.{RequestItem}
use snake_42tokyo_tuning.Service.Product.{Quantities, put, collect}

-- How many orders of a product a request asks for: the quantity of its last item with a positive
-- quantity.
unfoldable pub wanted : ℕ → List RequestItem → ℕ
wanted p [] = 0
wanted p (item ∷ items) =
    let later = wanted p items in
    if later == 0
    then (if item.product_id == p && lt_int 0 item.quantity then item.quantity else 0)
    else later

-- The quantity of a product, by addition.
unfoldable pub amount : ℕ → Quantities → ℕ
amount p [] = 0
amount p ((j, r) ∷ m) = (if j == p then r else 0) + amount p m

-- Each product has one entry.
abbrev IsMap : Quantities → Type 0
IsMap [] = Unit
IsMap ((j, r) ∷ m) = (amount j m ≡ 0) × IsMap m

amount-put :
    (p k q : ℕ) (m : Quantities)
    → IsMap m
    → amount p (put k q m) ≡ (if k == p then q else amount p m)
unfolding amount put
amount-put p k q [] h = ground arith
amount-put p k q ((j, r) ∷ m) h =
    ground
      (arith, ==_iff j k, ==_iff k p, ==_iff j p, ap (λ i. amount i m), h.0, amount-put p k q m h.1)

put-IsMap : (k q : ℕ) (m : Quantities) → IsMap m → IsMap (put k q m)
unfolding put amount
put-IsMap k q [] h = (refl, tt)
put-IsMap k q ((j, r) ∷ m) h = elim (Bool-cases (j == k)) [
  | inl same ↦ rw same (subst (λ i. amount i m ≡ 0) ((==_iff j k).0 same) h.0, h.1)
  | inr differs ↦
      rw differs (amount-put j k q m h.1 ∙ ground (arith, differs, h.0), put-IsMap k q m h.1)
]

amount-collect :
    (p : ℕ) (items : List RequestItem) (m : Quantities)
    → IsMap m
    → amount p (collect items m) ≡ (if wanted p items == 0 then amount p m else wanted p items)
unfolding collect wanted lt_int
amount-collect p [] m h = refl
amount-collect p (item ∷ items) m h = elim (Bool-cases (lt_int 0 item.quantity)) [
  | inl positive ↦ rw (positive) (
      amount-collect p items (put item.product_id item.quantity m) (put-IsMap _ _ m h)
      ∙ ground (arith, positive, amount-put p item.product_id item.quantity m h))
  | inr not_positive ↦ rw (not_positive) (amount-collect p items m h ∙ ground (arith, not_positive))
]

pub amount-Perm : {m m' : Quantities} (p : ℕ) → Permᴰ m m' → amount p m ≡ amount p m'
unfolding amount
amount-Perm p nil = refl
amount-Perm p (cons {b = (j, r)} same h) =
    rw same (ap (λ n. (if j == p then r else 0) + n) (amount-Perm p h))
amount-Perm p (swap {a = (j, r)} {b = (k, s)} {l} e f) = rw (sym e, sym f) (omega arith)
amount-Perm p (trans h k) = amount-Perm p h ∙ amount-Perm p k

-- The map of a request holds for each product what the request asks for.
pub amount-eq-wanted :
    (p : ℕ) (items : List RequestItem) → amount p (collect items []) ≡ wanted p items
unfolding amount
amount-eq-wanted p items = amount-collect p items [] tt ∙ ground arith
