-- ===== src/Bench/Sample.antt =====
-- The orders that `main2` of benchmarker/worker/test_sample_requests_push_generator.go makes. The
-- answers of `rand.Intn` are a parameter; how they are printed is left out.
use snake_42tokyo_tuning.Base.{
  ℕ, zero, suc, ◌+◌, ◌-◌, ◌≤◌, ◌<◌, ◌≡◌, refl, ap, List, [], ◌∷◌, length, arith,
}

pub record Item : Type 0 where
  pub product_id : ℕ
  pub quantity : ℕ

pub record Order : Type 0 where
  pub items : List Item

-- `rand.Intn(highest-lowest+1) + lowest`, at the call of a number.
unfoldable pub between : (intn : ℕ → ℕ → ℕ) → (call lowest highest : ℕ) → ℕ
between intn call lowest highest = intn call (highest - lowest + 1) + lowest

module _ (intn : ℕ → ℕ → ℕ) where
  -- The inner loop; two calls for an item.
  unfoldable pub make_items : (count call : ℕ) → List Item
  unfolding between
  make_items zero call = []
  make_items (suc count) call =
      record { product_id = between intn call 1 1000; quantity = between intn (call + 1) 1 10 }
      ∷ make_items count (call + 2)

  -- The outer loop; the calls for an order are one and two for each of its items.
  unfoldable pub make_orders : (count call : ℕ) → List Order
  unfolding between make_items
  make_orders zero call = []
  make_orders (suc count) call =
      record { items = make_items (between intn call 1 5) (call + 1) }
      ∷ make_orders count (call + 1 + between intn call 1 5 + between intn call 1 5)

  unfoldable pub main2 : List Order
  unfolding make_orders
  main2 = make_orders 100 0

abbrev pub AllItems : List Item → Type 0
AllItems [] = Unit
AllItems (i ∷ is) =
    ((1 ≤ i.product_id) × (i.product_id ≤ 1000) × (1 ≤ i.quantity) × (i.quantity ≤ 10))
    × AllItems is

abbrev pub AllOrders : List Order → Type 0
AllOrders [] = Unit
AllOrders (o ∷ os) = ((1 ≤ length o.items) × (length o.items ≤ 5) × AllItems o.items) × AllOrders os

module _ (intn : ℕ → ℕ → ℕ) (below : (call n : ℕ) → 0 < n → intn call n < n) where
  between-bounds :
      (call lowest highest : ℕ)
      → lowest ≤ highest
      → (lowest ≤ between intn call lowest highest) × (between intn call lowest highest ≤ highest)
  unfolding between
  between-bounds call lowest highest h =
      let b = below call (highest - lowest + 1) (omega arith) in (omega arith, omega arith)

  make_items-AllItems : (count call : ℕ) → AllItems (make_items intn count call)
  unfolding make_items
  make_items-AllItems zero call = tt
  make_items-AllItems (suc count) call =
      let id = between-bounds call 1 1000 (omega arith) in
      let many = between-bounds (call + 1) 1 10 (omega arith) in
      ((id.0, id.1, many.0, many.1), make_items-AllItems count (call + 2))

  length-make_items : (count call : ℕ) → length (make_items intn count call) ≡ count
  unfolding make_items
  length-make_items zero call = refl
  length-make_items (suc count) call = ap suc (length-make_items count (call + 2))

  length-make_orders : (count call : ℕ) → length (make_orders intn count call) ≡ count
  unfolding make_orders
  length-make_orders zero call = refl
  length-make_orders (suc count) call = ap suc (length-make_orders count _)

  make_orders-AllOrders : (count call : ℕ) → AllOrders (make_orders intn count call)
  unfolding make_orders
  make_orders-AllOrders zero call = tt
  make_orders-AllOrders (suc count) call =
      let b = between-bounds call 1 5 (omega arith) in
      let size = length-make_items (between intn call 1 5) (call + 1) in
      (
        (omega arith, omega arith, make_items-AllItems (between intn call 1 5) (call + 1)),
        make_orders-AllOrders count _,
      )

  -- Where `rand.Intn(n)` is below `n`, the sample is 100 orders, each of 1 to 5 items, with the products
  -- 1 to 1000 and the quantities 1 to 10.
  pub main2-AllOrders : (length (main2 intn) ≡ 100) × AllOrders (main2 intn)
  unfolding main2
  main2-AllOrders = (length-make_orders 100 0, make_orders-AllOrders 100 0)
