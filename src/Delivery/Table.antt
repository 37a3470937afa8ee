-- ===== src/Delivery/Table.antt =====
-- The dynamic programme of `selectOrdersForDelivery` in webapp/backend/internal/service/robot.go:
-- the table over capacities, the nodes that record a selection, and the loops over them.
use snake_42tokyo_tuning.Base.{
  ℕ, zero, suc, ◌%◌, Option, none, some, List, [], ◌∷◌, ◌++◌, ◌==◌, if◌then◌else◌, length,
  get_elem?, add_int, sub_int, lt_int, le_int, make_ints, Run, ok, err, no_fuel, ◌>>=◌, index,
  store,
}
use snake_42tokyo_tuning.Model.{Order, Error}

-- What the polls of the context answer: `ctx.Err()` before the round of order `i`, and the
-- `select` on `ctx.Done()` after step `n`. The `none` of `at_step` is the `default` case.
pub record Context : Type 0 where
  pub at_order : ℕ → Option Error
  pub at_step : ℕ → Option Error

-- `none` is the -1 of the source, in `prevIdx` and in `bestPathIdx`.
pub record PathNode : Type 0 where
  pub item_index : ℕ
  pub prev_idx : Option ℕ

pub record Table : Type 0 where
  pub best_value : List ℕ
  pub best_path_idx : List (Option ℕ)
  pub paths : List PathNode
  pub steps : ℕ

abbrev pub check_every : ℕ
check_every = 4096

-- The two slices of the length `effectiveCap+1`, and no node. The capacity of `paths` is that of a slice
-- that is there, of larger elements, so this `make` does not panic.
unfoldable pub new_table : ℕ → Run Error Table
new_table effective_cap = do
  values ← make_ints (add_int effective_cap 1) 0
  idxs ← make_ints (add_int effective_cap 1) none
  ok (record { best_value = values; best_path_idx = idxs; paths = []; steps = 0 })

-- The writes of a better candidate, and the node that records it.
unfoldable pub improve : (i source current_cap candidate : ℕ) → Table → Run Error Table
improve i source current_cap candidate t = do
  values ← store t.best_value current_cap candidate
  prev ← index (get_elem? t.best_path_idx source)
  idxs ← store t.best_path_idx current_cap (some (length t.paths))
  ok (record t {
    best_value = values;
    best_path_idx = idxs;
    paths = t.paths ++ record { item_index = i; prev_idx = prev } ∷ [];
  })

-- The body of the loop over `currentCap`, up to `steps++`.
unfoldable pub relax_cell : (i w v current_cap : ℕ) → Table → Run Error Table
relax_cell i w v current_cap t = do
  let source = sub_int current_cap w
  reached ← index (get_elem? t.best_value source)
  let candidate = add_int reached v
  current ← index (get_elem? t.best_value current_cap)
  if lt_int current candidate then improve i source current_cap candidate t else ok t

-- `steps++`, and the poll of every 4096th step.
unfoldable pub count_step : Context → Table → Run Error Table
count_step ctx t =
    let n = add_int t.steps 1 in
    let t' : Table = record t { steps = n } in
    if n % check_every == 0 then elim (ctx.at_step n) [ none ↦ ok t' | some e ↦ err e ] else ok t'

-- `for currentCap := effectiveCap; currentCap >= w; currentCap--`
unfoldable pub relax_row : Context → (i w v fuel current_cap : ℕ) → Table → Run Error Table
relax_row ctx i w v zero current_cap t = no_fuel
relax_row ctx i w v (suc fuel) current_cap t =
    let rest = relax_cell i w v current_cap t >>= λ u.
    count_step ctx u >>= λ u'. relax_row ctx i w v fuel (sub_int current_cap 1) u' in
    if lt_int current_cap w then ok t else rest

-- One round of the loop over `positiveOrders`.
unfoldable pub fill_round : Context → (effective_cap i : ℕ) → Order → Table → Run Error Table
fill_round ctx effective_cap i order t = elim (ctx.at_order i) [
  | some e ↦ err e
  | none ↦
      if lt_int effective_cap order.weight
      then ok t
      else relax_row ctx i order.weight order.value (suc effective_cap) effective_cap t
]

-- `for i, order := range positiveOrders`, from index `i`
unfoldable pub fill : Context → (effective_cap i : ℕ) → List Order → Table → Run Error Table
fill ctx effective_cap i [] t = ok t
fill ctx effective_cap i (order ∷ orders) t =
    fill_round ctx effective_cap i order t >>= fill ctx effective_cap (suc i) orders

-- `for cap := 0; cap <= effectiveCap; cap++`
unfoldable pub find_best :
    (best_value : List ℕ) (effective_cap fuel cap best_cap max_value : ℕ) → Run Error ℕ
find_best best_value effective_cap zero cap best_cap max_value = no_fuel
find_best best_value effective_cap (suc fuel) cap best_cap max_value =
    let rest = index (get_elem? best_value cap) >>= λ found.
    find_best best_value effective_cap fuel (add_int cap 1)
      (if lt_int max_value found then cap else best_cap)
      (if lt_int max_value found then found else max_value) in
    if le_int cap effective_cap then rest else ok best_cap

-- `for idx := bestPathIdx[bestCap]; idx != -1; idx = paths[idx].prevIdx`
unfoldable pub follow :
    (positives : List Order) (paths : List PathNode) (fuel : ℕ)
    → Option ℕ
    → List Order
    → Run Error (List Order)
follow positives paths fuel none selected = ok selected
follow positives paths zero (some idx) selected = no_fuel
follow positives paths (suc fuel) (some idx) selected = do
  node ← index (get_elem? paths idx)
  order ← index (get_elem? positives node.item_index)
  follow positives paths fuel node.prev_idx (selected ++ order ∷ [])
