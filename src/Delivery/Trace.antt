-- ===== src/Delivery/Trace.antt =====
-- The nodes that `selectOrdersForDelivery` leaves behind: what following them yields.
use snake_42tokyo_tuning.Base.{
  ℕ, zero, suc, ◌≤◌, ◌<◌, ◌≡◌, Option, none, some, List, [], ◌∷◌, ◌++◌, reverse, append_assoc,
  append-nil, ap, sym, length, get_elem?, take, arith, ok, get_elem?_bound, get_elem?-append_left,
}
use mathlib.Core.Option.{some-injective}
use mathlib.Core.List.{reverse-append}
use snake_42tokyo_tuning.Model.{Order}
use snake_42tokyo_tuning.Delivery.Table.{PathNode, follow}
use snake_42tokyo_tuning.Delivery.Spec.{Sub, keep, Sub-nil, Sub-append}

abbrev pub Below : Option ℕ → ℕ → Type 0
Below none n = Unit
Below (some i) n = i < n

pub Below-mono : (i : Option ℕ) {n m : ℕ} → Below i n → n ≤ m → Below i m
Below-mono none b h = tt
Below-mono (some i) b h = omega arith

module _ (positives : List Order) where
  -- From `idx` the nodes lead to `chosen`, all of it from the first `k` orders, latest first.
  pub data Chain (paths : List PathNode) : (k : ℕ) → Option ℕ → List Order → Type 0 where
    stop : {k : ℕ} → Chain paths k none []
    link :
        {k idx : ℕ} {node : PathNode} {order : Order} {chosen : List Order}
        → get_elem? paths idx ≡ some node
        → node.item_index < k
        → get_elem? positives node.item_index ≡ some order
        → Below node.prev_idx idx
        → Chain paths node.item_index node.prev_idx chosen
        → Chain paths k (some idx) (order ∷ chosen)

  pub Chain-bound :
      {paths : List PathNode} {k : ℕ} {start : Option ℕ} {chosen : List Order}
      → Chain paths k start chosen
      → Below start (length paths)
  Chain-bound stop = tt
  Chain-bound (link {idx} at _ _ _ _) = get_elem?_bound _ idx at

  -- More orders and more nodes change nothing.
  pub Chain-weaken :
      {paths : List PathNode} {k : ℕ} {start : Option ℕ} {chosen : List Order}
      → Chain paths k start chosen
      → (more : List PathNode) (j : ℕ) → k ≤ j
      → Chain (paths ++ more) j start chosen
  Chain-weaken stop more j h = stop
  Chain-weaken (link {idx} {node} at before order below rest) more j h =
      link (get_elem?-append_left _ more idx at) (omega arith) order below
        (Chain-weaken rest more node.item_index (omega arith))

  pub Chain-later :
      {paths : List PathNode} {k : ℕ} {start : Option ℕ} {chosen : List Order}
      → Chain paths k start chosen
      → (j : ℕ) → k ≤ j
      → Chain paths j start chosen
  Chain-later stop j h = stop
  Chain-later (link at before order below rest) j h = link at (omega arith) order below rest

  -- `follow` appends the orders of the chain, given as much fuel as there are nodes.
  pub follow-eq-append :
      {paths : List PathNode} {k : ℕ} {start : Option ℕ} {chosen : List Order}
      → Chain paths k start chosen
      → (fuel : ℕ) (selected : List Order) → Below start fuel
      → follow positives paths fuel start selected ≡ ok (selected ++ chosen)
  unfolding follow
  follow-eq-append stop zero selected h = ap ok (sym (append-nil selected))
  follow-eq-append stop (suc f) selected h = ap ok (sym (append-nil selected))
  follow-eq-append (link {idx} {node} {order} {chosen} at before o below rest) zero selected h =
      absurd (omega arith)
  follow-eq-append (link {idx} {node} {order} {chosen} at before o below rest) (suc f) selected h =
      rw
        (
          at,
          o,
          follow-eq-append rest f (selected ++ order ∷ [])
              (Below-mono node.prev_idx below (omega arith)),
        )
        (ap ok (append_assoc selected (order ∷ []) chosen))

  take-suc :
      (xs : List Order) (i k : ℕ) {o : Order}
      → get_elem? xs i ≡ some o
      → i < k
      → (rest : List Order) × (take k xs ≡ take i xs ++ o ∷ rest)
  take-suc [] i k e h = absurd (cc)
  take-suc (x ∷ xs) zero zero e h = absurd (omega arith)
  take-suc (x ∷ xs) zero (suc k) e h = (take k xs, ap (λ y. y ∷ take k xs) (some-injective _ _ e))
  take-suc (x ∷ xs) (suc i) zero e h = absurd (omega arith)
  take-suc (x ∷ xs) (suc i) (suc k) e h =
      let (rest, p) = take-suc xs i k e (omega arith) in (rest, rw p)

  -- Read backwards a chain is a selection of the first `k` orders.
  pub Chain-Sub :
      {paths : List PathNode} {k : ℕ} {start : Option ℕ} {chosen : List Order}
      → Chain paths k start chosen
      → Sub (reverse chosen) (take k positives)
  Chain-Sub stop = Sub-nil _
  Chain-Sub (link {k} {node} {order} {chosen} at before o below rest) =
      let (later, p) = take-suc positives node.item_index k o before in
      rw (p, reverse-append (order ∷ []) chosen)
        (Sub-append (Chain-Sub rest) (keep (Sub-nil later)))
