-- ===== src/Delivery/Row.antt =====
-- One round of the table of `selectOrdersForDelivery`: what relaxing the cells for one order does.
use snake_42tokyo_tuning.Base.{
  ℕ, ◌+◌, ◌-◌, ◌≤◌, ◌<◌, ◌≡◌, ◌≢◌, refl, ◌∙◌, sym, Option, none, some, List, [], ◌∷◌, ◌++◌, arith,
  length, get_elem?, get_or, set, length-set, get_elem?-eq-get_or, get_or-set_self, get_or-set_ne,
  get_elem?-append_length, int_min, add_int_small, sub_int_small, lt_int_small, ltb, Bool-cases,
  ltb→lt, ltb→le, append-nil, inl, inr, store-eq-ok, Ends, value,
}
use snake_42tokyo_tuning.Model.{Order, Error}
use snake_42tokyo_tuning.Delivery.Table.{Context, PathNode, Table, improve, relax_cell}
use snake_42tokyo_tuning.Delivery.Spec.{
  weights, values, knapsack, knapsack-cons_le, knapsack-le-values,
}
use snake_42tokyo_tuning.Delivery.Trace.{Chain, link, Chain-bound, Chain-weaken}

-- The context answered some poll with an error.
pub data Polled (ctx : Context) : Error → Type 0 where
  at_order : {e : Error} (i : ℕ) → ctx.at_order i ≡ some e → Polled ctx e
  at_step : {e : Error} (n : ℕ) → ctx.at_step n ≡ some e → Polled ctx e

abbrev pub value_at : Table → ℕ → ℕ
value_at t c = get_or t.best_value c 0

abbrev pub start_at : Table → ℕ → Option ℕ
start_at t c = get_or t.best_path_idx c none

module _ (positives : List Order) (effective_cap : ℕ) where
  pub record HasSize (t : Table) : Type 0 where
    pub values_size : length t.best_value ≡ effective_cap + 1
    pub starts_size : length t.best_path_idx ≡ effective_cap + 1

  -- The cell of `c` is right for the orders `os` (latest first): its value is the knapsack value,
  -- and its nodes lead to a selection that fits and has that value.
  pub record Holds (os : List Order) (t : Table) (c : ℕ) : Type 0 where
    pub exact : value_at t c ≡ knapsack os c
    pub chosen : List Order
    pub traced : Chain positives t.paths (length os) (start_at t c) chosen
    pub fits : weights chosen ≤ c
    pub worth : values chosen ≡ knapsack os c

  -- `u` is `t` with the cell of `c` written, at most.
  pub record IsRelaxed (c : ℕ) (t u : Table) : Type 0 where
    pub sized : HasSize u
    pub other_values : (d : ℕ) → d ≢ c → value_at u d ≡ value_at t d
    pub other_starts : (d : ℕ) → d ≢ c → start_at u d ≡ start_at t d
    pub more : List PathNode
    pub grown : u.paths ≡ t.paths ++ more

  -- What a cell keeps when more nodes follow and another list has the same knapsack value.
  pub Holds-transfer :
      {os : List Order} {t : Table} {d : ℕ}
      → Holds os t d
      → (os' : List Order) (u : Table) (more : List PathNode) → length os ≤ length os'
      → knapsack os' d ≡ knapsack os d
      → value_at u d ≡ value_at t d
      → start_at u d ≡ start_at t d
      → u.paths ≡ t.paths ++ more
      → Holds os' u d
  Holds-transfer h os' u more len same v s grown = record {
    exact = v ∙ h.exact ∙ sym same;
    chosen = h.chosen;
    traced = rw (grown, s) (Chain-weaken positives h.traced more _ len);
    fits = h.fits;
    worth = h.worth ∙ sym same;
  }

  module _ (o : Order) (os : List Order) (here : get_elem? positives (length os) ≡ some o) where
    improve-Holds :
        (Q : Error → Type 0) (c : ℕ) (t : Table)
        → o.weight ≤ c
        → c ≤ effective_cap
        → knapsack os c < knapsack os (c - o.weight) + o.value
        → HasSize t
        → Holds os t (c - o.weight)
        → Ends Q
            (λ u. IsRelaxed c t u × Holds (o ∷ os) u c)
            (improve (length os) (c - o.weight) c (knapsack os (c - o.weight) + o.value) t)
    unfolding improve weights values
    improve-Holds Q c t w-le c-le gain s h =
        rw
          (
            store-eq-ok {E = Error} t.best_value c (knapsack os (c - o.weight) + o.value)
                (omega arith),
            get_elem?-eq-get_or t.best_path_idx (c - o.weight) none (omega arith),
            store-eq-ok {E = Error} t.best_path_idx c (some (length t.paths)) (omega arith),
          )
          (value (relaxed, holds))
      where
        u : Table
        u = record t {
          best_value = set t.best_value c (knapsack os (c - o.weight) + o.value);
          best_path_idx = set t.best_path_idx c (some (length t.paths));
          paths =
              t.paths
              ++ record { item_index = length os; prev_idx = start_at t (c - o.weight) } ∷ [];
        }

        relaxed : IsRelaxed c t u
        relaxed = record {
          sized = record {
            values_size = length-set t.best_value c _ ∙ s.values_size;
            starts_size = length-set t.best_path_idx c _ ∙ s.starts_size;
          };
          other_values = λ d n. get_or-set_ne t.best_value c d _ 0 n;
          other_starts = λ d n. get_or-set_ne t.best_path_idx c d _ none n;
          more = _;
          grown = refl;
        }

        ahead : knapsack os (c - o.weight) + o.value ≡ knapsack (o ∷ os) c
        ahead = omega (arith, knapsack-cons_le o os c w-le)

        holds : Holds (o ∷ os) u c
        holds = record {
          exact = get_or-set_self t.best_value c _ 0 (omega arith) ∙ ahead;
          chosen = o ∷ h.chosen;
          traced =
              rw (get_or-set_self t.best_path_idx c (some (length t.paths)) none (omega arith)) (
                link (get_elem?-append_length t.paths [] _) (omega arith) here
                  (Chain-bound positives h.traced)
                  (Chain-weaken positives h.traced _ _ (omega arith)));
          fits = omega (arith, h.fits);
          worth = omega (arith, h.worth, ahead);
        }

    -- The cell of `current_cap` moves on to one order more, and the other cells stay.
    pub relax_cell-Holds :
        (Q : Error → Type 0) (c : ℕ) (t : Table)
        → o.weight ≤ c
        → c ≤ effective_cap
        → effective_cap < int_min
        → values os + o.value < int_min
        → HasSize t
        → Holds os t c
        → Holds os t (c - o.weight)
        → Ends Q
            (λ u. IsRelaxed c t u × Holds (o ∷ os) u c)
            (relax_cell (length os) o.weight o.value c t)
    unfolding relax_cell
    relax_cell-Holds Q c t w-le c-le small fit s h below =
        rw
          (
            sub_int_small c o.weight w-le (omega arith),
            get_elem?-eq-get_or t.best_value (c - o.weight) 0 (omega arith),
            get_elem?-eq-get_or t.best_value c 0 (omega arith),
            below.exact,
            h.exact,
            add_int_small (knapsack os (c - o.weight)) o.value
                (omega (arith, knapsack-le-values os (c - o.weight))),
            lt_int_small (knapsack os c) (knapsack os (c - o.weight) + o.value)
                (omega (arith, knapsack-le-values os c))
                (omega (arith, knapsack-le-values os (c - o.weight))),
          )
          (elim (Bool-cases (ltb (knapsack os c) (knapsack os (c - o.weight) + o.value))) [
            | inl gain ↦ rw gain (improve-Holds Q c t w-le c-le (ltb→lt _ _ gain) s below)
            | inr loss ↦ rw loss (value (unchanged, kept (ltb→le _ _ loss)))
          ])
      where
        unchanged : IsRelaxed c t t
        unchanged = record {
          sized = s;
          other_values = λ d n. refl;
          other_starts = λ d n. refl;
          more = [];
          grown = sym (append-nil t.paths);
        }

        kept : knapsack os (c - o.weight) + o.value ≤ knapsack os c → Holds (o ∷ os) t c
        kept no_gain =
            Holds-transfer h (o ∷ os) t [] (omega arith)
              (omega (arith, knapsack-cons_le o os c w-le)) refl refl (sym (append-nil t.paths))
