-- ===== src/Delivery/Fill.antt =====
-- The filled table of `selectOrdersForDelivery`: every cell is exact, and can be traced back.
use snake_42tokyo_tuning.Base.{
  subst, ◌∙◌, replicate, max_ints, make_ints-ok, make_ints-panic, add_int_small, ok, panic, ℕ, zero,
  suc, ◌+◌, ◌-◌, ◌%◌, ◌≤◌, ◌<◌, ◌≡◌, refl, sym, Option, none, some, List, [], ◌∷◌, ◌++◌, append-nil,
  append_assoc, reverse, get_elem?-append_length, arith, inl, inr, length, get_elem?,
  length-replicate, get_or-replicate, int_min, add_int, sub_int, sub_int_small, lt_int_small, ltb,
  ◌==◌, Bool-cases, Option-cases, ltb→lt, ltb→le, ◌>>=◌, Ends, value, error, Ends-bind,
}
use native.Mathlib.Decide.{dec_lt, ℕ_discrete}
use snake_42tokyo_tuning.Model.{Order}
use snake_42tokyo_tuning.Delivery.Table.{
  Context, Table, check_every, new_table, relax_cell, count_step, relax_row, fill_round, fill,
}
use snake_42tokyo_tuning.Delivery.Spec.{
  weights, values, knapsack, knapsack-cons_lt, ArePositive, reverse-cons, length-reverse,
}
use snake_42tokyo_tuning.Delivery.Trace.{stop}
use snake_42tokyo_tuning.Delivery.Row.{
  Polled, at_order, at_step, HasSize, Holds, IsRelaxed, Holds-transfer, relax_cell-Holds,
}

-- The table before the first round.
abbrev pub blank : ℕ → Table
blank effective_cap = record {
  best_value = replicate (effective_cap + 1) 0;
  best_path_idx = replicate (effective_cap + 1) none;
  paths = [];
  steps = 0;
}

pub new_table-ok :
    (effective_cap : ℕ)
    → effective_cap < max_ints
    → new_table effective_cap ≡ ok (blank effective_cap)
unfolding new_table
new_table-ok effective_cap h =
    rw
      (
        add_int_small effective_cap 1 (omega arith),
        make_ints-ok {A = ℕ} (effective_cap + 1) 0 (omega arith),
        make_ints-ok {A = Option ℕ} (effective_cap + 1) none (omega arith),
      )
      refl

add_int_1 : (a : ℕ) → a < int_min → add_int a 1 ≡ a + 1
unfolding add_int
add_int_1 a h = omega arith

pub new_table-panic :
    (effective_cap : ℕ)
    → effective_cap < int_min
    → max_ints ≤ effective_cap
    → new_table effective_cap ≡ panic
unfolding new_table
new_table-panic effective_cap small h =
    rw
      (make_ints-panic {A = ℕ} (add_int effective_cap 1) 0
        (omega (arith, add_int_1 effective_cap small)))
      refl

new_table-blank :
    (effective_cap : ℕ)
    → effective_cap < int_min
    → (t : Table) → new_table effective_cap ≡ ok t
    → blank effective_cap ≡ t
new_table-blank effective_cap small t made = elim (Bool-cases (ltb effective_cap max_ints)) [
  | inl room ↦ cc (sym (new_table-ok effective_cap (ltb→lt _ _ room)) ∙ made)
  | inr long ↦ absurd (cc (sym (new_table-panic effective_cap small (ltb→le _ _ long)) ∙ made))
]

module _ (ctx : Context) where
  -- Counting a step changes nothing else, and fails only by a poll.
  count_step-steps :
      (t : Table)
      → Ends (Polled ctx) (λ u. (n : ℕ) × (u ≡ record t { steps = n })) (count_step ctx t)
  unfolding count_step
  count_step-steps t = elim (Bool-cases (add_int t.steps 1 % check_every == 0)) [
    | inl poll ↦ rw poll (elim (Option-cases (ctx.at_step (add_int t.steps 1))) [
      | inl quiet ↦ rw quiet (value (_, refl))
      | inr (e, fired) ↦ rw fired (error (at_step _ fired))
    ])
    | inr go ↦ rw go (value (_, refl))
  ]

  module _ (positives : List Order) (effective_cap : ℕ) (small : effective_cap < int_min) where
    pub record IsFilled (os : List Order) (t : Table) : Type 0 where
      pub sized : HasSize positives effective_cap t
      pub cells : (d : ℕ) → d ≤ effective_cap → Holds positives effective_cap os t d

    module _ (o : Order) (os : List Order) (here : get_elem? positives (length os) ≡ some o)
        (positive : 0 < o.weight) (light : o.weight < int_min)
        (fit : values os + o.value < int_min) where
      -- In the row the cells above `c` are new and the others still old.
      record IsPartial (c : ℕ) (t : Table) : Type 0 where
        sized : HasSize positives effective_cap t
        new : (d : ℕ) → d ≤ effective_cap → c < d → Holds positives effective_cap (o ∷ os) t d
        old : (d : ℕ) → d ≤ c → Holds positives effective_cap os t d

      next-IsPartial :
          (c n : ℕ) (t u : Table)
          → 0 < c
          → IsPartial c t
          → IsRelaxed positives effective_cap c t u
          → Holds positives effective_cap (o ∷ os) u c
          → IsPartial (c - 1) (record u { steps = n })
      next-IsPartial c n t u pos p r h = record {
        sized = record { values_size = r.sized.values_size; starts_size = r.sized.starts_size };
        new = λ d d-le lt. elim (ℕ_discrete d c) [
          | yes e ↦ rw e (
              Holds-transfer positives effective_cap h (o ∷ os) _ [] (omega arith) refl refl refl
                (sym (append-nil u.paths)))
          | no other ↦
              Holds-transfer positives effective_cap (p.new d d-le (omega arith)) (o ∷ os) _ r.more
                (omega arith) refl (r.other_values d other) (r.other_starts d other) r.grown
        ];
        old = λ d d-le.
            Holds-transfer positives effective_cap (p.old d (omega arith)) os _ r.more (omega arith)
              refl (r.other_values d (omega arith)) (r.other_starts d (omega arith)) r.grown;
      }

      relax_row-IsFilled :
          (fuel c : ℕ) (t : Table)
          → c < fuel
          → c ≤ effective_cap
          → IsPartial c t
          → Ends
              (Polled ctx)
              (IsFilled (o ∷ os))
              (relax_row ctx (length os) o.weight o.value fuel c t)
      unfolding relax_row
      relax_row-IsFilled zero c t enough c-le p = absurd (omega arith)
      relax_row-IsFilled (suc fuel) c t enough c-le p =
          rw (lt_int_small c o.weight (omega arith) light) (elim (Bool-cases (ltb c o.weight)) [
            | inl out ↦ rw out (value (finished (ltb→lt _ _ out)))
            | inr in_range ↦ rw in_range (
                next (ltb→le _ _ in_range)
                  (λ t' pos q. relax_row-IsFilled fuel (c - 1) t' (omega arith) (omega arith) q))
          ])
        where
          finished : c < o.weight → IsFilled (o ∷ os) t
          finished out = record {
            sized = p.sized;
            cells = λ d d-le. elim (dec_lt c d) [
              | yes above ↦ p.new d d-le above
              | no at ↦
                  Holds-transfer positives effective_cap (p.old d (omega arith)) (o ∷ os) t []
                    (omega arith) (knapsack-cons_lt o os d (omega arith)) refl refl
                    (sym (append-nil t.paths))
            ];
          }

          next :
              o.weight ≤ c
              → ((t' : Table)
                  → 0 < c
                  → IsPartial (c - 1) t'
                  → Ends
                      (Polled ctx)
                      (IsFilled (o ∷ os))
                      (relax_row ctx (length os) o.weight o.value fuel (c - 1) t'))
              → Ends (Polled ctx) (IsFilled (o ∷ os)) (
                  relax_cell (length os) o.weight o.value c t >>= λ u. count_step ctx u >>= λ u'.
                  relax_row ctx (length os) o.weight o.value fuel (sub_int c 1) u')
          next w-le again =
              Ends-bind
                (relax_cell-Holds positives effective_cap o os here (Polled ctx) c t w-le c-le small
                  fit p.sized (p.old c (omega arith)) (p.old (c - o.weight) (omega arith)))
                λ u (r, h). Ends-bind (count_step-steps u) λ u' (n, e).
                  rw (e, sub_int_small c 1 (omega arith) (omega arith))
                    (again (record u { steps = n }) (omega arith)
                      (next-IsPartial c n t u (omega arith) p r h))

      fill_round-IsFilled :
          (t : Table)
          → IsFilled os t
          → Ends (Polled ctx) (IsFilled (o ∷ os)) (fill_round ctx effective_cap (length os) o t)
      unfolding fill_round
      fill_round-IsFilled t p = elim (Option-cases (ctx.at_order (length os))) [
        | inr (e, fired) ↦ rw (fired, fill_round) (error (at_order _ fired))
        | inl quiet ↦
            rw (quiet, fill_round, lt_int_small effective_cap o.weight small light)
              (elim (Bool-cases (ltb effective_cap o.weight)) [
                | inl heavy ↦ rw heavy (value (skipped (ltb→lt _ _ heavy)))
                | inr fits ↦ rw fits (
                    relax_row-IsFilled (suc effective_cap) effective_cap t (omega arith)
                      (omega arith) started)
              ])
      ]
        where
          skipped : effective_cap < o.weight → IsFilled (o ∷ os) t
          skipped heavy = record {
            sized = p.sized;
            cells = λ d d-le.
                Holds-transfer positives effective_cap (p.cells d d-le) (o ∷ os) t [] (omega arith)
                  (knapsack-cons_lt o os d (omega arith)) refl refl (sym (append-nil t.paths));
          }

          started : IsPartial effective_cap t
          started = record {
            sized = p.sized;
            new = λ d d-le above. absurd (omega arith);
            old = λ d d-le. p.cells d d-le;
          }

    new_table-IsFilled : IsFilled [] (blank effective_cap)
    unfolding knapsack weights values
    new_table-IsFilled = record {
      sized = record { values_size = length-replicate _ 0; starts_size = length-replicate _ none };
      cells = λ d d-le. record {
        exact = get_or-replicate _ d 0;
        chosen = [];
        traced = rw (get_or-replicate {A = Option ℕ} (effective_cap + 1) d none) stop;
        fits = omega arith;
        worth = refl;
      };
    }

    fill-IsFilled :
        (os rest : List Order) (t : Table)
        → positives ≡ reverse os ++ rest
        → ArePositive rest
        → values os + values rest < int_min
        → IsFilled os t
        → Ends
            (Polled ctx)
            (IsFilled (reverse rest ++ os))
            (fill ctx effective_cap (length os) rest t)
    unfolding fill values
    fill-IsFilled os [] t e light fit p = value p
    fill-IsFilled os (o ∷ rest) t e light fit p =
        rw (reverse-cons o rest, append_assoc (reverse rest) (o ∷ []) os)
          (Ends-bind (fill_round-IsFilled o os here light.0 light.1 (omega arith) t p)
            (λ u q. fill-IsFilled (o ∷ os) rest u next light.2 (omega arith) q))
      where
        here : get_elem? positives (length os) ≡ some o
        here = rw (e, ← length-reverse os) (get_elem?-append_length (reverse os) rest o)

        next : positives ≡ reverse (o ∷ os) ++ rest
        next = rw (reverse-cons o os, append_assoc (reverse os) (o ∷ []) rest) e

    -- From a table that `make` has made, the loop over orders of positive weight, with values whose sum is
    -- below 2 ^ 63 and a capacity below 2 ^ 63, ends without a panic: in the error of a poll of the context, or in a table where the
    -- value at each capacity is that of the recursive specification `knapsack` for all the orders, and
    -- the path at each capacity leads to a selection of that value within the capacity.
    pub fill-new_table :
        (t : Table)
        → new_table effective_cap ≡ ok t
        → ArePositive positives
        → values positives < int_min
        → Ends (Polled ctx) (IsFilled (reverse positives)) (fill ctx effective_cap 0 positives t)
    unfolding values
    fill-new_table t made light fit = rw (← append-nil (reverse positives)) (
        fill-IsFilled [] positives t refl light (omega arith)
          (subst (IsFilled []) (new_table-blank effective_cap small t made) new_table-IsFilled))
