-- ===== src/Delivery/Choice.antt =====
-- From the filled table of `selectOrdersForDelivery` to the plan.
use snake_42tokyo_tuning.Base.{
  ℕ, suc, ◌+◌, ◌-◌, ◌≤◌, ◌<◌, ◌≡◌, ◌≢◌, refl, ap, Option, none, some, List, [], ◌∷◌, ◌++◌,
  append-nil, append_assoc, reverse, subst, arith, inl, length, length-append, get_elem?-eq-get_or,
  get_or, int_min, max_ints, take, true, false, lt→ltb, ◌==◌, ==_iff, ok, Ends, value, Ends-bind,
}
use Prim.Native.String.{String}
use snake_42tokyo_tuning.Model.{Order}
use snake_42tokyo_tuning.Delivery.Table.{Context, Table, find_best}
use snake_42tokyo_tuning.Delivery.Select.{
  fallback, append_at, with_fallback, restore_order, plan_of, finish_plan, select_positive,
}
use snake_42tokyo_tuning.Delivery.Spec.{
  Sub, Sub-reverse, weights, values, weights-reverse, values-reverse, knapsack, knapsack-le-values,
  values-le-knapsack, length-reverse, ArePositive,
}
use snake_42tokyo_tuning.Delivery.Halves.{AllLe, AllLe-get, Sub-get}
use snake_42tokyo_tuning.Delivery.Trace.{Chain-bound, Chain-Sub, follow-eq-append}
use snake_42tokyo_tuning.Delivery.Row.{Polled, Holds}
use snake_42tokyo_tuning.Delivery.Fill.{IsFilled, blank, new_table-ok, fill-new_table}
use snake_42tokyo_tuning.Delivery.Loops.{
  find_best-IsMaximal, Points, fallback-Points, swap_ends-reverse,
}

-- A selection within a capacity that no other beats.
pub record IsBest (positives : List Order) (cap : ℕ) (chosen : List Order) : Type 0 where
  pub selection : Sub chosen positives
  pub fits : weights chosen ≤ cap
  pub best : (ys : List Order) → Sub ys positives → weights ys ≤ cap → values ys ≤ values chosen

module _ (positives : List Order) (cap : ℕ) (small : cap < int_min) where
  -- If nothing was selected, the fallback adds one order, which is worth nothing.
  with_fallback-IsBest :
      (zeros latest : List Order)
      → AllLe cap positives
      → positives ≢ []
      → IsBest positives cap (reverse latest)
      → (latest' : List Order) × (with_fallback zeros positives cap (zeros ++ latest)
          ≡ ok (zeros ++ latest'))
        × IsBest positives cap (reverse latest')
        × (latest' ≢ [])
  unfolding with_fallback append_at weights values
  with_fallback-IsBest zeros [] light some_order b =
      let (found, run, p) =
        fallback-Points positives cap small [] positives none refl light (inl some_order)
          (inl refl) in
      added found run p
    where
      same : (length (zeros ++ []) == length zeros) ≡ true
      same = rw (append-nil zeros) ((==_iff (length zeros) (length zeros)).1 refl)

      added :
          (found : Option ℕ)
          → fallback positives cap 0 positives none ≡ ok found
          → Points positives cap small found
          → (latest' : List Order) × (with_fallback zeros positives cap (zeros ++ [])
              ≡ ok (zeros ++ latest'))
            × IsBest positives cap (reverse latest')
            × (latest' ≢ [])
      added none run p = absurd p
      added (some k) run (o, at) = (
        o ∷ [],
        rw (same, run, at) (ap ok (append_assoc zeros [] (o ∷ []))),
        record {
          selection = Sub-get positives k at;
          fits = omega (arith, AllLe-get cap positives k light at);
          best = λ ys s w. omega (arith, b.best ys s w);
        },
        cc,
      )
  with_fallback-IsBest zeros (o ∷ latest) light some_order b = (o ∷ latest, rw longer, b, cc)
    where
      longer : (length (zeros ++ o ∷ latest) == length zeros) ≡ false
      longer = ground (arith, length-append zeros (o ∷ latest))

take_all : (xs : List Order) → take (length xs) xs ≡ xs
take_all [] = refl
take_all (x ∷ xs) = ap (◌∷◌ x) (take_all xs)

-- The swaps put the selection into the order of the input.
restore_order-reverse :
    (zeros latest : List Order)
    → latest ≢ []
    → restore_order zeros (zeros ++ latest) ≡ ok (zeros ++ reverse latest)
unfolding restore_order
restore_order-reverse zeros [] h = absurd (h refl)
restore_order-reverse zeros (o ∷ latest) h =
    rw
      (lt→ltb (length zeros) (length (zeros ++ o ∷ latest))
        (omega (arith, length-append zeros (o ∷ latest))))
      (rw (append-nil (o ∷ latest), append-nil (reverse (o ∷ latest))) at
        (swap_ends-reverse (suc (length (zeros ++ o ∷ latest))) zeros (o ∷ latest) []
          (length (zeros ++ o ∷ latest) - 1) (omega (arith, length-append zeros (o ∷ latest)))
          (omega (arith, length-append zeros (o ∷ latest)))))

module _ (ctx : Context) (zeros positives : List Order) (cap : ℕ) (small : cap < int_min)
    (light : ArePositive positives) (fitting : AllLe cap positives) (some_order : positives ≢ [])
    (worth : values positives < int_min) (room : cap < max_ints) where
  -- What the trace of a maximal cell selects.
  traced-IsBest :
      (t : Table) (b : ℕ) (h : Holds positives cap (reverse positives) t b)
      → b ≤ cap
      → knapsack (reverse positives) cap ≤ knapsack (reverse positives) b
      → IsBest positives cap (reverse h.chosen)
  traced-IsBest t b h b-le maximal = record {
    selection =
        subst (λ xs. Sub (reverse h.chosen) xs) (take_all positives)
          (rw (length-reverse positives) at (Chain-Sub positives h.traced));
    fits = omega (arith, weights-reverse h.chosen, h.fits);
    best = λ ys s w. omega (
      arith,
      values-reverse h.chosen,
      values-reverse ys,
      h.worth,
      values-le-knapsack (Sub-reverse s) cap (omega (arith, weights-reverse ys)),
    );
  }

  small_cell :
      (t : Table) (d : ℕ)
      → Holds positives cap (reverse positives) t d
      → get_or t.best_value d 0 < int_min
  small_cell t d h =
      omega (arith, h.exact, knapsack-le-values (reverse positives) d, values-reverse positives)

  -- The search stops at a cell that is worth as much as the last one.
  find_best-knapsack :
      (t : Table)
      → IsFilled ctx positives cap small (reverse positives) t
      → (b : ℕ) × (find_best t.best_value cap (cap + 2) 0 0 0 ≡ ok b)
        × (b ≤ cap)
        × (knapsack (reverse positives) cap ≤ knapsack (reverse positives) b)
  find_best-knapsack t filled =
      let (b, run, peak) =
        find_best-IsMaximal t.best_value cap room filled.sized.values_size
          (λ d d-le. small_cell t d (filled.cells d d-le)) (cap + 2) 0 0 0 (omega arith)
          (omega arith) (omega arith) (omega arith) (omega arith) (λ d lt. absurd (omega arith)) in
      (
        b,
        run,
        peak.0,
        omega (
          arith,
          (filled.cells cap (omega arith)).exact,
          (filled.cells b peak.0).exact,
          peak.1 cap (omega arith),
        ),
      )

  reverse-ne : (os : List Order) → os ≢ [] → reverse os ≢ []
  reverse-ne [] h e = h refl
  reverse-ne (o ∷ os) h e = absurd (omega (arith, length-reverse (o ∷ os), ap length e))

  -- What the function returns from a filled table on.
  finish_plan-IsBest :
      (robot_id : String) (t : Table)
      → IsFilled ctx positives cap small (reverse positives) t
      → (chosen : List Order) × (finish_plan zeros positives robot_id cap t
          ≡ ok (plan_of robot_id (zeros ++ chosen)))
        × IsBest positives cap chosen
        × (chosen ≢ [])
  unfolding finish_plan
  finish_plan-IsBest robot_id t filled =
      let (b, run, b-le, maximal) = find_best-knapsack t filled in
      from b run b-le maximal (filled.cells b b-le)
    where
      from :
          (b : ℕ)
          → find_best t.best_value cap (cap + 2) 0 0 0 ≡ ok b
          → b ≤ cap
          → knapsack (reverse positives) cap ≤ knapsack (reverse positives) b
          → Holds positives cap (reverse positives) t b
          → (chosen : List Order) × (finish_plan zeros positives robot_id cap t
              ≡ ok (plan_of robot_id (zeros ++ chosen)))
            × IsBest positives cap chosen
            × (chosen ≢ [])
      from b run b-le maximal h =
          let (latest, run', best, ne) =
            with_fallback-IsBest positives cap small zeros h.chosen fitting some_order
              (traced-IsBest t b h b-le maximal) in
          (
            reverse latest,
            rw (
              run,
              get_elem?-eq-get_or t.best_path_idx b none (omega (arith, filled.sized.starts_size)),
              follow-eq-append positives h.traced (length t.paths) zeros
                  (Chain-bound positives h.traced),
              run',
              restore_order-reverse zeros latest ne,
            ),
            best,
            reverse-ne latest ne,
          )

  -- The whole part from the table on: a plan whose selection no other beats, in the order of the
  -- input, or the error of a poll.
  pub select_positive-IsBest :
      (robot_id : String)
      → Ends
          (Polled ctx)
          (λ p.
            (chosen : List Order) × (p ≡ plan_of robot_id (zeros ++ chosen))
            × IsBest positives cap chosen
            × (chosen ≢ []))
          (select_positive ctx zeros positives robot_id cap)
  unfolding select_positive
  select_positive-IsBest robot_id =
      let made = new_table-ok cap room in
      rw made (
        Ends-bind (fill-new_table ctx positives cap small (blank cap) made light worth) λ t filled.
          let (chosen, run, best, ne) = finish_plan-IsBest robot_id t filled in
          rw run (value (chosen, refl, best, ne)))
