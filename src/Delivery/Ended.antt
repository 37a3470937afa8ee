-- ===== src/Delivery/Ended.antt =====
-- The end of the loop over `idx` in `selectOrdersForDelivery` of
-- webapp/backend/internal/service/robot.go.
use snake_42tokyo_tuning.Base.{
  ℕ, ◌≤◌, ◌<◌, ◌≡◌, sym, ◌∙◌, List, ◌++◌, reverse, length, int_min, ok, Ends, Ends-map,
}
use snake_42tokyo_tuning.Model.{Order}
use snake_42tokyo_tuning.Delivery.Table.{Context, Table, new_table, fill, follow}
use snake_42tokyo_tuning.Delivery.Spec.{values, weights, ArePositive}
use snake_42tokyo_tuning.Delivery.Trace.{Chain-bound, follow-eq-append}
use snake_42tokyo_tuning.Delivery.Row.{Polled, start_at, value_at, Holds}
use snake_42tokyo_tuning.Delivery.Fill.{fill-new_table}

-- The loop over the path nodes ends, from any cell, with a round for each node there is.
abbrev pub EndsFrom : (positives : List Order) → (effective_cap : ℕ) → List Order → Table → Type 0
EndsFrom positives effective_cap selected t =
    (cap : ℕ)
    → cap ≤ effective_cap
    → (chosen : List Order) × (follow positives t.paths (length t.paths) (start_at t cap) selected
        ≡ ok (selected ++ chosen))
      × (weights chosen ≤ cap)
      × (values chosen ≡ value_at t cap)

-- For orders of positive weight, with values whose sum is below 2 ^ 63 and a capacity below 2 ^ 63, the
-- loops over a table that `make` has made end in the error of a poll of the context, or in a table from which the loop over
-- the path nodes ends as well: from the cell of any capacity up to the bound, with a round for each
-- node there is, it neither runs out of rounds nor reads out of range, and it appends orders that fit
-- that capacity and have together the value in the cell.
pub follow-fill_terminates :
    (ctx : Context) (positives : List Order) (effective_cap : ℕ) (selected : List Order)
    (empty : Table)
    → new_table effective_cap ≡ ok empty
    → effective_cap < int_min
    → ArePositive positives
    → values positives < int_min
    → Ends
        (Polled ctx)
        (EndsFrom positives effective_cap selected)
        (fill ctx effective_cap 0 positives empty)
follow-fill_terminates ctx positives effective_cap selected empty made small light fit =
    Ends-map (fill-new_table ctx positives effective_cap small empty made light fit)
      λ t filled cap inside. from t cap (filled.cells cap inside)
  where
    from :
        (t : Table) (cap : ℕ)
        → Holds positives effective_cap (reverse positives) t cap
        → (chosen : List Order) × (follow positives t.paths
              (length t.paths)
              (start_at t cap)
              selected
            ≡ ok (selected ++ chosen))
          × (weights chosen ≤ cap)
          × (values chosen ≡ value_at t cap)
    from t cap h = (
      h.chosen,
      follow-eq-append positives h.traced (length t.paths) selected
          (Chain-bound positives h.traced),
      h.fits,
      h.worth ∙ sym h.exact,
    )
