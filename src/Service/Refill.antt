-- ===== src/Service/Refill.antt =====
-- What `RobotService.UpdateOrderStatus` of webapp/backend/internal/service/robot.go leaves behind.
use Prim.Native.String.{String}
use snake_42tokyo_tuning.Base.{
  ℕ, ◌+◌, ◌≤◌, ◌<◌, ◌≡◌, refl, sym, ap, ◌∙◌, subst, List, [], ◌∷◌, ◌++◌, append-nil, none, int_min,
  value, ok, true, false, ◌&&◌, Bool-cases, inl, inr, max, length, if◌then◌else◌, ltb, ltb→lt,
  lt_int_small, arith,
}
use snake_42tokyo_tuning.Store.Db.{OrderRow, Tables, World, Env}
use snake_42tokyo_tuning.Store.Orders.{
  set_statuses, clone_rows, count_shipping_rows, shipping, update_statuses, count_shipping,
  clone_as_shipping,
}
use snake_42tokyo_tuning.Store.Rows.{
  IsConsistent, set_statuses-IsConsistent, clone_rows-IsConsistent, length-clone_rows_one,
  count_shipping_rows-append, count-clone_rows-le, count-set_statuses-le,
}
use snake_42tokyo_tuning.Store.Tx.{with_timeout}
use snake_42tokyo_tuning.Store.Leaves.{
  Leaves, done, Failure, Reverted, Leaves-bind, query-Leaves, exec-Leaves, exec_tx-Leaves,
}
use snake_42tokyo_tuning.Service.Robot.{
  RobotService, refill, needs_refill, status_in_tx, update_order_status,
}

-- The service has no errors of its own here.
abbrev pub NoError {ℓ} : {E : Type ℓ} → E → Type 0
NoError e = ⊥

-- The rows after the update of one order, before the refill.
abbrev pub updated : ℕ → String → Tables → List OrderRow
updated id new_status t = set_statuses (id ∷ []) new_status t.orders

-- The tables `t'` after the status of one order has been changed in `t`. The new rows are a copy of
-- the order if the service refills and fewer orders than its target are left in shipping.
pub record IsUpdated (env : Env) (s : RobotService) (id : ℕ) (new_status : String) (t t' : Tables)
    : Type 0 where
  pub time : ℕ
  pub new : List OrderRow
  pub arranged : t'.orders ≡ updated id new_status t ++ new
  pub cloned : new ≡ (
      if needs_refill s new_status
      then (if ltb (count_shipping_rows env.same (updated id new_status t)) s.supply_target
          then clone_rows (id ∷ []) time t.next_order_id (updated id new_status t)
          else [])
      else [])
  pub at_most_one : length new ≤ 1
  pub consistent : IsConsistent t'
  pub bounded :
      count_shipping_rows env.same t'.orders
      ≤ max (count_shipping_rows env.same t.orders) s.supply_target

module _ (env : Env) (s : RobotService) (id : ℕ) (new_status : String) where
  -- The tables after the update.
  abbrev after : Tables → Tables
  after t = record t { orders = updated id new_status t }

  module _ (t : Tables) (leaves : env.same new_status shipping ≡ false) (c : IsConsistent t) where
    not_refilled-IsUpdated :
        (needs_refill s new_status
            && ltb (count_shipping_rows env.same (updated id new_status t)) s.supply_target)
          ≡ false
        → IsUpdated env s id new_status t (after t)
    not_refilled-IsUpdated off = record {
      time = 0;
      new = [];
      arranged = sym (append-nil (updated id new_status t));
      cloned = ground arith;
      at_most_one = omega arith;
      consistent = set_statuses-IsConsistent (id ∷ []) new_status t c;
      bounded = omega (arith, count-set_statuses-le env.same (id ∷ []) new_status t.orders leaves);
    }

    -- The copy, made at a time.
    abbrev copy : ℕ → List OrderRow
    copy time = clone_rows (id ∷ []) time t.next_order_id (updated id new_status t)

    refilled-IsUpdated :
        (time : ℕ)
        → needs_refill s new_status ≡ true
        → ltb (count_shipping_rows env.same (updated id new_status t)) s.supply_target ≡ true
        → IsUpdated env s id new_status t (record (after t) {
          orders = updated id new_status t ++ copy time;
          next_order_id = t.next_order_id + length (copy time);
        })
    refilled-IsUpdated time on few = record {
      time = time;
      new = copy time;
      arranged = refl;
      cloned = rw (on, few) refl;
      at_most_one = one;
      consistent =
          clone_rows-IsConsistent (id ∷ []) time (after t)
            (set_statuses-IsConsistent (id ∷ []) new_status t c);
      bounded = omega (
        arith,
        one,
        ltb→lt _ _ few,
        count_shipping_rows-append env.same (updated id new_status t) (copy time),
        count-clone_rows-le env.same (id ∷ []) time t.next_order_id (updated id new_status t),
      );
    }
      where
        one : length (copy time) ≤ 1
        one =
            length-clone_rows_one id time t.next_order_id 0 t.next_order_id
              (updated id new_status t)
              (set_statuses-IsConsistent (id ∷ []) new_status t c).numbered

  update-Leaves :
      (w : World)
      → Leaves
          (λ e w'. Failure env NoError e)
          (λ a w'. w'.tables ≡ record w.tables { orders = updated id new_status w.tables })
          (update_statuses env (id ∷ []) new_status w)
  unfolding update_statuses
  update-Leaves w =
      exec-Leaves env NoError
        (λ a t. t ≡ record w.tables { orders = updated id new_status w.tables }) _ w
        λ time. value refl

  -- The refill, from the tables after the update.
  refill-IsUpdated :
      (t : Tables) (w : World)
      → w.tables ≡ after t
      → env.same new_status shipping ≡ false
      → IsConsistent t
      → needs_refill s new_status ≡ true
      → count_shipping_rows env.same t.orders < int_min
      → s.supply_target < int_min
      → Leaves
          (λ e w'. Failure env NoError e)
          (λ a w'. IsUpdated env s id new_status t w'.tables)
          (refill env s id w)
  unfolding refill count_shipping clone_as_shipping
  refill-IsUpdated t w start leaves c on small target-small =
      Leaves-bind
        (query-Leaves env NoError
          {P = λ n. n ≡ count_shipping_rows env.same (updated id new_status t)}
          (λ t. ok (count_shipping_rows env.same t.orders)) w
          (value (ap (λ t. count_shipping_rows env.same t.orders) start)))
        λ n w1 (count, kept).
          rw
            (
              count,
              lt_int_small (count_shipping_rows env.same (updated id new_status t)) s.supply_target
                  (omega
                    (arith, count-set_statuses-le env.same (id ∷ []) new_status t.orders leaves))
                  target-small,
            )
            (elim (Bool-cases
              (ltb (count_shipping_rows env.same (updated id new_status t)) s.supply_target)) [
                | inl few ↦ rw few (
                    exec-Leaves env NoError (λ a t'. IsUpdated env s id new_status t t') _ w1
                      λ time. rw (kept ∙ start) (value (refilled-IsUpdated t leaves c time on few)))
                | inr enough ↦ rw enough (
                    done (
                      subst (IsUpdated env s id new_status t) (sym (kept ∙ start))
                        (not_refilled-IsUpdated t leaves c (ground arith))))
              ])

  status_in_tx-IsUpdated :
      (w : World)
      → env.same new_status shipping ≡ false
      → IsConsistent w.tables
      → count_shipping_rows env.same w.tables.orders < int_min
      → s.supply_target < int_min
      → Leaves
          (λ e w'. Failure env NoError e)
          (λ a w'. IsUpdated env s id new_status w.tables w'.tables)
          (status_in_tx env s id new_status w)
  unfolding status_in_tx
  status_in_tx-IsUpdated w leaves c small target-small = Leaves-bind (update-Leaves w) λ a w1 start.
      elim (Bool-cases (needs_refill s new_status)) [
        | inl on ↦ rw on (refill-IsUpdated w.tables w1 start leaves c on small target-small)
        | inr off ↦ rw off (
            done (
              subst (IsUpdated env s id new_status w.tables) (sym start)
                (not_refilled-IsUpdated w.tables leaves c (ground arith))))
      ]

  -- The transaction behind `UpdateOrderStatus`, while the timeout does not fire, for a status that the
  -- server tells from 'shipping', from consistent tables, with counts below 2 ^ 63. It never panics.
  -- Either it ends well: then the order has the new status, the tables are consistent, at most one
  -- order has been added, a copy made only if the service refills and fewer orders than the target are
  -- left in shipping, and so no more orders are in shipping than there were or than the target. Or it
  -- returns an error of the driver, and the rows are unchanged.
  pub update_order_status-IsUpdated :
      (w : World)
      → env.same new_status shipping ≡ false
      → IsConsistent w.tables
      → count_shipping_rows env.same w.tables.orders < int_min
      → s.supply_target < int_min
      → Leaves
          (Reverted env NoError w.tables)
          (λ a w'. IsUpdated env s id new_status w.tables w'.tables)
          (update_order_status env s none id new_status w)
  unfolding update_order_status with_timeout
  update_order_status-IsUpdated w leaves c small target-small =
      exec_tx-Leaves env NoError (λ a t. IsUpdated env s id new_status w.tables t) _ w
        λ w1 start.
          subst
            (λ t.
              Leaves (λ e w'. Failure env NoError e)
                (λ a w'. IsUpdated env s id new_status t w'.tables)
                (status_in_tx env s id new_status w1))
            start
            (status_in_tx-IsUpdated w1 leaves (subst IsConsistent (sym start) c) (rw start small)
              target-small)
