-- ===== src/Service/Timed.antt =====
-- The services of webapp/backend/internal/service/robot.go and auth.go under `WithTimeout` of
-- webapp/backend/internal/service/utils/timeout.go, also when it fires: the goroutine is not stopped
-- then, and what it commits stays.
use Prim.Native.String.{String}
use mathlib.Core.List.{Memᴰ}
use snake_42tokyo_tuning.Base.{
  ok, ◌≢◌, ◌≤◌, max_ints, ltb, ltb→lt, ltb→le, Bool-cases, ℕ, ◌<◌, ◌≡◌, refl, false, Option, none,
  some, int_min, ◌⊎◌, inl, inr, Run,
}
use snake_42tokyo_tuning.Model.{DeliveryPlan, Error}
use snake_42tokyo_tuning.Delivery.Table.{Context}
use snake_42tokyo_tuning.Delivery.Spec.{weights, values}
use snake_42tokyo_tuning.Delivery.Row.{Polled}
use snake_42tokyo_tuning.Delivery.Divided.{IsOptimal}
use snake_42tokyo_tuning.Delivery.Optimal.{needed}
use snake_42tokyo_tuning.Store.Db.{Tables, World, Env, M}
use snake_42tokyo_tuning.Store.Orders.{shipping, count_shipping_rows}
use snake_42tokyo_tuning.Store.Rows.{IsConsistent}
use snake_42tokyo_tuning.Store.Tx.{with_timeout, exec_tx_atomic}
use snake_42tokyo_tuning.Store.Counter.{SameRows, RolledBack, Reverted-RolledBack, Grows-le}
use snake_42tokyo_tuning.Service.Counter.{generate_delivery_plan-Grows, update_order_status-Grows}
use snake_42tokyo_tuning.Store.Backing.{OwnerIn, IsBacked}
use snake_42tokyo_tuning.Store.Leaves.{
  Leaves, done, failed, Leaves-map, Never-ok, Established, Leaves-Established, not_ok-Established,
}
use snake_42tokyo_tuning.Service.Robot.{RobotService, generate_delivery_plan, update_order_status}
use snake_42tokyo_tuning.Service.Auth.{login, verify_session}
use snake_42tokyo_tuning.Service.Plan.{
  candidates, departed, generate_delivery_plan-IsOptimal, generate_delivery_plan-Never,
}
use snake_42tokyo_tuning.Service.Refill.{NoError, IsUpdated, update_order_status-IsUpdated}
use snake_42tokyo_tuning.Service.Login.{Refusal, IsLoggedIn, login-IsLoggedIn}
use snake_42tokyo_tuning.Service.Verify.{Unverified, verify_session-OwnerIn}

-- The timeout has fired with this error, and the state is one that a failure or a success leaves.
abbrev pub Late {κ ν} :
    Option Error → (World → Type κ) → (World → Type ν) → Error → World → Type (κ ⊔ ν)
Late fired U V e w = (fired ≡ some e) × (U w ⊎ V w)

module _ {ℓ κ ν κ' ν'} {A : Type ℓ} {Q : Error → World → Type κ} {P : A → World → Type ν}
    {U : World → Type κ'} {V : World → Type ν'} (on_error : (e : Error) (w : World) → Q e w → U w)
    (on_value : (a : A) (w : World) → P a w → V w) where
  left_behind : {r : Run Error A × World} → Leaves Q P r → U r.1 ⊎ V r.1
  left_behind (done p) = inr (on_value _ _ p)
  left_behind (failed q) = inl (on_error _ _ q)

  -- A computation under a timeout, from the computation.
  with_timeout-Leaves :
      (fired : Option Error) (fn : M A) (w : World)
      → Leaves Q P (fn w)
      → Leaves (λ e w'. Q e w' ⊎ Late fired U V e w') P (with_timeout fired fn w)
  unfolding with_timeout
  with_timeout-Leaves none fn w p = Leaves-map p (λ e w' q. inl q) λ a w' r. r
  with_timeout-Leaves (some e) fn w p = failed (inr (refl, left_behind p))

with_timeout-not_ok {ℓ} :
    {A : Type ℓ} (fired : Option Error) (fn : M A) (w : World)
    → ((a : A) → (fn w).0 ≢ ok a)
    → (a : A) → (with_timeout fired fn w).0 ≢ ok a
unfolding with_timeout
with_timeout-not_ok none fn w never a = never a
with_timeout-not_ok (some e) fn w never a = cc

with_timeout-world {ℓ ν} :
    {A : Type ℓ} (fired : Option Error) (fn : M A) (w : World) (P : World → Type ν)
    → P (fn w).1
    → P (with_timeout fired fn w).1
unfolding with_timeout
with_timeout-world none fn w P p = p
with_timeout-world (some e) fn w P p = p

module _ (env : Env) (fired : Option Error) where
  -- The tables after a plan that is optimal among the shipping orders has been carried out.
  abbrev pub Departed : (cap : ℕ) → Tables → World → Type 0
  Departed cap t w =
      (plan : DeliveryPlan) × IsOptimal (candidates env t) cap plan × (w.tables ≡ departed t plan)

  -- `GenerateDeliveryPlan`, from tables whose shipping orders have weights and values with sums below
  -- 2 ^ 63, and for a positive capacity below 2 ^ 63. If the capacity, or the weight of the orders that
  -- fit, is below 2 ^ 45, it never panics. Either it returns a plan that is optimal among the shipping
  -- orders, and the tables differ from the old ones only in the status of the orders of the plan, which
  -- is 'delivering'. Or it returns an error of the driver or of the context, and the rows are unchanged.
  -- Or the timeout has fired: then it returns the timeout's error, and in the end the rows are unchanged,
  -- or changed in this way for some optimal plan. Otherwise, as no table can be made, it returns no plan,
  -- and the rows are unchanged. Where the rows are unchanged, the counter of the order ids is not turned
  -- back.
  pub generate_delivery_plan-Timed :
      (ctx : Context) (robot_id : String) (cap : ℕ) (w : World)
      → 0 < cap
      → cap < int_min
      → weights (candidates env w.tables) < int_min
      → values (candidates env w.tables) < int_min
      → ((needed (candidates env w.tables) cap < max_ints)
          × Leaves
              (λ e w'.
                RolledBack env (Polled ctx) w.tables e w'
                ⊎ Late fired (λ w'. SameRows w.tables w'.tables) (Departed cap w.tables) e w')
              (λ plan w'.
                IsOptimal (candidates env w.tables) cap plan × (w'.tables ≡ departed w.tables plan))
              (generate_delivery_plan env ctx fired robot_id cap w))
        ⊎ ((max_ints ≤ needed (candidates env w.tables) cap)
            × ((plan : DeliveryPlan)
                → (generate_delivery_plan env ctx fired robot_id cap w).0 ≢ ok plan)
            × SameRows w.tables (generate_delivery_plan env ctx fired robot_id cap w).1.tables)
  unfolding generate_delivery_plan with_timeout
  generate_delivery_plan-Timed ctx robot_id cap w positive small w-small v-small =
      elim (Bool-cases (ltb (needed (candidates env w.tables) cap) max_ints)) [
        | inl below ↦
            let room = ltb→lt _ _ below in
            inl (
              room,
              with_timeout-Leaves (λ e w' q. q.1) (λ plan w' p. (plan, p.0, p.1)) fired _ w
                  (Reverted-RolledBack env (Polled ctx) w.tables
                    (generate_delivery_plan-IsOptimal env ctx robot_id cap w positive small w-small
                      v-small room)
                    (generate_delivery_plan-Grows env ctx robot_id cap w)),
            )
        | inr above ↦
            let long = ltb→le _ _ above in
            let never = Never-ok _ (
              generate_delivery_plan-Never env ctx robot_id cap w positive small w-small v-small
                long) in
            inr (
              long,
              with_timeout-not_ok fired _ w never,
              with_timeout-world fired _ w (λ w'. SameRows w.tables w'.tables)
                  (record {
                    restored = exec_tx_atomic env _ w never;
                    counter = Grows-le (generate_delivery_plan-Grows env ctx robot_id cap w);
                  }),
            )
      ]

  -- A plan that is returned is optimal, and its orders have left.
  pub generate_delivery_plan-Established :
      (ctx : Context) (robot_id : String) (cap : ℕ) (w : World)
      → 0 < cap
      → cap < int_min
      → weights (candidates env w.tables) < int_min
      → values (candidates env w.tables) < int_min
      → Established
          (λ plan w'.
            IsOptimal (candidates env w.tables) cap plan × (w'.tables ≡ departed w.tables plan))
          (generate_delivery_plan env ctx fired robot_id cap w)
  generate_delivery_plan-Established ctx robot_id cap w positive small w-small v-small =
      elim (generate_delivery_plan-Timed ctx robot_id cap w positive small w-small v-small) [
        | inl (room, leaves) ↦ Leaves-Established leaves
        | inr (long, never, same) ↦ not_ok-Established _ _ never
      ]

  -- `UpdateOrderStatus`, for a status that the server tells from 'shipping', from consistent tables,
  -- with counts below 2 ^ 63, never panics. Either it ends well: then the order has the new status, the
  -- tables are consistent, at most one order has been added, a copy made only if the service refills
  -- and fewer orders than the target are left in shipping, and so no more orders are in shipping than
  -- there were or than the target. Or it returns an error of the driver, and the rows are unchanged. Or
  -- the timeout has fired: then it returns the timeout's error, and in the end the rows are unchanged, or
  -- updated in this way. Where the rows are unchanged, the counter of the order ids is not turned back.
  pub update_order_status-Timed :
      (s : RobotService) (id : ℕ) (new_status : String) (w : World)
      → env.same new_status shipping ≡ false
      → IsConsistent w.tables
      → count_shipping_rows env.same w.tables.orders < int_min
      → s.supply_target < int_min
      → Leaves
          (λ e w'.
            RolledBack env NoError w.tables e w'
            ⊎ Late fired
                (λ w'. SameRows w.tables w'.tables)
                (λ w'. IsUpdated env s id new_status w.tables w'.tables)
                e
                w')
          (λ a w'. IsUpdated env s id new_status w.tables w'.tables)
          (update_order_status env s fired id new_status w)
  unfolding update_order_status with_timeout
  update_order_status-Timed s id new_status w leaves c small target-small =
      with_timeout-Leaves (λ e w' q. q.1) (λ a w' p. p) fired _ w
        (Reverted-RolledBack env NoError w.tables
          (update_order_status-IsUpdated env s id new_status w leaves c small target-small)
          (update_order_status-Grows env s id new_status w))

  -- Somebody has logged in.
  abbrev pub Entered : Tables → (name password : String) → World → Type 0
  Entered t name password w =
      (session_id : String) × (expires_at : ℕ) × IsLoggedIn env t name password session_id
        expires_at w

  -- If rows stand behind the caches, `Login` never panics. It either ends with a session: then a user
  -- of the name has a row, the user's hash accepts the password, and the only change of the tables is
  -- the row of the session, for this user, under an id that no session had, 24 hours from a reading of
  -- the clock. Or it ends with an error, and the tables are unchanged: the user is unknown, or the hash
  -- of a user of the name refuses the password, or a call of the driver has failed, or there was no
  -- random id, or a session had the random id. Or the timeout has fired: then it returns the timeout's
  -- error, and in the end the tables are unchanged or changed as by a session. Rows stand behind the
  -- caches afterwards.
  pub login-Timed :
      (name password : String) (t : Tables) (w : World)
      → IsBacked env t w
      → Leaves
          (λ e w'.
            (Refusal env t name password e × IsBacked env t w')
            ⊎ Late fired (IsBacked env t) (Entered t name password) e w')
          (λ s w'. IsLoggedIn env t name password s.0 s.1 w')
          (login env fired name password w)
  unfolding login with_timeout
  login-Timed name password t w b =
      with_timeout-Leaves (λ e w' q. q.1) (λ s w' p. (s.0, s.1, p)) fired _ w
        (login-IsLoggedIn env name password t w b)

  -- If rows stand behind the caches, `VerifySession` never panics and leaves the tables, and rows stand
  -- behind the caches afterwards. A user that it returns has a row, and a session with this id belongs
  -- to the user; its errors are 'user not found', 'internal server error' and that of the timeout, if it
  -- has fired.
  pub verify_session-Timed :
      (session_id : String) (t : Tables) (w : World)
      → IsBacked env t w
      → Leaves
          (λ e w'. (Unverified e ⊎ (fired ≡ some e)) × IsBacked env t w')
          (λ user w'.
            Memᴰ user t.users
            × OwnerIn env t.user_sessions session_id user.user_id
            × IsBacked env t w')
          (verify_session env fired session_id w)
  unfolding verify_session with_timeout
  verify_session-Timed session_id t w b =
      Leaves-map
        (with_timeout-Leaves {U = IsBacked env t} {V = IsBacked env t} (λ e w' q. q.1)
          (λ user w' p. p.2) fired _ w (verify_session-OwnerIn env session_id t w b))
        errors λ user w' p. p
    where
      errors :
          (e : Error) (w' : World)
          → (Unverified e × IsBacked env t w') ⊎ Late fired (IsBacked env t) (IsBacked env t) e w'
          → (Unverified e ⊎ (fired ≡ some e)) × IsBacked env t w'
      errors e w' (inl (known, kept)) = (inl known, kept)
      errors e w' (inr (fires, inl kept)) = (inr fires, kept)
      errors e w' (inr (fires, inr kept)) = (inr fires, kept)
