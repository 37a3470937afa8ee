-- ===== src/Store/Counter.antt =====
-- The counter of AUTO_INCREMENT behind webapp/backend/internal/repository/: no computation turns it back,
-- not even a rollback.
use snake_42tokyo_tuning.Base.{
  ℕ, ◌+◌, ◌≤◌, true, Option-cases, inl, inr, Run, ok, err, panic, no_fuel,
}
use snake_42tokyo_tuning.Model.{Error}
use snake_42tokyo_tuning.Store.Db.{Tables, World, Env, M, continue, ping, query, exec, settle}
use snake_42tokyo_tuning.Store.Leaves.{Leaves, done, failed, Failure, Reverted}
use snake_42tokyo_tuning.Store.Tx.{Restored, exec_tx, close_tx, commit, rollback}

-- The same rows, and the counter is not turned back.
pub record SameRows (t t' : Tables) : Type 0 where
  pub restored : Restored t t'
  pub counter : t.next_order_id ≤ t'.next_order_id

-- The counter is at least `n` after the run, however it ends.
pub data Grows {ℓ} (n : ℕ) {A : Type ℓ} : Run Error A × World → Type ℓ where
  grows : {r : Run Error A} {w : World} → n ≤ w.tables.next_order_id → Grows n (r, w)

pub Grows-le {ℓ} :
    {A : Type ℓ} {n : ℕ} {r : Run Error A × World} → Grows n r → n ≤ r.1.tables.next_order_id
Grows-le (grows h) = h

pub Grows-bind {ℓ κ} :
    {A : Type ℓ} {B : Type κ} {n : ℕ} {r : Run Error A × World} {f : A → M B}
    → Grows n r
    → ((a : A) (w : World) → n ≤ w.tables.next_order_id → Grows n (f a w))
    → Grows n (continue r f)
Grows-bind (grows {r = ok a} h) k = k a _ h
Grows-bind (grows {r = err e} h) k = grows h
Grows-bind (grows {r = panic} h) k = grows h
Grows-bind (grows {r = no_fuel} h) k = grows h

module _ (env : Env) (n : ℕ) where
  pub query-Grows {ℓ} :
      {A : Type ℓ} (f : Tables → Run Error A) (w : World)
      → n ≤ w.tables.next_order_id
      → Grows n (query env f w)
  unfolding query
  query-Grows f w h = elim (Option-cases (env.fault w.asked)) [
    | inl quiet ↦ rw (quiet, query) (grows h)
    | inr (e, fault) ↦ rw (fault, query) (grows h)
  ]

  -- The tables that a statement leaves, if it succeeds, keep the counter.
  abbrev pub Keeps {ℓ} : {A : Type ℓ} → Run Error (A × Tables) → Type 0
  Keeps (ok (a, t)) = n ≤ t.next_order_id
  Keeps (err e) = Unit
  Keeps panic = Unit
  Keeps no_fuel = Unit

  settle-Grows {ℓ} :
      {A : Type ℓ} (r : Run Error (A × Tables)) (w : World)
      → n ≤ w.tables.next_order_id
      → Keeps r
      → Grows n (settle r w)
  unfolding settle
  settle-Grows (ok (a, t)) w h k = grows k
  settle-Grows (err e) w h k = grows h
  settle-Grows panic w h k = grows h
  settle-Grows no_fuel w h k = grows h

  pub exec-Grows {ℓ} :
      {A : Type ℓ} (f : ℕ → Tables → Run Error (A × Tables)) (w : World)
      → n ≤ w.tables.next_order_id
      → ((time : ℕ) (t : Tables) → n ≤ t.next_order_id → Keeps (f time t))
      → Grows n (exec env f w)
  unfolding exec
  exec-Grows f w h k = elim (Option-cases (env.fault w.asked)) [
    | inl quiet ↦
        rw (quiet, exec)
          (settle-Grows (f (env.clock w.asked) w.tables) (record w { asked = w.asked + 1 }) h
            (k (env.clock w.asked) w.tables h))
    | inr (e, fault) ↦ rw (fault, exec) (grows h)
  ]

  close_tx-Grows {ℓ} :
      {A : Type ℓ} (before : Tables) {r : Run Error A × World}
      → Grows n r
      → Grows n (close_tx env before r)
  unfolding close_tx commit rollback
  close_tx-Grows before (grows {r = ok a} {w = w} h) = elim (Option-cases (env.fault w.asked)) [
    | inl quiet ↦ rw (quiet, commit) (grows h)
    | inr (e, fault) ↦ rw (fault, commit) (grows h)
  ]
  close_tx-Grows before (grows {r = err e} h) = grows h
  close_tx-Grows before (grows {r = panic} h) = grows h
  close_tx-Grows before (grows {r = no_fuel} h) = grows h

  -- A transaction does not turn the counter back, if its function does not.
  pub exec_tx-Grows {ℓ} :
      {A : Type ℓ} (fn : M A) (w : World)
      → n ≤ w.tables.next_order_id
      → ((w' : World) → n ≤ w'.tables.next_order_id → Grows n (fn w'))
      → Grows n (exec_tx env true fn w)
  unfolding exec_tx ping
  exec_tx-Grows fn w h k = elim (Option-cases (env.fault w.asked)) [
    | inl quiet ↦
        rw (quiet, ping) (close_tx-Grows w.tables (k (record w { asked = w.asked + 1 }) h))
    | inr (e, fault) ↦ rw (fault, ping) (grows h)
  ]

-- The error is a failure, the rows are as they were, and the counter is not turned back.
abbrev pub RolledBack {κ} : (env : Env) → (Error → Type κ) → Tables → Error → World → Type κ
RolledBack env X t e w = Failure env X e × SameRows t w.tables

pub Reverted-RolledBack {ℓ κ ν} :
    {A : Type ℓ} {P : A → World → Type ν} {r : Run Error A × World} (env : Env) (X : Error → Type κ)
    (t : Tables)
    → Leaves (Reverted env X t) P r
    → Grows t.next_order_id r
    → Leaves (RolledBack env X t) P r
Reverted-RolledBack env X t (done p) g = done p
Reverted-RolledBack env X t (failed (why, same)) (grows h) =
    failed (why, record { restored = same; counter = h })
