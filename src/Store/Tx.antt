-- ===== src/Store/Tx.antt =====
-- `Store.ExecTx` of webapp/backend/internal/repository/store.go, and the timeout of
-- webapp/backend/internal/service/utils/timeout.go around a computation.
use mathlib.Core.Option.{some-injective}
use snake_42tokyo_tuning.Base.{
  ◌<◌, ◌≤◌, arith, ℕ, ◌+◌, ◌*◌, ◌≡◌, ◌≢◌, refl, Bool, true, ◌&&◌, Option, none, some, ltb,
  if◌then◌else◌, Option-cases, inl, inr, Run, ok, err, panic, no_fuel,
}
use snake_42tokyo_tuning.Model.{Error}
use snake_42tokyo_tuning.Store.Db.{Tables, World, Env, M, continue, ping}

-- The deferred `tx.Rollback()`, whose own error is dropped. It takes the rows back, and not the counter
-- of AUTO_INCREMENT.
unfoldable pub rollback : Tables → World → World
rollback before w = record w {
  tables = record before { next_order_id = w.tables.next_order_id };
  asked = w.asked + 1;
}

-- The same rows; the counter of the order ids may be another.
abbrev pub Restored : Tables → Tables → Type 0
Restored t t' = t' ≡ record t { next_order_id = t'.next_order_id }

module _ (env : Env) where
  -- `tx.Commit()` after the function has returned `a`; a commit that fails leaves the tables as they
  -- were before the transaction, apart from the counter.
  unfoldable pub commit {ℓ} : {A : Type ℓ} → Tables → A → M A
  commit before a w = elim (env.fault w.asked) [
    | none ↦ (ok a, record w { asked = w.asked + 1 })
    | some e ↦ (err e, rollback before (record w { asked = w.asked + 1 }))
  ]

  unfoldable pub close_tx {ℓ} : {A : Type ℓ} → Tables → Run Error A × World → Run Error A × World
  close_tx before (ok a, w) = commit before a w
  close_tx before (err e, w) = (err e, rollback before w)
  close_tx before (panic, w) = (panic, rollback before w)
  close_tx before (no_fuel, w) = (no_fuel, rollback before w)

  -- `is_db`: is the store's handle a `*sqlx.DB`, and not already a transaction?
  unfoldable pub exec_tx {ℓ} : {A : Type ℓ} → Bool → M A → M A
  exec_tx is_db fn w =
      if is_db then continue (ping env w) (λ _ w'. close_tx w.tables (fn w')) else fn w

  close_tx_atomic {ℓ} :
      {A : Type ℓ} (before : Tables) (r : Run Error A × World)
      → ((a : A) → (close_tx before r).0 ≢ ok a)
      → Restored before (close_tx before r).1.tables
  unfolding close_tx commit rollback
  close_tx_atomic before (ok a, w) failed = elim (Option-cases (env.fault w.asked)) [
    | inl quiet ↦ absurd (failed a (rw (quiet, commit)))
    | inr (e, fault) ↦ rw (fault, commit)
  ]
  close_tx_atomic before (err e, w) failed = refl
  close_tx_atomic before (panic, w) failed = refl
  close_tx_atomic before (no_fuel, w) failed = refl

  -- A transaction that does not end well leaves the rows of all tables as they were, whatever its
  -- statements had done by then: after an error of a statement, an error of the start or of the commit,
  -- or a panic. Only the counter of the order ids may have moved.
  pub exec_tx_atomic {ℓ} :
      {A : Type ℓ} (fn : M A) (w : World)
      → ((a : A) → (exec_tx true fn w).0 ≢ ok a)
      → Restored w.tables (exec_tx true fn w).1.tables
  unfolding exec_tx ping
  exec_tx_atomic fn w failed = elim (Option-cases (env.fault w.asked)) [
    | inl quiet ↦
        rw (quiet, ping)
          (close_tx_atomic w.tables (fn (record w { asked = w.asked + 1 }))
            (λ a e. failed a (rw (quiet, ping) e)))
    | inr (e, fault) ↦ rw (fault, ping)
  ]

unfoldable pub default_timeout : ℕ
default_timeout = 120 * 1000000000

-- The timeout, from the time that the parent's deadline leaves, if it has one. What is not positive
-- counts as no time left, and then the default stands.
unfoldable pub timeout_of : Option ℕ → ℕ
timeout_of none = default_timeout
timeout_of (some rem) = if ltb 0 rem && ltb rem default_timeout then rem else default_timeout

-- `WithTimeout`: `fired` is the answer of the `select`, with the context's error if `ctx.Done()` won.
-- The goroutine is not stopped then: what `fn` does still happens.
unfoldable pub with_timeout {ℓ} : {A : Type ℓ} → Option Error → M A → M A
with_timeout none fn w = fn w
with_timeout (some e) fn w = (err e, (fn w).1)

-- The timeout is positive, at most the default, and at most what a parent's deadline leaves, if that
-- is positive.
timeout_of-bounds :
    (deadline : Option ℕ)
    → (0 < timeout_of deadline)
      × (timeout_of deadline ≤ default_timeout)
      × ((rem : ℕ) → deadline ≡ some rem → 0 < rem → timeout_of deadline ≤ rem)
unfolding timeout_of default_timeout
timeout_of-bounds none = (omega arith, omega arith, λ rem e. absurd (cc))
timeout_of-bounds (some n) = (
  ground arith,
  ground arith,
  λ rem e h. let same : n ≡ rem = some-injective _ _ e in ground arith,
)
