-- ===== src/Store/Leaves.antt =====
-- What a computation of the backend leaves behind, in every run: rules for the calls of the driver,
-- for `do` blocks and for the transactions of webapp/backend/internal/repository/store.go.
use snake_42tokyo_tuning.Base.{
  ℕ, ◌+◌, ◌≡◌, ◌≢◌, refl, true, some, Option-cases, inl, inr, Run, ok, err, panic, no_fuel, Ends,
  value, error,
}
use snake_42tokyo_tuning.Model.{Error}
use snake_42tokyo_tuning.Store.Db.{Tables, World, Env, M, continue, ping, query, exec, settle, lift}
use snake_42tokyo_tuning.Store.Tx.{Restored, exec_tx, close_tx, commit, rollback}

-- The run neither panics nor runs out of fuel. A value and the state after it satisfy `P`, an error
-- and the state after it satisfy `Q`.
pub data Leaves {ℓ κ ν} {A : Type ℓ} (Q : Error → World → Type κ) (P : A → World → Type ν)
    : Run Error A × World → Type (ℓ ⊔ κ ⊔ ν) where
  done : {a : A} {w : World} → P a w → Leaves Q P (ok a, w)
  failed : {e : Error} {w : World} → Q e w → Leaves Q P (err e, w)

-- What a run that ends well has established.
abbrev pub Established {ℓ ν} : {A : Type ℓ} → (A → World → Type ν) → Run Error A × World → Type ν
Established P (ok a, w) = P a w
Established P (err e, w) = Unit
Established P (panic, w) = Unit
Established P (no_fuel, w) = Unit

-- The run does not end well.
abbrev pub Never {ℓ} : {A : Type ℓ} → Run Error A × World → Type 0
Never r = Established (λ a w. ⊥) r

pub Never-ok {ℓ} : {A : Type ℓ} (r : Run Error A × World) → Never r → (a : A) → r.0 ≢ ok a
Never-ok (ok a', w) never a = λ e. never
Never-ok (err x, w) never a = cc
Never-ok (panic, w) never a = cc
Never-ok (no_fuel, w) never a = cc

pub not_ok-Established {ℓ ν} :
    {A : Type ℓ} (P : A → World → Type ν) (r : Run Error A × World)
    → ((a : A) → r.0 ≢ ok a)
    → Established P r
not_ok-Established P (ok a, w) h = absurd (h a refl)
not_ok-Established P (err e, w) h = tt
not_ok-Established P (panic, w) h = tt
not_ok-Established P (no_fuel, w) h = tt

pub Leaves-Never {ℓ ℓ' κ ν} :
    {A : Type ℓ} {B : Type ℓ'} {Q : Error → World → Type κ} {P : A → World → Type ν}
    {r : Run Error A × World} (f : A → M B)
    → Leaves Q P r
    → ((a : A) (w : World) → P a w → Never (f a w))
    → Never (continue r f)
Leaves-Never f (done p) never = never _ _ p
Leaves-Never f (failed q) never = tt

pub Leaves-Established {ℓ κ ν} :
    {A : Type ℓ} {Q : Error → World → Type κ} {P : A → World → Type ν} {r : Run Error A × World}
    → Leaves Q P r
    → Established P r
Leaves-Established (done p) = p
Leaves-Established (failed q) = tt

-- The run ends well, in a value and a state that satisfy `P`.
abbrev pub Succeeds {ℓ ν} : {A : Type ℓ} → (A → World → Type ν) → Run Error A × World → Type (ℓ ⊔ ν)
Succeeds P r = Leaves (λ e w. ⊥) P r

-- The errors of a computation: those of the driver, and its own.
pub data Failure {κ} (env : Env) (X : Error → Type κ) : Error → Type κ where
  driver : {e : Error} (n : ℕ) → env.fault n ≡ some e → Failure env X e
  own : {e : Error} → X e → Failure env X e

-- The error is a failure, and the tables are as they were.
abbrev pub Unchanged {κ} : (env : Env) → (Error → Type κ) → Tables → Error → World → Type κ
Unchanged env X t e w = Failure env X e × (w.tables ≡ t)

-- The error is a failure, and the rows of the tables are as they were.
abbrev pub Reverted {κ} : (env : Env) → (Error → Type κ) → Tables → Error → World → Type κ
Reverted env X t e w = Failure env X e × Restored t w.tables

module _ {ℓ κ ν} {A : Type ℓ} {Q : Error → World → Type κ} {P : A → World → Type ν} where
  pub Leaves-bind {ℓ' ν'} :
      {B : Type ℓ'} {R : B → World → Type ν'} {r : Run Error A × World} {f : A → M B}
      → Leaves Q P r
      → ((a : A) (w : World) → P a w → Leaves Q R (f a w))
      → Leaves Q R (continue r f)
  Leaves-bind (done p) k = k _ _ p
  Leaves-bind (failed q) k = failed q

  pub Leaves-map {κ' ν'} :
      {Q' : Error → World → Type κ'} {R : A → World → Type ν'} {r : Run Error A × World}
      → Leaves Q P r
      → ((e : Error) (w : World) → Q e w → Q' e w)
      → ((a : A) (w : World) → P a w → R a w)
      → Leaves Q' R r
  Leaves-map (done p) f g = done (g _ _ p)
  Leaves-map (failed q) f g = failed (f _ _ q)

  -- A computation whose errors are all excluded ends well.
  pub Leaves-Succeeds :
      {r : Run Error A × World}
      → ((e : Error) (w : World) → Q e w → ⊥)
      → Leaves Q P r
      → Succeeds P r
  Leaves-Succeeds never p = Leaves-map p never λ a w q. q

pub lift-Leaves {ℓ κ ν} :
    {A : Type ℓ} {Q : Error → Type κ} {P : A → Type ν} {r : Run Error A} (w : World)
    → Ends Q P r
    → Leaves (λ e w'. Q e) (λ a w'. P a × (w'.tables ≡ w.tables)) (lift r w)
lift-Leaves w (value p) = done (p, refl)
lift-Leaves w (error q) = failed q

module _ {κ} (env : Env) (X : Error → Type κ) where
  -- A statement that reads leaves the tables.
  pub query-Leaves {ℓ ν} :
      {A : Type ℓ} {P : A → Type ν} (f : Tables → Run Error A) (w : World)
      → Ends X P (f w.tables)
      → Leaves (λ e w'. Failure env X e) (λ a w'. P a × (w'.tables ≡ w.tables)) (query env f w)
  unfolding query
  query-Leaves f w p = elim (Option-cases (env.fault w.asked)) [
    | inl quiet ↦
        rw (quiet, query)
          (Leaves-map (lift-Leaves (record w { asked = w.asked + 1 }) p) (λ e w' x. own x)
            λ a w' q. q)
    | inr (e, fault) ↦ rw (fault, query) (failed (driver w.asked fault))
  ]

  -- After an error, too.
  pub query-Unchanged {ℓ ν} :
      {A : Type ℓ} {P : A → Type ν} (f : Tables → Run Error A) (w : World)
      → Ends X P (f w.tables)
      → Leaves (Unchanged env X w.tables) (λ a w'. P a × (w'.tables ≡ w.tables)) (query env f w)
  unfolding query
  query-Unchanged {A} {P} f w p = elim (Option-cases (env.fault w.asked)) [
    | inl quiet ↦ rw (quiet, query) (answered p)
    | inr (e, fault) ↦ rw (fault, query) (failed (driver w.asked fault, refl))
  ]
    where
      answered :
          {r : Run Error A}
          → Ends X P r
          → Leaves
              (Unchanged env X w.tables)
              (λ a w'. P a × (w'.tables ≡ w.tables))
              (r, record w { asked = w.asked + 1 })
      answered (value q) = done (q, refl)
      answered (error x) = failed (own x, refl)

  settle-Leaves {ℓ ν} :
      {A : Type ℓ} (P : A → Tables → Type ν) {r : Run Error (A × Tables)} (w : World)
      → Ends X (λ p. P p.0 p.1) r
      → Leaves (λ e w'. Failure env X e) (λ a w'. P a w'.tables) (settle r w)
  unfolding settle
  settle-Leaves P w (value p) = done p
  settle-Leaves P w (error q) = failed (own q)

  pub exec-Leaves {ℓ ν} :
      {A : Type ℓ} (P : A → Tables → Type ν) (f : ℕ → Tables → Run Error (A × Tables)) (w : World)
      → ((time : ℕ) → Ends X (λ p. P p.0 p.1) (f time w.tables))
      → Leaves (λ e w'. Failure env X e) (λ a w'. P a w'.tables) (exec env f w)
  unfolding exec
  exec-Leaves P f w p = elim (Option-cases (env.fault w.asked)) [
    | inl quiet ↦
        rw (quiet, exec)
          (settle-Leaves P (record w { asked = w.asked + 1 }) (p (env.clock w.asked)))
    | inr (e, fault) ↦ rw (fault, exec) (failed (driver w.asked fault))
  ]

  close_tx-Leaves {ℓ ν} :
      {A : Type ℓ} (P : A → Tables → Type ν) {r : Run Error A × World} (before : Tables)
      → Leaves (λ e w'. Failure env X e) (λ a w'. P a w'.tables) r
      → Leaves (Reverted env X before) (λ a w'. P a w'.tables) (close_tx env before r)
  unfolding close_tx commit rollback
  close_tx-Leaves P before (done {w} p) = elim (Option-cases (env.fault w.asked)) [
    | inl quiet ↦ rw (quiet, commit) (done p)
    | inr (e, fault) ↦ rw (fault, commit) (failed (driver w.asked fault, refl))
  ]
  close_tx-Leaves P before (failed q) = failed (q, refl)

  close_tx-Never {ℓ} :
      {A : Type ℓ} (before : Tables) (r : Run Error A × World)
      → Never r
      → Never (close_tx env before r)
  unfolding close_tx
  close_tx-Never before (ok a, w) never = absurd never
  close_tx-Never before (err e, w) never = tt
  close_tx-Never before (panic, w) never = tt
  close_tx-Never before (no_fuel, w) never = tt

  -- A transaction does not end well if its function does not.
  pub exec_tx-Never {ℓ} :
      {A : Type ℓ} (fn : M A) (w : World)
      → ((w' : World) → w'.tables ≡ w.tables → Never (fn w'))
      → Never (exec_tx env true fn w)
  unfolding exec_tx ping
  exec_tx-Never fn w never = elim (Option-cases (env.fault w.asked)) [
    | inl quiet ↦
        rw (quiet, ping) (close_tx-Never w.tables _ (never (record w { asked = w.asked + 1 }) refl))
    | inr (e, fault) ↦ rw (fault, ping) tt
  ]

  -- A transaction ends as its function does; after an error the rows are those from before.
  pub exec_tx-Leaves {ℓ ν} :
      {A : Type ℓ} (P : A → Tables → Type ν) (fn : M A) (w : World)
      → ((w' : World)
          → w'.tables ≡ w.tables
          → Leaves (λ e w''. Failure env X e) (λ a w''. P a w''.tables) (fn w'))
      → Leaves (Reverted env X w.tables) (λ a w'. P a w'.tables) (exec_tx env true fn w)
  unfolding exec_tx ping
  exec_tx-Leaves P fn w p = elim (Option-cases (env.fault w.asked)) [
    | inl quiet ↦
        rw (quiet, ping) (close_tx-Leaves P w.tables (p (record w { asked = w.asked + 1 }) refl))
    | inr (e, fault) ↦ rw (fault, ping) (failed (driver w.asked fault, refl))
  ]
