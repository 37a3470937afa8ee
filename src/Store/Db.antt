-- ===== src/Store/Db.antt =====
-- What the repositories of webapp/backend/internal/repository/ are connected to: the tables of
-- webapp/mysql/init/init.sql, and the answers of the driver behind the interface `DBTX` of db.go.
-- A SQL statement is a function on the tables. Each statement, and each start and end of a
-- transaction, asks the environment whether it fails; one that fails changes nothing.
use Prim.Native.String.{String}
use snake_42tokyo_tuning.Base.{ℕ, ◌+◌, Bool, Option, none, some, List, Run, ok, err, panic, no_fuel}
use snake_42tokyo_tuning.Model.{User, Product, Order, Error}
use snake_42tokyo_tuning.Cache.{Cache, Range}

-- A row of the table `orders`.
pub record OrderRow : Type 0 where
  pub order_id : ℕ
  pub user_id : ℕ
  pub product_id : ℕ
  pub shipped_status : String
  pub created_at : ℕ
  pub arrived_at : Option ℕ

-- A row of the table `user_sessions`, without its own number.
pub record SessionRow : Type 0 where
  pub session_uuid : String
  pub user_id : ℕ
  pub expires_at : ℕ

-- `next_order_id` is the counter of AUTO_INCREMENT.
pub record Tables : Type 0 where
  pub users : List User
  pub products : List Product
  pub orders : List OrderRow
  pub next_order_id : ℕ
  pub user_sessions : List SessionRow

-- The state of the backend: the tables, its two caches (`none`: the user cache is switched off),
-- and the number of questions put to the environment so far.
pub record World : Type 0 where
  pub tables : Tables
  pub session_cache : Cache ℕ
  pub user_cache : Option (Cache User)
  pub asked : ℕ

-- What the environment answers to the question of a number: whether the driver fails, and the clock.
-- Further the library calls: `uuid.NewRandom`, `bcrypt.CompareHashAndPassword` (true: no error), and
-- the orders in which `range` visits the two caches and in which a `SELECT` without ORDER BY returns
-- its rows, the collation (`same`: are two texts equal to the server?), and what a DATETIME column
-- keeps of a time.
pub record Env : Type 0 where
  pub fault : ℕ → Option Error
  pub clock : ℕ → ℕ
  pub new_uuid : ℕ → Option String
  pub compare_hash : String → String → Bool
  pub range_sessions : Range ℕ
  pub range_users : Range User
  pub arrange : List Order → List Order
  pub same : String → String → Bool
  pub datetime : ℕ → ℕ

-- A computation of the backend. `abbrev`, so that a `do` block computes.
abbrev pub M {ℓ} : Type ℓ → Type ℓ
M A = World → Run Error A × World

abbrev pub continue {ℓ κ} :
    {A : Type ℓ} {B : Type κ} → Run Error A × World → (A → M B) → Run Error B × World
continue (ok a, w) f = f a w
continue (err e, w) f = (err e, w)
continue (panic, w) f = (panic, w)
continue (no_fuel, w) f = (no_fuel, w)

infixl 1 ◌>>=◌ ◌>>◌
abbrev pub ◌>>=◌ {ℓ κ} : {A : Type ℓ} {B : Type κ} → M A → (A → M B) → M B
◌>>=◌ m f w = continue (m w) f

abbrev pub ◌>>◌ {ℓ} : {B : Type ℓ} → M (Unit {0}) → M B → M B
m >> k = m >>= λ _. k

abbrev pub return {ℓ} : {A : Type ℓ} → A → M A
return a w = (ok a, w)

abbrev pub fail {ℓ} : {A : Type ℓ} → Error → M A
fail e w = (err e, w)

-- A pure computation that may fail.
abbrev pub lift {ℓ} : {A : Type ℓ} → Run Error A → M A
lift r w = (r, w)

-- The tables that a statement leaves.
unfoldable pub settle {ℓ} : {A : Type ℓ} → Run Error (A × Tables) → World → Run Error A × World
settle (ok (a, t)) w = (ok a, record w { tables = t })
settle (err e) w = (err e, w)
settle panic w = (panic, w)
settle no_fuel w = (no_fuel, w)

module _ (env : Env) where
  -- `time.Now()`
  unfoldable pub now : M ℕ
  now w = (ok (env.clock w.asked), record w { asked = w.asked + 1 })

  -- A call of the driver with no effect of its own: the start of a transaction.
  unfoldable pub ping : M (Unit {0})
  ping w = elim (env.fault w.asked) [
    | some e ↦ (err e, record w { asked = w.asked + 1 })
    | none ↦ (ok tt, record w { asked = w.asked + 1 })
  ]

  -- `GetContext` and `SelectContext`: a statement that reads.
  unfoldable pub query {ℓ} : {A : Type ℓ} → (Tables → Run Error A) → M A
  query f w = elim (env.fault w.asked) [
    | some e ↦ (err e, record w { asked = w.asked + 1 })
    | none ↦ (f w.tables, record w { asked = w.asked + 1 })
  ]

  -- `ExecContext`: a statement that writes, at the time of the server (`NOW()`).
  unfoldable pub exec {ℓ} : {A : Type ℓ} → (ℕ → Tables → Run Error (A × Tables)) → M A
  exec f w = elim (env.fault w.asked) [
    | some e ↦ (err e, record w { asked = w.asked + 1 })
    | none ↦ settle (f (env.clock w.asked) w.tables) (record w { asked = w.asked + 1 })
  ]
