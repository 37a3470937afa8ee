-- ===== src/Start/Database.antt =====
-- `InitDBConnection` of webapp/backend/internal/db/db.go. The driver is a parameter.
use Prim.Native.String.{String, ◌++◌ as str_append}
use snake_42tokyo_tuning.Base.{ℕ, Bool, if◌then◌else◌, Run, ok, err}
use snake_42tokyo_tuning.Base.Dict.{Dict}
use snake_42tokyo_tuning.Start.Environment.{getenv_or}
use snake_42tokyo_tuning.Start.Telemetry.{Library, wrap_sql_driver}

-- A connection that is open, with the limits of its pool.
pub record Connection : Type 0 where
  pub driver_name : String
  pub dsn : String
  pub max_open_conns : ℕ
  pub max_idle_conns : ℕ
  pub max_lifetime : ℕ

pub data DbError : Type 0 where
  open_failed : DbError
  ping_failed : DbError

-- Whether `sqlx.Open` and `PingContext` succeed for a driver and a data source.
pub record Driver : Type 0 where
  pub opens : (driver_name dsn : String) → Bool
  pub answers : (driver_name dsn : String) → Bool

unfoldable pub data_source : Dict String → String
data_source vars =
    str_append (getenv_or vars "DATABASE_URL" "user:password@tcp(db:4306)/42Tokyo2508-db")
      "?charset=utf8mb4&parseTime=True&loc=Local"

module _ {Float : Type 0} (library : Library Float) (driver : Driver) where
  unfoldable pub init_db_connection : Dict String → Run DbError Connection
  unfolding data_source
  init_db_connection vars =
      let driver_name = wrap_sql_driver library vars "mysql" in
      if driver.opens driver_name (data_source vars)
      then if driver.answers driver_name (data_source vars)
        then ok (record {
          driver_name = driver_name;
          dsn = data_source vars;
          max_open_conns = 25;
          max_idle_conns = 10;
          max_lifetime = 0;
        })
        else err ping_failed
      else err open_failed
