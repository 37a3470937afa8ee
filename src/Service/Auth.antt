-- ===== src/Service/Auth.antt =====
-- `AuthService` of webapp/backend/internal/service/auth.go.
use Prim.Native.String.{String}
use text.Mathlib.Text.{◌==◌ as str_eq}
use snake_42tokyo_tuning.Base.{
  ℕ, ◌*◌, ◌&&◌, Option, none, some, lt_int, if◌then◌else◌, Run, ok, err, panic, no_fuel,
}
use snake_42tokyo_tuning.Model.{
  User, Error, no_rows, user_not_found, invalid_password, internal_server, cancelled, other,
}
use snake_42tokyo_tuning.Cache.{Cache, new_cache, get, set}
use snake_42tokyo_tuning.Store.Db.{World, Env, M, ◌>>=◌, ◌>>◌, return, fail, now}
use snake_42tokyo_tuning.Store.Accounts.{
  millisecond, find_by_user_name, find_by_user_id, create_session, find_user_by_session_id,
}
use snake_42tokyo_tuning.Store.Tx.{with_timeout}

-- `parseDurationEnv` and `parseIntEnv`, from the text of the variable and what it parses to.
unfoldable pub parse_env : (raw : String) → (parsed : Option ℕ) → (fallback : ℕ) → ℕ
parse_env raw none fallback = fallback
parse_env raw (some n) fallback =
    if str_eq raw "" then fallback else if lt_int 0 n then n else fallback

-- `NewAuthService`: the cache, or `none` where the source leaves it nil.
unfoldable pub new_user_cache : (ttl size : ℕ) → Option (Cache User)
new_user_cache ttl size = if lt_int 0 ttl && lt_int 0 size then some (new_cache ttl size) else none

-- How `Login` and `VerifySession` translate the error of a repository.
unfoldable pub translate : Error → Error
translate no_rows = user_not_found
translate user_not_found = internal_server
translate invalid_password = internal_server
translate internal_server = internal_server
translate cancelled = internal_server
translate (other n) = internal_server

-- `if err != nil { return f(err) }`
unfoldable pub map_error {ℓ} :
    {A : Type ℓ} → (Error → Error) → Run Error A × World → Run Error A × World
map_error f (ok a, w) = (ok a, w)
map_error f (err e, w) = (err (f e), w)
map_error f (panic, w) = (panic, w)
map_error f (no_fuel, w) = (no_fuel, w)

abbrev pub day : ℕ
day = 24 * 3600 * 1000 * millisecond

module _ (env : Env) where
  -- `userCache.get`, if there is a cache.
  unfoldable pub cached_user : String → M (Option User)
  cached_user name = do
    time ← now env
    (λ w. elim w.user_cache [
      | none ↦ (ok none, w)
      | some c ↦ let read = get time name c in (ok read.1, record w { user_cache = some read.0 })
    ])

  unfoldable pub remember_user : String → User → M (Unit {0})
  remember_user name user = do
    time ← now env
    later ← now env
    (λ w. elim w.user_cache [
      | none ↦ (ok tt, w)
      | some c ↦
          (ok tt, record w { user_cache = some (set env.range_users time later name user c) })
    ])

  unfoldable pub load_user : String → M User
  load_user name = do user ← find_by_user_name env name; remember_user name user; return user

  -- `getUser`
  unfoldable pub get_user : String → M User
  get_user name = do
    cached ← cached_user name
    elim cached [ none ↦ load_user name | some user ↦ return user ]

  unfoldable pub start_session : User → String → M (String × ℕ)
  start_session user password =
      if env.compare_hash user.password_hash password
      then (λ w. map_error (λ e. internal_server) (create_session env user.user_id day w))
      else fail invalid_password

  unfoldable pub log_in : String → String → M (String × ℕ)
  log_in name password = do
    user ← λ w. map_error translate (get_user name w)
    start_session user password

  -- `Login`
  unfoldable pub login : Option Error → String → String → M (String × ℕ)
  login fired name password = with_timeout fired (log_in name password)

  unfoldable pub session_user : String → M User
  session_user session_id = do
    user_id ← λ w. map_error translate (find_user_by_session_id env session_id w)
    (λ w. map_error translate (find_by_user_id env user_id w))

  -- `VerifySession`
  unfoldable pub verify_session : Option Error → String → M User
  verify_session fired session_id = with_timeout fired (session_user session_id)
