-- ===== src/Store/Accounts.antt =====
-- `SessionRepository` and `UserRepository` of webapp/backend/internal/repository/session.go and
-- user.go. The session cache is the cache of Cache/Defs.antt over user ids, with 0 for a miss.
use Prim.Native.String.{String}
use snake_42tokyo_tuning.Base.{
  ℕ, ◌+◌, ◌*◌, Bool, false, ◌&&◌, ◌||◌, Option, none, some, List, [], ◌∷◌, ◌==◌, ltb, if◌then◌else◌,
  Run, ok, err,
}
use snake_42tokyo_tuning.Model.{User, Error, no_rows, other}
use snake_42tokyo_tuning.Cache.{Cache, new_cache, get, set}
use snake_42tokyo_tuning.Store.Db.{
  SessionRow, Tables, Env, M, ◌>>=◌, ◌>>◌, return, now, query, exec,
}
use snake_42tokyo_tuning.Store.Orders.{has_user, foreign_key_error}

abbrev pub millisecond : ℕ
millisecond = 1000000

-- `NewSessionRepository`
unfoldable pub new_session_cache : Cache ℕ
new_session_cache = new_cache (300 * millisecond) 1000

-- `GetContext` of no row is an error, and of several takes the first.
abbrev pub one_row {ℓ} : {A : Type ℓ} → Option A → Run Error A
one_row none = err no_rows
one_row (some a) = ok a

-- `SELECT … FROM users WHERE user_name = ?`
unfoldable pub find_name : (String → String → Bool) → String → List User → Option User
find_name same name [] = none
find_name same name (u ∷ us) = if same u.user_name name then some u else find_name same name us

-- `SELECT … FROM users WHERE user_id = ?`
unfoldable pub find_id : ℕ → List User → Option User
find_id id [] = none
find_id id (u ∷ us) = if u.user_id == id then some u else find_id id us

-- `SELECT user_id FROM user_sessions WHERE session_uuid = ? AND expires_at > ?`
unfoldable pub find_session :
    (String → String → Bool) → String → (time : ℕ) → List SessionRow → Option ℕ
find_session same id time [] = none
find_session same id time (r ∷ rs) =
    if same r.session_uuid id && ltb time r.expires_at
    then some r.user_id
    else find_session same id time rs

unfoldable pub has_session : (String → String → Bool) → String → List SessionRow → Bool
has_session same id [] = false
has_session same id (r ∷ rs) = same r.session_uuid id || has_session same id rs

-- The key `session_uuid` is taken.
abbrev pub duplicate_key_error : Error
duplicate_key_error = other 1062

-- `INSERT INTO user_sessions …`
unfoldable pub insert_session : Env → SessionRow → Tables → Run Error (Unit {0} × Tables)
insert_session env row t =
    if has_session env.same row.session_uuid t.user_sessions
    then err duplicate_key_error
    else if has_user row.user_id t.users
    then ok (
      tt,
      record t {
        user_sessions = (record row { expires_at = env.datetime row.expires_at }) ∷ t.user_sessions;
      },
    )
    else err foreign_key_error

-- `uuid.NewRandom` has no random bytes.
abbrev pub uuid_error : Error
uuid_error = other 0

-- A miss is 0.
abbrev pub or_zero : Option ℕ → ℕ
or_zero none = 0
or_zero (some id) = id

module _ (env : Env) where
  unfoldable pub find_by_user_name : String → M User
  find_by_user_name name = query env (λ t. one_row (find_name env.same name t.users))

  unfoldable pub find_by_user_id : ℕ → M User
  find_by_user_id id = query env (λ t. one_row (find_id id t.users))

  unfoldable pub new_random : M String
  new_random w = elim (env.new_uuid w.asked) [
    | none ↦ (err uuid_error, record w { asked = w.asked + 1 })
    | some id ↦ (ok id, record w { asked = w.asked + 1 })
  ]

  -- `Create`
  unfoldable pub create_session : (user_id duration : ℕ) → M (String × ℕ)
  create_session user_id duration = do
    session_id ← new_random
    time ← now env
    exec env (λ server_time t.
        insert_session env
          (record { session_uuid = session_id; user_id = user_id; expires_at = time + duration }) t)
    return (session_id, time + duration)

  -- `sessionCache.get`
  unfoldable pub cached_session : String → M ℕ
  cached_session session_id = do
    time ← now env
    (λ w.
        let read = get time session_id w.session_cache in
        (ok (or_zero read.1), record w { session_cache = read.0 }))

  -- `sessionCache.set`
  unfoldable pub remember_session : String → ℕ → M (Unit {0})
  remember_session session_id user_id = if user_id == 0 then return tt else do
    time ← now env
    later ← now env
    (λ w. (
      ok tt,
      record w {
        session_cache = set env.range_sessions time later session_id user_id w.session_cache;
      },
    ))

  unfoldable pub look_up_session : String → M ℕ
  look_up_session session_id = do
    time ← now env
    user_id ← query env (λ t. one_row (find_session env.same session_id time t.user_sessions))
    remember_session session_id user_id
    return user_id

  -- `FindUserBySessionID`
  unfoldable pub find_user_by_session_id : String → M ℕ
  find_user_by_session_id session_id = do
    cached ← cached_session session_id
    if cached == 0 then look_up_session session_id else return cached
