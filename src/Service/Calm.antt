-- ===== src/Service/Calm.antt =====
-- `Login` of webapp/backend/internal/service/auth.go ends well while nothing fails.
use Prim.Native.String.{String}
use mathlib.Core.Option.{some-injective}
use snake_42tokyo_tuning.Base.{ℕ, ◌≡◌, sym, ◌∙◌, true, false, none, some}
use snake_42tokyo_tuning.Model.{User, Error}
use snake_42tokyo_tuning.Store.Db.{Tables, World, Env}
use snake_42tokyo_tuning.Store.Leaves.{Succeeds, Leaves-Succeeds}
use snake_42tokyo_tuning.Store.Accounts.{find_name, has_session}
use snake_42tokyo_tuning.Store.Backing.{NamedIn, IsBacked}
use snake_42tokyo_tuning.Service.Auth.{login}
use snake_42tokyo_tuning.Service.Login.{
  Refusal, unknown, no_answer, wrong, faulty, drained, taken, IsLoggedIn, login-IsLoggedIn,
}

module _ (env : Env) (calm : (n : ℕ) → env.fault n ≡ none) where
  -- While no statement fails and no timeout fires: if the name has a row, and the hashes of all rows
  -- of the name accept the password, and each random id is there and is that of no session, and rows
  -- stand behind the caches, then `Login` ends with a session. Its user has a row of the name; the
  -- only change of the tables is the row of the session, 24 hours from a reading of the clock.
  pub login-Succeeds :
      (name password : String) (user : User) (t : Tables) (w : World)
      → IsBacked env t w
      → find_name env.same name t.users ≡ some user
      → ((u : User) → NamedIn env t.users name u → env.compare_hash u.password_hash password ≡ true)
      → ((n : ℕ)
          → (id : String) × (env.new_uuid n ≡ some id)
            × (has_session env.same id t.user_sessions ≡ false))
      → Succeeds
          (λ s w'. IsLoggedIn env t name password s.0 s.1 w')
          (login env none name password w)
  login-Succeeds name password user t w b named accepts fresh =
      Leaves-Succeeds (λ e w' q. never e q.0) (login-IsLoggedIn env name password t w b)
    where
      never : (e : Error) → Refusal env t name password e → ⊥
      never _ (unknown nobody) = cc (sym named ∙ nobody)
      never _ (no_answer n fault) = cc (sym (calm n) ∙ fault)
      never _ (wrong u known refuses) = cc (sym (accepts u known) ∙ refuses)
      never _ (faulty n fault) = cc (sym (calm n) ∙ fault)
      never _ (drained n dry) = let (id, drawn, free) = fresh n in cc (sym drawn ∙ dry)
      never _ (taken n session_id drawn found) =
          let (id, drawn', free) = fresh n in
          let same : id ≡ session_id = some-injective _ _ (sym drawn' ∙ drawn) in
          cc (found, free, same)
