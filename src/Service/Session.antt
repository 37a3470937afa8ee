-- ===== src/Service/Session.antt =====
-- A session leads back to the user who has logged in: `Login` and then `VerifySession` of
-- webapp/backend/internal/service/auth.go.
use Prim.Native.String.{String}
use mathlib.Core.List.{Memᴰ}
use mathlib.Core.List.Memᴰ.{head, tail}
use snake_42tokyo_tuning.Base.{
  ℕ, ◌≡◌, sym, ap, ◌∙◌, subst, true, false, Option, List, [], ◌∷◌, ok, arith,
}
use snake_42tokyo_tuning.Model.{User, Error}
use snake_42tokyo_tuning.Store.Db.{SessionRow, Tables, World, Env}
use snake_42tokyo_tuning.Store.Accounts.{has_session}
use snake_42tokyo_tuning.Store.Backing.{OwnerIn, NamedIn, IsBacked}
use snake_42tokyo_tuning.Store.Leaves.{Established, Leaves-Established}
use snake_42tokyo_tuning.Service.Auth.{login, verify_session}
use snake_42tokyo_tuning.Service.Login.{joined, IsLoggedIn}
use snake_42tokyo_tuning.Service.Timed.{login-Timed, verify_session-Timed}

module _ (env : Env) where
  not_in_session :
      (id : String) (r : SessionRow) (rows : List SessionRow)
      → has_session env.same id rows ≡ false
      → Memᴰ r rows
      → env.same r.session_uuid id ≡ false
  unfolding has_session
  not_in_session id r [] h m = elim m [ ]
  not_in_session id r (q ∷ rows) h (head e) =
      subst (λ (x : SessionRow). env.same x.session_uuid id ≡ false) (sym e) (ground (arith, h))
  not_in_session id r (q ∷ rows) h (tail m) = not_in_session id r rows (ground (arith, h)) m

  -- The only owner of a fresh session is its user.
  pub OwnerIn-joined :
      (t : Tables) (id : String) (user_id expires_at owner : ℕ)
      → has_session env.same id t.user_sessions ≡ false
      → OwnerIn env (joined env t id user_id expires_at).user_sessions id owner
      → owner ≡ user_id
  OwnerIn-joined t id user_id expires_at owner fresh (r, head e, same, owned) =
      sym owned ∙ ap (λ (x : SessionRow). x.user_id) e
  OwnerIn-joined t id user_id expires_at owner fresh (r, tail m, same, owned) =
      absurd (cc (sym same ∙ not_in_session id r t.user_sessions fresh m))

  -- If rows stand behind the caches, and a login ends with a session, and a verification of this
  -- session, with no other statement between them, ends with a user, then it has the id of a user
  -- whose name was given to the login and whose hash accepts the password.
  pub verify_session-login :
      (fired fired' : Option Error) (name password session_id : String) (expires_at : ℕ)
      (found : User) (t : Tables) (w w1 w2 : World)
      → IsBacked env t w
      → login env fired name password w ≡ (ok (session_id, expires_at), w1)
      → verify_session env fired' session_id w1 ≡ (ok found, w2)
      → (user : User) × NamedIn env t.users name user
        × (env.compare_hash user.password_hash password ≡ true)
        × (found.user_id ≡ user.user_id)
  verify_session-login fired fired' name password session_id expires_at found t w w1 w2 b entered
        verified =
      let l : IsLoggedIn env t name password session_id expires_at w1 =
        subst (Established λ s w'. IsLoggedIn env t name password s.0 s.1 w') entered
          (Leaves-Established (login-Timed env fired name password t w b)) in
      let (m, owner, kept) =
        subst
          (Established λ user w'.
            Memᴰ user w1.tables.users
            × OwnerIn env w1.tables.user_sessions session_id user.user_id
            × IsBacked env w1.tables w')
          verified
          (Leaves-Established (verify_session-Timed env fired' session_id w1.tables w1 l.backed)) in
      (
        l.user,
        l.known,
        l.accepted,
        OwnerIn-joined t session_id l.user.user_id expires_at found.user_id l.fresh (
            subst (λ (s : Tables). OwnerIn env s.user_sessions session_id found.user_id) l.started
              owner),
      )
