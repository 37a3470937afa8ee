-- ===== src/Handler/Access.antt =====
-- Whom the middleware of webapp/backend/internal/middleware/auth.go lets through.
use Prim.Native.String.{String}
use text.Mathlib.Text.{◌==◌ as str_eq}
use text.Mathlib.TextEquality.{eq_iff}
use snake_42tokyo_tuning.Base.{
  ℕ, ◌≡◌, ◌≢◌, refl, Option, none, some, ◌⊎◌, inl, inr, Bool-cases, Run,
}
use snake_42tokyo_tuning.Model.{Error}
use snake_42tokyo_tuning.Store.Db.{Tables, World, Env}
use snake_42tokyo_tuning.Store.Leaves.{Leaves, done, failed, Failure}
use snake_42tokyo_tuning.Store.Backing.{OwnerIn, NoRows, IsBacked, find_user_by_session_id-IsBacked}
use snake_42tokyo_tuning.Handler.Replies.{Reply, refused, admit, user_auth, robot_auth}

-- The middleware has refused the request, or the handler has run for a user whose session it is.
pub data Admitted {ℓ} {A : Type ℓ} (env : Env) (t : Tables) (cookie : Option String)
    (next : ℕ → World → Reply A × World) : Reply A × World → Type ℓ where
  turned_away : {w : World} → IsBacked env t w → Admitted env t cookie next (refused 401, w)
  let_in :
      {w : World} (session_id : String) (user_id : ℕ)
      → cookie ≡ some session_id
      → OwnerIn env t.user_sessions session_id user_id
      → IsBacked env t w
      → Admitted env t cookie next (next user_id w)

module _ {ℓ} {A : Type ℓ} (env : Env) (next : ℕ → World → Reply A × World) (t : Tables) where
  admit-Admitted :
      (session_id : String) {r : Run Error ℕ × World}
      → Leaves
          (λ e w'. Failure env NoRows e × IsBacked env t w')
          (λ user_id w'. OwnerIn env t.user_sessions session_id user_id × IsBacked env t w')
          r
      → Admitted env t (some session_id) next (admit next r)
  unfolding admit
  admit-Admitted session_id (done (owner, b)) = let_in session_id _ refl owner b
  admit-Admitted session_id (failed (why, b)) = turned_away b

  -- If rows stand behind the caches, `UserAuthMiddleware` either refuses a request with the status 401,
  -- without a change of the tables, or runs the handler for a user to whom, by a row of the tables, the
  -- session of the cookie belongs.
  pub user_auth-Admitted :
      (cookie : Option String) (w : World)
      → IsBacked env t w
      → Admitted env t cookie next (user_auth env cookie next w)
  unfolding user_auth
  user_auth-Admitted none w b = turned_away b
  user_auth-Admitted (some session_id) w b =
      admit-Admitted session_id (find_user_by_session_id-IsBacked env session_id t w b)

-- `RobotAuthMiddleware` runs the handler exactly for the valid key, and never for an empty one; any
-- other request is refused with the status 403 and changes nothing.
pub robot_auth-cases {ℓ} :
    {A : Type ℓ} (valid_api_key api_key : String) (next : World → Reply A × World) (w : World)
    → ((api_key ≢ "")
        × (api_key ≡ valid_api_key)
        × (robot_auth valid_api_key api_key next w ≡ next w))
      ⊎ (((api_key ≡ "") ⊎ (api_key ≢ valid_api_key))
          × (robot_auth valid_api_key api_key next w ≡ (refused 403, w)))
unfolding robot_auth
robot_auth-cases valid_api_key api_key next w = elim (Bool-cases (str_eq api_key "")) [
  | inl empty ↦ inr (inl ((eq_iff api_key "").0 empty), rw (robot_auth, empty) refl)
  | inr given ↦ elim (Bool-cases (str_eq api_key valid_api_key)) [
    | inl valid ↦ inl (
      λ e. absurd (cc ((eq_iff api_key "").1 e)),
      (eq_iff api_key valid_api_key).0 valid,
      rw (robot_auth, given, valid) refl,
    )
    | inr invalid ↦ inr (
      inr (λ e. absurd (cc ((eq_iff api_key valid_api_key).1 e))),
      rw (robot_auth, given, invalid) refl,
    )
  ]
]
