-- ===== src/Service/Verify.antt =====
-- Who is recognised: `VerifySession` of webapp/backend/internal/service/auth.go.
use Prim.Native.String.{String}
use mathlib.Core.List.{Memᴰ}
use mathlib.Core.List.Memᴰ.{head, tail}
use mathlib.Core.Option.{some-injective}
use snake_42tokyo_tuning.Base.{
  ℕ, ◌≡◌, refl, sym, subst, none, some, List, [], ◌∷◌, ◌==◌, ==_iff, Bool-cases, ◌⊎◌, inl, inr,
}
use snake_42tokyo_tuning.Model.{
  User, Error, no_rows, user_not_found, invalid_password, internal_server, cancelled, other,
}
use snake_42tokyo_tuning.Store.Db.{Tables, World, Env}
use snake_42tokyo_tuning.Store.Tx.{with_timeout}
use snake_42tokyo_tuning.Store.Leaves.{Leaves, Leaves-bind, Leaves-map}
use snake_42tokyo_tuning.Store.Accounts.{find_id, find_by_user_id}
use snake_42tokyo_tuning.Store.Backing.{
  OwnerIn, IsBacked, one_row-Ends, query-IsBacked, find_user_by_session_id-IsBacked,
}
use snake_42tokyo_tuning.Service.Auth.{translate, session_user, verify_session}
use snake_42tokyo_tuning.Service.Backing.{map_error-Leaves}

-- The errors of `VerifySession`.
abbrev pub Unverified : Error → Type 0
Unverified e = (e ≡ user_not_found) ⊎ (e ≡ internal_server)

module _ (env : Env) where
  find_id_sound :
      (id : ℕ) (user : User) (users : List User)
      → find_id id users ≡ some user
      → Memᴰ user users × (user.user_id ≡ id)
  unfolding find_id
  find_id_sound id user [] h = absurd (cc)
  find_id_sound id user (u ∷ us) h = elim (Bool-cases (u.user_id == id)) [
    | inl found ↦
        let same : u ≡ user = some-injective _ _ (rw (found, find_id) at h) in
        (head (sym same), subst (λ (v : User). v.user_id ≡ id) same ((==_iff u.user_id id).0 found))
    | inr differs ↦
        let (m, e) = find_id_sound id user us (rw (differs, find_id) at h) in (tail m, e)
  ]

  translate-Unverified : (e : Error) → Unverified (translate e)
  unfolding translate
  translate-Unverified no_rows = inl refl
  translate-Unverified user_not_found = inr refl
  translate-Unverified invalid_password = inr refl
  translate-Unverified internal_server = inr refl
  translate-Unverified cancelled = inr refl
  translate-Unverified (other n) = inr refl

  -- While the timeout does not fire, and if rows stand behind the caches, `VerifySession` never
  -- panics and leaves the tables. A user that it returns has a row, and a session with this id
  -- belongs to the user; its errors are 'user not found' and 'internal server error'. Rows stand
  -- behind the caches afterwards.
  pub verify_session-OwnerIn :
      (session_id : String) (t : Tables) (w : World)
      → IsBacked env t w
      → Leaves
          (λ e w'. Unverified e × IsBacked env t w')
          (λ user w'.
            Memᴰ user t.users
            × OwnerIn env t.user_sessions session_id user.user_id
            × IsBacked env t w')
          (verify_session env none session_id w)
  unfolding verify_session with_timeout session_user find_by_user_id
  verify_session-OwnerIn session_id t w b =
      Leaves-bind
        (map_error-Leaves translate (find_user_by_session_id-IsBacked env session_id t w b)
          λ e w' (why, kept). (translate-Unverified e, kept))
        λ id w1 (owner, b1).
          Leaves-map
            (map_error-Leaves {Q' = λ e w'. Unverified e × IsBacked env t w'} translate
              (query-IsBacked env {P = λ user. Memᴰ user t.users × (user.user_id ≡ id)} _ t w1 b1 (
                one_row-Ends (find_id id t.users)
                  λ user found. find_id_sound id user t.users found))
              λ e w' (why, kept). (translate-Unverified e, kept))
            (λ e w' q. q)
            λ user w' ((m, same), b2).
              (m, subst (OwnerIn env t.user_sessions session_id) (sym same) owner, b2)
