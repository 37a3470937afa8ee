-- ===== src/Service/Backing.antt =====
-- `AuthService` of webapp/backend/internal/service/auth.go only knows users that a row stands behind.
use Prim.Native.String.{String}
use mathlib.Core.Option.{some-injective}
use snake_42tokyo_tuning.Base.{
  ◌≡◌, refl, subst, Option, none, some, Option-cases, inl, inr, Run, Ends, value, error,
}
use snake_42tokyo_tuning.Model.{User, Error, no_rows}
use snake_42tokyo_tuning.Cache.{Cache}
use snake_42tokyo_tuning.Cache.Contents.{AllOf, set-AllOf, get-AllOf}
use snake_42tokyo_tuning.Store.Db.{Tables, World, Env, M, now}
use snake_42tokyo_tuning.Store.Leaves.{Leaves, done, failed, Failure, Leaves-bind}
use snake_42tokyo_tuning.Store.Accounts.{one_row, find_name, find_by_user_name}
use snake_42tokyo_tuning.Store.Db.{return}
use snake_42tokyo_tuning.Store.Backing.{NamedIn, IsBacked, query-IsBacked, find_name_sound}
use snake_42tokyo_tuning.Service.Auth.{map_error, cached_user, remember_user, load_user, get_user}

-- The query finds no user of this name.
abbrev pub Unknown : Env → Tables → String → Error → Type 0
Unknown env t name e = (e ≡ no_rows) × (find_name env.same name t.users ≡ none)

pub map_error-Leaves {ℓ κ κ' ν} :
    {A : Type ℓ} {Q : Error → World → Type κ} {Q' : Error → World → Type κ'}
    {P : A → World → Type ν} {r : Run Error A × World} (f : Error → Error)
    → Leaves Q P r
    → ((e : Error) (w : World) → Q e w → Q' (f e) w)
    → Leaves Q' P (map_error f r)
unfolding map_error
map_error-Leaves f (done p) k = done p
map_error-Leaves f (failed q) k = failed (k _ _ q)

module _ (env : Env) where
  -- The user cache.
  cached_user-IsBacked {κ} :
      {Q : Error → World → Type κ} (name : String) (t : Tables) (w : World)
      → IsBacked env t w
      → Leaves Q
          (λ o w'. ((u : User) → o ≡ some u → NamedIn env t.users name u) × IsBacked env t w')
          (cached_user env name w)
  unfolding cached_user now
  cached_user-IsBacked name t w b = elim (Option-cases w.user_cache) [
    | inl off ↦ rw off (
        done (
          λ u e. absurd (cc),
          record { same_tables = b.same_tables; sessions = b.sessions; users = b.users },
        ))
    | inr (c, on) ↦
        let (kept, hit) =
          get-AllOf (NamedIn env t.users) (env.clock w.asked) name c (b.users c on) in
        rw on (
          done (
            hit,
            record {
              same_tables = b.same_tables;
              sessions = b.sessions;
              users = λ c' e.
                  subst (λ (d : Cache User). AllOf (NamedIn env t.users) d.entries)
                    (some-injective _ _ e) kept;
            },
          ))
  ]

  remember_user-IsBacked {κ} :
      {Q : Error → World → Type κ} (name : String) (user : User) (t : Tables) (w : World)
      → NamedIn env t.users name user
      → IsBacked env t w
      → Leaves Q (λ a w'. IsBacked env t w') (remember_user env name user w)
  unfolding remember_user now
  remember_user-IsBacked name user t w named b = elim (Option-cases w.user_cache) [
    | inl off ↦
        rw off
          (done (record { same_tables = b.same_tables; sessions = b.sessions; users = b.users }))
    | inr (c, on) ↦ rw on (
        done (record {
          same_tables = b.same_tables;
          sessions = b.sessions;
          users = λ c' e.
              subst (λ (d : Cache User). AllOf (NamedIn env t.users) d.entries)
                (some-injective _ _ e)
                (set-AllOf (NamedIn env t.users) env.range_users _ _ name user c named
                  (b.users c on));
        }))
  ]

  -- `getUser`, likewise, for the name of a user.
  pub get_user-IsBacked :
      (name : String) (t : Tables) (w : World)
      → IsBacked env t w
      → Leaves
          (λ e w'. Failure env (Unknown env t name) e × IsBacked env t w')
          (λ user w'. NamedIn env t.users name user × IsBacked env t w')
          (get_user env name w)
  unfolding get_user load_user find_by_user_name
  get_user-IsBacked name t w b =
      Leaves-bind (cached_user-IsBacked name t w b) λ cached w1 (hit, b1). from cached w1 hit b1
    where
      unknown-Ends :
          (o : Option User)
          → find_name env.same name t.users ≡ o
          → ((u : User) → o ≡ some u → NamedIn env t.users name u)
          → Ends (Unknown env t name) (NamedIn env t.users name) (one_row o)
      unknown-Ends none e h = error (refl, e)
      unknown-Ends (some u) e h = value (h u refl)

      from :
          (cached : Option User) (w1 : World)
          → ((u : User) → cached ≡ some u → NamedIn env t.users name u)
          → IsBacked env t w1
          → Leaves
              (λ e w'. Failure env (Unknown env t name) e × IsBacked env t w')
              (λ user w'. NamedIn env t.users name user × IsBacked env t w')
              (elim cached as (λ x. M User) [ none ↦ load_user env name | some user ↦ return user ]
                w1)
      from none w1 hit b1 =
          Leaves-bind
            (query-IsBacked env _ t w1 b1 (
              unknown-Ends (find_name env.same name t.users) refl
                λ user found. find_name_sound env name user t.users found))
            λ user w2 (named, b2).
              Leaves-bind (remember_user-IsBacked name user t w2 named b2)
                λ a w3 b3. done (named, b3)
      from (some user) w1 hit b1 = done (hit user refl, b1)
