-- ===== src/Store/Backing.antt =====
-- The caches of the backend against its tables: `SessionRepository` of
-- webapp/backend/internal/repository/session.go only hands out what a row stands behind.
use Prim.Native.String.{String}
use mathlib.Core.List.{Memᴰ}
use mathlib.Core.List.Memᴰ.{head, tail}
use mathlib.Core.Option.{some-injective}
use snake_42tokyo_tuning.Base.{
  ℕ, ◌+◌, ◌<◌, ◌≡◌, refl, sym, subst, true, false, ◌&&◌, Option, none, some, List, [], ◌∷◌, ◌==◌,
  ltb, Bool-cases, Option-cases, inl, inr, Run, Ends, value, error, arith,
}
use snake_42tokyo_tuning.Model.{User, Error, no_rows}
use snake_42tokyo_tuning.Cache.{Cache, get}
use snake_42tokyo_tuning.Cache.Contents.{AllOf, set-AllOf, get-AllOf}
use snake_42tokyo_tuning.Store.Db.{SessionRow, Tables, World, Env, now, query}
use snake_42tokyo_tuning.Store.Leaves.{Leaves, done, failed, Failure, driver, own, Leaves-bind}
use snake_42tokyo_tuning.Store.Accounts.{
  or_zero, one_row, find_name, find_session, cached_session, remember_session, look_up_session,
  find_user_by_session_id,
}

-- A row of a session with this id belongs to this user.
abbrev pub OwnerIn : Env → List SessionRow → String → ℕ → Type 0
OwnerIn env rows session_id user_id =
    (r : SessionRow) × Memᴰ r rows
    × (env.same r.session_uuid session_id ≡ true)
    × (r.user_id ≡ user_id)

-- The user has a row, and this name to the server.
abbrev pub NamedIn : Env → List User → String → User → Type 0
NamedIn env users name user = Memᴰ user users × (env.same user.user_name name ≡ true)

-- The tables are `t`, and rows of `t` stand behind everything in the two caches.
pub record IsBacked (env : Env) (t : Tables) (w : World) : Type 0 where
  pub same_tables : w.tables ≡ t
  pub sessions : AllOf (OwnerIn env t.user_sessions) w.session_cache.entries
  pub users : (c : Cache User) → w.user_cache ≡ some c → AllOf (NamedIn env t.users) c.entries

-- The query finds no row.
abbrev pub NoRows : Error → Type 0
NoRows e = e ≡ no_rows

pub or_zero-some : (o : Option ℕ) → (or_zero o == 0) ≡ false → o ≡ some (or_zero o)
or_zero-some none h = absurd (ground (arith, h))
or_zero-some (some n) h = refl

pub one_row-Ends {κ ν} :
    {A : Type κ} {P : A → Type ν} (o : Option A)
    → ((a : A) → o ≡ some a → P a)
    → Ends NoRows P (one_row o)
one_row-Ends none h = error refl
one_row-Ends (some a) h = value (h a refl)

module _ (env : Env) where
  pub find_session_sound :
      (id : String) (time user_id : ℕ) (rows : List SessionRow)
      → find_session env.same id time rows ≡ some user_id
      → (r : SessionRow) × Memᴰ r rows
        × (env.same r.session_uuid id ≡ true)
        × (r.user_id ≡ user_id)
        × (time < r.expires_at)
  unfolding find_session
  find_session_sound id time user_id [] h = absurd (cc)
  find_session_sound id time user_id (r ∷ rows) h =
      elim (Bool-cases (env.same r.session_uuid id && ltb time r.expires_at)) [
        | inl found ↦ (
          r,
          head refl,
          ground arith,
          some-injective _ _ (rw (found, find_session) at h),
          ground arith,
        )
        | inr other ↦
            let (q, m, same, owner, live) =
              find_session_sound id time user_id rows (rw (other, find_session) at h) in
            (q, tail m, same, owner, live)
      ]

  pub find_name_sound :
      (name : String) (user : User) (users : List User)
      → find_name env.same name users ≡ some user
      → NamedIn env users name user
  unfolding find_name
  find_name_sound name user [] h = absurd (cc)
  find_name_sound name user (u ∷ us) h = elim (Bool-cases (env.same u.user_name name)) [
    | inl found ↦
        let same : u ≡ user = some-injective _ _ (rw (found, find_name) at h) in
        (head (sym same), subst (λ (v : User). env.same v.user_name name ≡ true) same found)
    | inr other ↦
        let (m, e) = find_name_sound name user us (rw (other, find_name) at h) in (tail m, e)
  ]

  pub query-IsBacked {κ ℓ ν} :
      {X : Error → Type κ} {A : Type ℓ} {P : A → Type ν} (f : Tables → Run Error A) (t : Tables)
      (w : World)
      → IsBacked env t w
      → Ends X P (f t)
      → Leaves
          (λ e w'. Failure env X e × IsBacked env t w')
          (λ a w'. P a × IsBacked env t w')
          (query env f w)
  unfolding query
  query-IsBacked {X} {A} {P} f t w b p = elim (Option-cases (env.fault w.asked)) [
    | inl quiet ↦ rw (quiet, query) (read (subst (λ t. Ends X P (f t)) (sym b.same_tables) p))
    | inr (e, fault) ↦ rw (fault, query) (failed (driver w.asked fault, after))
  ]
    where
      after : IsBacked env t (record w { asked = w.asked + 1 })
      after = record { same_tables = b.same_tables; sessions = b.sessions; users = b.users }

      read :
          {r : Run Error A}
          → Ends X P r
          → Leaves
              (λ e w'. Failure env X e × IsBacked env t w')
              (λ a w'. P a × IsBacked env t w')
              (r, record w { asked = w.asked + 1 })
      read (value p) = done (p, after)
      read (error x) = failed (own x, after)

  -- The session cache.
  cached_session-IsBacked :
      (session_id : String) (t : Tables) (w : World)
      → IsBacked env t w
      → Leaves
          (λ e w'. Failure env NoRows e × IsBacked env t w')
          (λ user_id w'.
            ((user_id == 0) ≡ false → OwnerIn env t.user_sessions session_id user_id)
            × IsBacked env t w')
          (cached_session env session_id w)
  unfolding cached_session now
  cached_session-IsBacked session_id t w b =
      let time = env.clock w.asked in
      let (kept, hit) =
        get-AllOf (OwnerIn env t.user_sessions) time session_id w.session_cache b.sessions in
      done (
        λ nonzero. hit _ (or_zero-some (get time session_id w.session_cache).1 nonzero),
        record { same_tables = b.same_tables; sessions = kept; users = b.users },
      )

  remember_session-IsBacked :
      (session_id : String) (user_id : ℕ) (t : Tables) (w : World)
      → OwnerIn env t.user_sessions session_id user_id
      → IsBacked env t w
      → Leaves
          (λ e w'. Failure env NoRows e × IsBacked env t w')
          (λ a w'. IsBacked env t w')
          (remember_session env session_id user_id w)
  unfolding remember_session now
  remember_session-IsBacked session_id user_id t w owner b = elim (Bool-cases (user_id == 0)) [
    | inl zero_id ↦ rw zero_id (done b)
    | inr nonzero ↦ rw nonzero (
        done (record {
          same_tables = b.same_tables;
          sessions =
              set-AllOf (OwnerIn env t.user_sessions) env.range_sessions _ _ session_id user_id
                w.session_cache owner b.sessions;
          users = b.users;
        }))
  ]

  look_up_session-IsBacked :
      (session_id : String) (t : Tables) (w : World)
      → IsBacked env t w
      → Leaves
          (λ e w'. Failure env NoRows e × IsBacked env t w')
          (λ user_id w'. OwnerIn env t.user_sessions session_id user_id × IsBacked env t w')
          (look_up_session env session_id w)
  unfolding look_up_session now
  look_up_session-IsBacked session_id t w b =
      Leaves-bind
        (query-IsBacked {P = λ user_id. OwnerIn env t.user_sessions session_id user_id} _ t _
          (record { same_tables = b.same_tables; sessions = b.sessions; users = b.users })
          (one_row-Ends (find_session env.same session_id (env.clock w.asked) t.user_sessions)
            λ user_id found.
              let (r, m, same, owner, live) = find_session_sound session_id _ user_id _ found in
              (r, m, same, owner)))
        λ user_id w1 (owner, b1).
          Leaves-bind (remember_session-IsBacked session_id user_id t w1 owner b1)
            λ a w2 b2. done (owner, b2)

  -- `FindUserBySessionID` answers with a user only if a row for the session belongs to the user,
  -- whether the answer comes from the cache or not; it leaves the tables, and caches that are backed
  -- again. Its errors are those of the driver, and `sql.ErrNoRows`.
  pub find_user_by_session_id-IsBacked :
      (session_id : String) (t : Tables) (w : World)
      → IsBacked env t w
      → Leaves
          (λ e w'. Failure env NoRows e × IsBacked env t w')
          (λ user_id w'. OwnerIn env t.user_sessions session_id user_id × IsBacked env t w')
          (find_user_by_session_id env session_id w)
  unfolding find_user_by_session_id
  find_user_by_session_id-IsBacked session_id t w b =
      Leaves-bind (cached_session-IsBacked session_id t w b) λ cached w1 (hit, b1).
        elim (Bool-cases (cached == 0)) [
          | inl miss ↦ rw miss (look_up_session-IsBacked session_id t w1 b1)
          | inr nonzero ↦ rw nonzero (done (hit nonzero, b1))
        ]
