-- ===== src/Service/Login.antt =====
-- Who is let in: `Login` of webapp/backend/internal/service/auth.go.
use Prim.Native.String.{String}
use mathlib.Core.List.{Memᴰ}
use mathlib.Core.List.Memᴰ.{head, tail}
use snake_42tokyo_tuning.Base.{
  ℕ, ◌+◌, ◌≡◌, refl, sym, ap, ◌∙◌, subst, true, false, none, some, List, [], ◌∷◌, Bool-cases,
  Option-cases, inl, inr, arith,
}
use snake_42tokyo_tuning.Model.{
  User, Error, no_rows, user_not_found, invalid_password, internal_server, cancelled, other,
}
use snake_42tokyo_tuning.Store.Db.{SessionRow, Tables, World, Env, now, exec, settle}
use snake_42tokyo_tuning.Store.Tx.{with_timeout}
use snake_42tokyo_tuning.Store.Orders.{has_user, foreign_key_error}
use snake_42tokyo_tuning.Store.Leaves.{
  Leaves, done, failed, Failure, driver, own, Leaves-bind, Leaves-map,
}
use snake_42tokyo_tuning.Store.Accounts.{
  find_name, has_session, insert_session, new_random, create_session, duplicate_key_error,
  uuid_error,
}
use snake_42tokyo_tuning.Store.Backing.{NamedIn, IsBacked}
use snake_42tokyo_tuning.Service.Auth.{translate, day, start_session, log_in, login}
use snake_42tokyo_tuning.Service.Backing.{Unknown, map_error-Leaves, get_user-IsBacked}

-- The row of a new session.
abbrev pub session_row : Env → String → (user_id expires_at : ℕ) → SessionRow
session_row env session_id user_id expires_at = record {
  session_uuid = session_id;
  user_id = user_id;
  expires_at = env.datetime expires_at;
}

-- The tables after a new session of a user.
abbrev pub joined : Env → Tables → String → (user_id expires_at : ℕ) → Tables
joined env t session_id user_id expires_at = record t {
  user_sessions = session_row env session_id user_id expires_at ∷ t.user_sessions;
}

-- Why `Login` refuses, by its error.
pub data Refusal (env : Env) (t : Tables) (name password : String) : Error → Type 0 where
  unknown : find_name env.same name t.users ≡ none → Refusal env t name password user_not_found
  no_answer : (n : ℕ) → env.fault n ≡ some no_rows → Refusal env t name password user_not_found
  wrong :
      (user : User)
      → NamedIn env t.users name user
      → env.compare_hash user.password_hash password ≡ false
      → Refusal env t name password invalid_password
  faulty : {e : Error} (n : ℕ) → env.fault n ≡ some e → Refusal env t name password internal_server
  drained : (n : ℕ) → env.new_uuid n ≡ none → Refusal env t name password internal_server
  taken :
      (n : ℕ) (session_id : String)
      → env.new_uuid n ≡ some session_id
      → has_session env.same session_id t.user_sessions ≡ true
      → Refusal env t name password internal_server

-- Why a row of `user_sessions` cannot be inserted.
data NotInserted (env : Env) (t : Tables) (row : SessionRow) : Error → Type 0 where
  duplicate :
      has_session env.same row.session_uuid t.user_sessions ≡ true
      → NotInserted env t row duplicate_key_error
  orphan : has_user row.user_id t.users ≡ false → NotInserted env t row foreign_key_error

-- Why `Create` starts no session.
data NotCreated (env : Env) (t : Tables) (user_id : ℕ) : Error → Type 0 where
  no_bytes : (n : ℕ) → env.new_uuid n ≡ none → NotCreated env t user_id uuid_error
  same_id :
      (n : ℕ) (session_id : String)
      → env.new_uuid n ≡ some session_id
      → has_session env.same session_id t.user_sessions ≡ true
      → NotCreated env t user_id duplicate_key_error
  no_user : has_user user_id t.users ≡ false → NotCreated env t user_id foreign_key_error

has_user-member : (u : User) (us : List User) → Memᴰ u us → has_user u.user_id us ≡ true
unfolding has_user
has_user-member u [] m = elim m [ ]
has_user-member u (v ∷ us) (head e) =
    let same : v.user_id ≡ u.user_id = ap (λ (x : User). x.user_id) (sym e) in ground (arith, same)
has_user-member u (v ∷ us) (tail m) = ground (arith, has_user-member u us m)

-- What a login has established: a user of this name whose hash accepts the password, and a new
-- session of this user, under an id that no session had, for 24 hours from a reading of the clock.
pub record IsLoggedIn (env : Env) (t : Tables) (name password session_id : String) (expires_at : ℕ)
    (w : World) : Type 0 where
  pub user : User
  pub known : NamedIn env t.users name user
  pub accepted : env.compare_hash user.password_hash password ≡ true
  pub fresh : has_session env.same session_id t.user_sessions ≡ false
  pub reading : ℕ
  pub for_a_day : expires_at ≡ env.clock reading + day
  pub started : w.tables ≡ joined env t session_id user.user_id expires_at
  pub backed : IsBacked env w.tables w

module _ (env : Env) where
  joined-IsBacked :
      (t : Tables) (w : World) (session_id : String) (user_id expires_at n : ℕ)
      → IsBacked env t w
      → IsBacked env
          (joined env t session_id user_id expires_at)
          (record w { tables = joined env t session_id user_id expires_at; asked = n })
  joined-IsBacked t w session_id user_id expires_at n b = record {
    same_tables = refl;
    sessions =
        λ k e found. let (r, m, same, owner) = b.sessions k e found in (r, tail m, same, owner);
    users = b.users;
  }

  -- What the creation of a session has established.
  abbrev Created : Tables → ℕ → String × ℕ → World → Type 0
  Created t user_id (session_id, expires_at) w =
      (has_session env.same session_id t.user_sessions ≡ false)
      × ((n : ℕ) × (expires_at ≡ env.clock n + day))
      × (w.tables ≡ joined env t session_id user_id expires_at)
      × IsBacked env w.tables w

  -- What the row of a new session has established.
  abbrev Inserted : Tables → SessionRow → Unit {0} → World → Type 0
  Inserted t row a w =
      (has_session env.same row.session_uuid t.user_sessions ≡ false)
      × (w.tables ≡ joined env t row.session_uuid row.user_id row.expires_at)
      × IsBacked env w.tables w

  insert_session-Leaves :
      (t : Tables) (w : World) (row : SessionRow)
      → IsBacked env t w
      → Leaves
          (λ e w'. Failure env (NotInserted env t row) e × IsBacked env t w')
          (Inserted t row)
          (exec env (λ time t. insert_session env row t) w)
  unfolding exec settle insert_session
  insert_session-Leaves t w row b = elim (Option-cases (env.fault w.asked)) [
    | inr (e, fault) ↦ rw (fault, exec) (failed (driver w.asked fault, kept))
    | inl quiet ↦
        rw (quiet, exec)
          (subst
            (λ s.
              Leaves (λ e w'. Failure env (NotInserted env t row) e × IsBacked env t w')
                (Inserted t row)
                (settle (insert_session env row s) (record w { asked = w.asked + 1 })))
            (sym b.same_tables) inserted)
  ]
    where
      kept : IsBacked env t (record w { asked = w.asked + 1 })
      kept = record { same_tables = b.same_tables; sessions = b.sessions; users = b.users }

      inserted :
          Leaves
            (λ e w'. Failure env (NotInserted env t row) e × IsBacked env t w')
            (Inserted t row)
            (settle (insert_session env row t) (record w { asked = w.asked + 1 }))
      inserted = elim (Bool-cases (has_session env.same row.session_uuid t.user_sessions)) [
        | inl exists ↦ rw exists (failed (own (duplicate exists), kept))
        | inr free ↦ elim (Bool-cases (has_user row.user_id t.users)) [
          | inr nobody ↦ rw (free, nobody) (failed (own (orphan nobody), kept))
          | inl somebody ↦
              rw (free, somebody)
                (done (
                  free,
                  refl,
                  joined-IsBacked t w row.session_uuid row.user_id row.expires_at (w.asked + 1) b,
                ))
        ]
      ]

  create_session-Created :
      (t : Tables) (w : World) (user_id : ℕ)
      → IsBacked env t w
      → Leaves
          (λ e w'. Failure env (NotCreated env t user_id) e × IsBacked env t w')
          (Created t user_id)
          (create_session env user_id day w)
  unfolding create_session new_random now
  create_session-Created t w user_id b = elim (Option-cases (env.new_uuid w.asked)) [
    | inl dry ↦
        rw (dry, new_random)
          (failed (
            own (no_bytes w.asked dry),
            record { same_tables = b.same_tables; sessions = b.sessions; users = b.users },
          ))
    | inr (session_id, drawn) ↦
        rw (drawn, new_random)
          (Leaves-bind
            (Leaves-map
              (insert_session-Leaves t _
                (record {
                  session_uuid = session_id;
                  user_id = user_id;
                  expires_at = env.clock (w.asked + 1) + day;
                })
                (record { same_tables = b.same_tables; sessions = b.sessions; users = b.users }))
              (λ e w' (why, kept). (uncreated w.asked session_id drawn e why, kept)) λ a w' q. q)
            λ a w1 (free, after, b1). done (free, (w.asked + 1, refl), after, b1))
  ]
    where
      uncreated :
          (n : ℕ) (session_id : String)
          → env.new_uuid n ≡ some session_id
          → {expires_at : ℕ} (e : Error)
          → Failure env
              (NotInserted env t
                (record { session_uuid = session_id; user_id = user_id; expires_at = expires_at }))
              e
          → Failure env (NotCreated env t user_id) e
      uncreated n session_id drawn e (driver m fault) = driver m fault
      uncreated n session_id drawn e (own (duplicate found)) =
          own (same_id n session_id drawn found)
      uncreated n session_id drawn e (own (orphan nobody)) = own (no_user nobody)

  -- While the timeout does not fire, and if rows stand behind the caches, `Login` never panics. It
  -- either ends with a session: then a user of the name has a row, the user's hash accepts the
  -- password, and the only change of the tables is the row of the session, for this user, under an id
  -- that no session had, 24 hours from a reading of the clock. Or it ends with an error, and the
  -- tables are unchanged: the user is unknown, or the hash of a user of the name refuses the password,
  -- or a call of the driver has failed, or there was no random id, or a session had the random id. Rows
  -- stand behind the caches afterwards.
  pub login-IsLoggedIn :
      (name password : String) (t : Tables) (w : World)
      → IsBacked env t w
      → Leaves
          (λ e w'. Refusal env t name password e × IsBacked env t w')
          (λ s w'. IsLoggedIn env t name password s.0 s.1 w')
          (login env none name password w)
  unfolding login with_timeout log_in start_session translate
  login-IsLoggedIn name password t w b =
      Leaves-bind
        (map_error-Leaves translate (get_user-IsBacked env name t w b)
          λ e w' (why, kept). (refused e why, kept))
        λ user w1 (named, b1). elim (Bool-cases (env.compare_hash user.password_hash password)) [
          | inr refuses ↦ rw refuses (failed (wrong user named refuses, b1))
          | inl accepts ↦ rw accepts (
              Leaves-map
                (map_error-Leaves {Q' = λ e w'. Refusal env t name password e × IsBacked env t w'} _
                  (create_session-Created t w1 user.user_id b1)
                  λ e w' (why, kept). (unstarted user named.0 e why, kept))
                (λ e w' q. q)
                λ s w' (free, (n, time), after, b2). record {
                  user = user;
                  known = named;
                  accepted = accepts;
                  fresh = free;
                  reading = n;
                  for_a_day = time;
                  started = after;
                  backed = b2;
                })
        ]
    where
      refused :
          (e : Error)
          → Failure env (Unknown env t name) e
          → Refusal env t name password (translate e)
      refused e (own (no_row, nobody)) = rw no_row (unknown nobody)
      refused no_rows (driver n fault) = no_answer n fault
      refused user_not_found (driver n fault) = faulty n fault
      refused invalid_password (driver n fault) = faulty n fault
      refused internal_server (driver n fault) = faulty n fault
      refused cancelled (driver n fault) = faulty n fault
      refused (other m) (driver n fault) = faulty n fault

      unstarted :
          (user : User)
          → Memᴰ user t.users
          → (e : Error) → Failure env (NotCreated env t user.user_id) e
          → Refusal env t name password internal_server
      unstarted user m e (driver n fault) = faulty n fault
      unstarted user m e (own (no_bytes n none_left)) = drained n none_left
      unstarted user m e (own (same_id n session_id drawn found)) = taken n session_id drawn found
      unstarted user m e (own (no_user nobody)) =
          absurd (cc (sym (has_user-member user t.users m) ∙ nobody))
