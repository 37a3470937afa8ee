-- ===== src/Service/Recognised.antt =====
-- A session that `Login` of webapp/backend/internal/service/auth.go has started is recognised by
-- `VerifySession`, while nothing fails and the session has not expired.
use Prim.Native.String.{String}
use mathlib.Core.List.{Memᴰ}
use mathlib.Core.List.Memᴰ.{head, tail}
use snake_42tokyo_tuning.Base.{
  ℕ, ◌+◌, ◌<◌, ◌≡◌, refl, sym, ap, ◌∙◌, subst, Option, true, none, some, List, [], ◌∷◌, ◌==◌,
  ==_iff, Bool-cases, inl, inr, Run, ok, arith,
}
use snake_42tokyo_tuning.Model.{User, Error}
use snake_42tokyo_tuning.Cache.{get}
use snake_42tokyo_tuning.Cache.Contents.{get-AllOf}
use snake_42tokyo_tuning.Store.Db.{Tables, World, Env, now, query}
use snake_42tokyo_tuning.Store.Leaves.{
  Succeeds, done, Established, Leaves-Established, Leaves-bind, Leaves-map,
}
use snake_42tokyo_tuning.Store.Tx.{with_timeout}
use snake_42tokyo_tuning.Store.Accounts.{
  or_zero, find_id, find_session, cached_session, remember_session, look_up_session,
  find_user_by_session_id, find_by_user_id,
}
use snake_42tokyo_tuning.Store.Backing.{OwnerIn, NamedIn, IsBacked, or_zero-some}
use snake_42tokyo_tuning.Service.Auth.{translate, session_user, login, verify_session}
use snake_42tokyo_tuning.Service.Backing.{map_error-Leaves}
use snake_42tokyo_tuning.Service.Login.{joined, IsLoggedIn}
use snake_42tokyo_tuning.Service.Timed.{login-Timed}
use snake_42tokyo_tuning.Service.Session.{OwnerIn-joined}

-- The answer is this user, and the tables are as they were.
abbrev Knows : (user_id : ℕ) → World → ℕ → World → Type 0
Knows user_id w answer w' = (answer ≡ user_id) × (w'.tables ≡ w.tables)

find_id-member :
    (user : User) (users : List User)
    → Memᴰ user users
    → (found : User) × (find_id user.user_id users ≡ some found) × (found.user_id ≡ user.user_id)
unfolding find_id
find_id-member user [] m = elim m [ ]
find_id-member user (u ∷ us) (head e) =
    let same : u.user_id ≡ user.user_id = ap (λ (v : User). v.user_id) (sym e) in
    (u, rw ((==_iff u.user_id user.user_id).1 same) refl, same)
find_id-member user (u ∷ us) (tail m) = elim (Bool-cases (u.user_id == user.user_id)) [
  | inl same ↦ (u, rw (find_id, same) refl, (==_iff u.user_id user.user_id).0 same)
  | inr other ↦
      let (found, e, same) = find_id-member user us m in (found, rw (find_id, other) e, same)
]

module _ (env : Env) (calm : (n : ℕ) → env.fault n ≡ none) where
  query-Succeeds {ℓ} :
      {A : Type ℓ} (f : Tables → Run Error A) (a : A) (w : World)
      → f w.tables ≡ ok a
      → Succeeds
          (λ b w'. (b ≡ a) × (w'.tables ≡ w.tables) × (w'.asked ≡ w.asked + 1))
          (query env f w)
  unfolding query
  query-Succeeds f a w e = rw (query, calm w.asked, e) (done (refl, refl, refl))

  remember_session-Succeeds :
      (session_id : String) (user_id : ℕ) (w : World)
      → Succeeds (λ a w'. w'.tables ≡ w.tables) (remember_session env session_id user_id w)
  unfolding remember_session now
  remember_session-Succeeds session_id user_id w = elim (Bool-cases (user_id == 0)) [
    | inl zero_id ↦ rw zero_id (done refl)
    | inr nonzero ↦ rw nonzero (done refl)
  ]

  look_up_session-Knows :
      (session_id : String) (user_id : ℕ) (w : World)
      → find_session env.same session_id (env.clock w.asked) w.tables.user_sessions ≡ some user_id
      → Succeeds (Knows user_id w) (look_up_session env session_id w)
  unfolding look_up_session now
  look_up_session-Knows session_id user_id w found =
      Leaves-bind (query-Succeeds _ user_id _ (rw found refl)) λ answer w1 (same, left, count).
        Leaves-bind (remember_session-Succeeds session_id answer w1)
          λ a w2 left2. done (same, left2 ∙ left)

  find_user_by_session_id-Knows :
      (session_id : String) (user_id : ℕ) (w : World)
      → IsBacked env w.tables w
      → ((owner : ℕ) → OwnerIn env w.tables.user_sessions session_id owner → owner ≡ user_id)
      → find_session env.same session_id (env.clock (w.asked + 1)) w.tables.user_sessions
        ≡ some user_id
      → Succeeds (Knows user_id w) (find_user_by_session_id env session_id w)
  unfolding find_user_by_session_id cached_session now
  find_user_by_session_id-Knows session_id user_id w b only found =
      let time = env.clock w.asked in
      let (kept, hit) =
        get-AllOf (OwnerIn env w.tables.user_sessions) time session_id w.session_cache b.sessions in
      let cached = (get time session_id w.session_cache).1 in
      elim (Bool-cases (or_zero cached == 0)) [
        | inl miss ↦ rw miss (look_up_session-Knows session_id user_id _ found)
        | inr nonzero ↦ rw nonzero (done (only _ (hit _ (or_zero-some cached nonzero)), refl))
      ]

  find_by_user_id-Knows :
      (user : User) (w : World)
      → Memᴰ user w.tables.users
      → Succeeds
          (λ found w'. (found.user_id ≡ user.user_id) × (w'.tables ≡ w.tables))
          (find_by_user_id env user.user_id w)
  unfolding find_by_user_id
  find_by_user_id-Knows user w m =
      let (found, e, same) = find_id-member user w.tables.users m in
      Leaves-map (query-Succeeds _ found w (rw e refl)) (λ e w' q. q)
        λ answer w' (here, left, count). (ap (λ (v : User). v.user_id) here ∙ same, left)

  session_user-Knows :
      (session_id : String) (user : User) (w : World)
      → Memᴰ user w.tables.users
      → Succeeds (Knows user.user_id w) (find_user_by_session_id env session_id w)
      → Succeeds
          (λ found w'. (found.user_id ≡ user.user_id) × (w'.tables ≡ w.tables))
          (session_user env session_id w)
  unfolding session_user
  session_user-Knows session_id user w m answers =
      Leaves-bind (map_error-Leaves {Q' = λ e w'. ⊥} translate answers λ e w' q. q)
        λ id w1 (same, left).
          map_error-Leaves translate
            (Leaves-map
              (subst
                (λ i.
                  Succeeds (λ found w'. (found.user_id ≡ user.user_id) × (w'.tables ≡ w1.tables))
                    (find_by_user_id env i w1))
                (sym same)
                (find_by_user_id-Knows user w1
                  (subst (λ (t : Tables). Memᴰ user t.users) (sym left) m)))
              (λ e w' q. q) λ found w' (known, left1). (known, left1 ∙ left))
            λ e w' q. q

  find_session-joined :
      (t : Tables) (session_id : String) (user_id expires_at time : ℕ)
      → env.same session_id session_id ≡ true
      → time < env.datetime expires_at
      → find_session env.same session_id time
          (joined env t session_id user_id expires_at).user_sessions
        ≡ some user_id
  unfolding find_session
  find_session-joined t session_id user_id expires_at time same early = ground (arith, same)

  -- While no statement fails: if rows stand behind the caches, and a login ends with a session, then a
  -- verification of it that follows, with no other statement between them, and whose timeout does not
  -- fire, ends with a user. It has the id of a user whose name was given to the login and whose hash accepts
  -- the password, and the tables are those that the login left. The server equates the id of the
  -- session with itself, and the session has not expired at the second reading of the clock.
  pub verify_session-recognises_login :
      (fired : Option Error) (name password session_id : String) (expires_at : ℕ) (t : Tables)
      (w w1 : World)
      → IsBacked env t w
      → login env fired name password w ≡ (ok (session_id, expires_at), w1)
      → env.same session_id session_id ≡ true
      → env.clock (w1.asked + 1) < env.datetime expires_at
      → (user : User) × NamedIn env t.users name user
        × (env.compare_hash user.password_hash password ≡ true)
        × Succeeds
            (λ found w2. (found.user_id ≡ user.user_id) × (w2.tables ≡ w1.tables))
            (verify_session env none session_id w1)
  unfolding verify_session with_timeout
  verify_session-recognises_login fired name password session_id expires_at t w w1 b entered same
        early =
      let l : IsLoggedIn env t name password session_id expires_at w1 =
        subst (Established λ s w'. IsLoggedIn env t name password s.0 s.1 w') entered
          (Leaves-Established (login-Timed env fired name password t w b)) in
      (
        l.user,
        l.known,
        l.accepted,
        session_user-Knows session_id l.user w1
            (subst (λ (s : Tables). Memᴰ l.user s.users) (sym l.started) l.known.0)
            (find_user_by_session_id-Knows session_id l.user.user_id w1 l.backed
              (λ owner owns.
                OwnerIn-joined env t session_id l.user.user_id expires_at owner l.fresh (
                  subst (λ (s : Tables). OwnerIn env s.user_sessions session_id owner) l.started
                    owns))
              (subst
                (λ (s : Tables).
                  find_session env.same session_id (env.clock (w1.asked + 1)) s.user_sessions
                  ≡ some l.user.user_id)
                (sym l.started)
                (find_session-joined t session_id l.user.user_id expires_at _ same early))),
      )
