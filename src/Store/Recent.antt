-- ===== src/Store/Recent.antt =====
-- How old an answer of `FindUserBySessionID` in webapp/backend/internal/repository/session.go can be:
-- the cache does not know when a session expires.
use Prim.Native.String.{String}
use mathlib.Core.List.{Memᴰ}
use snake_42tokyo_tuning.Base.{
  ℕ, ◌+◌, ◌≤◌, ◌<◌, ◌≡◌, refl, subst, ap, ◌∙◌, true, false, ◌⊎◌, inl, inr, List, ◌==◌, ltb→le,
  Bool-cases, Option-cases, Run, Ends, value, error, arith,
}
use snake_42tokyo_tuning.Model.{Error}
use snake_42tokyo_tuning.Cache.{Entry, get, is_expired}
use snake_42tokyo_tuning.Cache.Contents.{AllEntries, get-AllEntries, set-AllEntries}
use snake_42tokyo_tuning.Cache.Lifetime.{get-ttl, set-ttl}
use snake_42tokyo_tuning.Store.Db.{SessionRow, World, Env, now, query}
use snake_42tokyo_tuning.Store.Leaves.{Leaves, done, failed, Leaves-bind}
use snake_42tokyo_tuning.Store.Backing.{NoRows, one_row-Ends, or_zero-some, find_session_sound}
use snake_42tokyo_tuning.Store.Accounts.{
  one_row, find_session, cached_session, remember_session, look_up_session, find_user_by_session_id,
}

module _ (env : Env) (rows : List SessionRow) (ttl : ℕ) where
  -- A row gives the session to the user, and has not expired at a reading of the clock.
  abbrev pub ValidAt : (session_id : String) → (user_id reading : ℕ) → Type 0
  ValidAt session_id user_id n =
      (r : SessionRow) × Memᴰ r rows
      × (env.same r.session_uuid session_id ≡ true)
      × (r.user_id ≡ user_id)
      × (env.clock n < r.expires_at)

  -- An entry was written at a reading `m` of the clock, after a reading `n` at which a row was valid;
  -- both are among the first `asked` questions.
  pub record IsWritten (asked : ℕ) (session_id : String) (e : Entry ℕ) : Type 0 where
    pub n : ℕ
    pub m : ℕ
    pub valid : ValidAt session_id e.value n
    pub before : n < m
    pub past : m < asked
    pub kept : e.expires_at ≡ env.clock m + ttl

  pub record IsRecent (w : World) : Type 0 where
    pub same_rows : w.tables.user_sessions ≡ rows
    pub same_ttl : w.session_cache.ttl ≡ ttl
    pub entries : AllEntries (IsWritten w.asked) w.session_cache.entries

  IsWritten-mono : (a b : ℕ) (k : String) (e : Entry ℕ) → a ≤ b → IsWritten a k e → IsWritten b k e
  IsWritten-mono a b k e le h = record {
    n = h.n;
    m = h.m;
    valid = h.valid;
    before = h.before;
    past = omega (arith, h.past);
    kept = h.kept;
  }

  -- The answer to a session at the state `w`: a row that was valid at a reading during the call, or at
  -- one after which the answer was cached, at most the time to live ago.
  abbrev pub IsAccepted : World → String → ℕ → Type 0
  IsAccepted w session_id user_id =
      (n : ℕ) × ValidAt session_id user_id n
      × ((w.asked ≤ n)
          ⊎ ((m : ℕ) × (n < m) × (m < w.asked) × (env.clock w.asked ≤ env.clock m + ttl)))

  later-IsRecent :
      (w : World) (asked : ℕ) → w.asked ≤ asked → IsRecent w → IsRecent (record w { asked = asked })
  later-IsRecent w asked le h = record {
    same_rows = h.same_rows;
    same_ttl = h.same_ttl;
    entries = λ k e found. IsWritten-mono w.asked asked k e le (h.entries k e found);
  }

  cached_session-IsRecent :
      (session_id : String) (w : World)
      → IsRecent w
      → Leaves
          (λ e w'. Unit {0})
          (λ user_id w'.
            ((user_id == 0) ≡ false → IsAccepted w session_id user_id)
            × IsRecent w'
            × (w'.asked ≡ w.asked + 1))
          (cached_session env session_id w)
  unfolding cached_session now is_expired
  cached_session-IsRecent session_id w h =
      let time = env.clock w.asked in
      let (kept, hit) =
        get-AllEntries (IsWritten w.asked) time session_id w.session_cache h.entries in
      done (
        λ nonzero.
            let (e, written, same, young) =
              hit _ (or_zero-some (get time session_id w.session_cache).1 nonzero) in
            (
              written.n,
              subst (λ u. ValidAt session_id u written.n) same written.valid,
              inr (
                written.m,
                written.before,
                written.past,
                subst (λ t. time ≤ t) written.kept (ltb→le e.expires_at time young),
              ),
            ),
        record {
          same_rows = h.same_rows;
          same_ttl = get-ttl time session_id w.session_cache ∙ h.same_ttl;
          entries = λ k e found. IsWritten-mono _ _ k e (omega arith) (kept k e found);
        },
        refl,
      )

  remember_session-IsRecent :
      (session_id : String) (user_id n : ℕ) (w : World)
      → ValidAt session_id user_id n
      → n < w.asked
      → IsRecent w
      → Leaves (λ e w'. Unit {0}) (λ a w'. IsRecent w') (remember_session env session_id user_id w)
  unfolding remember_session now
  remember_session-IsRecent session_id user_id n w valid before h =
      elim (Bool-cases (user_id == 0)) [
        | inl zero_id ↦ rw zero_id (done h)
        | inr nonzero ↦ rw nonzero (
            done (record {
              same_rows = h.same_rows;
              same_ttl =
                  set-ttl env.range_sessions _ _ session_id user_id w.session_cache ∙ h.same_ttl;
              entries =
                  set-AllEntries (IsWritten (w.asked + 1 + 1)) env.range_sessions _ _ session_id
                    user_id w.session_cache
                    (record {
                      n = n;
                      m = w.asked + 1;
                      valid = valid;
                      before = omega arith;
                      past = omega arith;
                      kept = ap (λ t. env.clock (w.asked + 1) + t) h.same_ttl;
                    })
                    (λ k e found. IsWritten-mono _ _ k e (omega arith) (h.entries k e found));
            }))
      ]

  query_session-Ends :
      (session_id : String) (w : World)
      → IsRecent w
      → Leaves
          (λ e w'. Unit {0})
          (λ user_id w'.
            ValidAt session_id user_id w.asked × IsRecent w' × (w'.asked ≡ w.asked + 1 + 1))
          (query env
            (λ t. one_row (find_session env.same session_id (env.clock w.asked) t.user_sessions))
            (record w { asked = w.asked + 1 }))
  unfolding query
  query_session-Ends session_id w h = elim (Option-cases (env.fault (w.asked + 1))) [
    | inr (e, fault) ↦ rw (fault, query) (failed tt)
    | inl quiet ↦
        rw (quiet, query)
          (read (
            one_row-Ends
              (find_session env.same session_id (env.clock w.asked) w.tables.user_sessions)
              λ user_id found.
                subst
                  (λ (rs : List SessionRow).
                    (r : SessionRow) × Memᴰ r rs
                    × (env.same r.session_uuid session_id ≡ true)
                    × (r.user_id ≡ user_id)
                    × (env.clock w.asked < r.expires_at))
                  h.same_rows (find_session_sound env session_id _ user_id _ found)))
  ]
    where
      read :
          {r : Run Error ℕ}
          → Ends NoRows (λ user_id. ValidAt session_id user_id w.asked) r
          → Leaves
              (λ e w'. Unit {0})
              (λ user_id w'.
                ValidAt session_id user_id w.asked × IsRecent w' × (w'.asked ≡ w.asked + 1 + 1))
              (r, record w { asked = w.asked + 1 + 1 })
      read (value p) = done (p, later-IsRecent w (w.asked + 1 + 1) (omega arith) h, refl)
      read (error x) = failed tt

  look_up_session-IsRecent :
      (session_id : String) (w : World)
      → IsRecent w
      → Leaves
          (λ e w'. Unit {0})
          (λ user_id w'. ValidAt session_id user_id w.asked × IsRecent w')
          (look_up_session env session_id w)
  unfolding look_up_session now
  look_up_session-IsRecent session_id w h =
      Leaves-bind (query_session-Ends session_id w h) λ user_id w1 (valid, h1, count).
        Leaves-bind
          (remember_session-IsRecent session_id user_id w.asked w1 valid (omega (arith, count)) h1)
          λ a w2 h2. done (valid, h2)

  -- A user that `FindUserBySessionID` answers with had a row for this session that had not expired: at a
  -- reading of the clock during the call, or at an earlier one after which the answer was cached, and
  -- then at most the time to live of the cache has passed since it was. The cache stays recent, if it was.
  pub find_user_by_session_id-IsRecent :
      (session_id : String) (w : World)
      → IsRecent w
      → Leaves
          (λ e w'. Unit {0})
          (λ user_id w'. IsAccepted w session_id user_id × IsRecent w')
          (find_user_by_session_id env session_id w)
  unfolding find_user_by_session_id
  find_user_by_session_id-IsRecent session_id w h =
      Leaves-bind (cached_session-IsRecent session_id w h) λ cached w1 (hit, h1, count).
        elim (Bool-cases (cached == 0)) [
          | inl miss ↦ rw miss (fresh w1 (look_up_session-IsRecent session_id w1 h1) count)
          | inr nonzero ↦ rw nonzero (done (hit nonzero, h1))
        ]
    where
      fresh :
          (w1 : World) {r : Run Error ℕ × World}
          → Leaves
              (λ e w'. Unit {0})
              (λ user_id w'. ValidAt session_id user_id w1.asked × IsRecent w')
              r
          → w1.asked ≡ w.asked + 1
          → Leaves
              (λ e w'. Unit {0})
              (λ user_id w'. IsAccepted w session_id user_id × IsRecent w')
              r
      fresh w1 (done (valid, recent)) count = done ((_, valid, inl (omega (arith, count))), recent)
      fresh w1 (failed q) count = failed tt
