-- ===== src/Service/Tests/Sessions.antt =====
-- A login and a verification on a small shop.
use mathlib.Core.List.{Memᴰ}
use snake_42tokyo_tuning.Base.{ap, ◌+◌, ◌≡◌, refl, true, none, arith}
use snake_42tokyo_tuning.Base.Dict.{lookup, insert, delete}
use snake_42tokyo_tuning.Model.{User}
use snake_42tokyo_tuning.Cache.{
  new_cache, get, set, is_expired, forget, is_full, make_room, evict_expired, drop_expired,
  evict_oldest, find_oldest,
}
use snake_42tokyo_tuning.Store.Db.{World, now, query, exec, settle}
use snake_42tokyo_tuning.Store.Orders.{has_user}
use snake_42tokyo_tuning.Store.Accounts.{
  new_session_cache, find_by_user_name, find_name, create_session, new_random, insert_session,
  has_session, find_user_by_session_id, cached_session, look_up_session, remember_session,
  find_session, find_by_user_id, find_id,
}
use snake_42tokyo_tuning.Store.Backing.{IsBacked, OwnerIn, NamedIn}
use snake_42tokyo_tuning.Store.Leaves.{Succeeds, Leaves}
use snake_42tokyo_tuning.Store.Tx.{with_timeout}
use snake_42tokyo_tuning.Service.Auth.{
  day, login, log_in, start_session, map_error, translate, get_user, load_user, cached_user,
  remember_user, verify_session, session_user,
}
use snake_42tokyo_tuning.Service.Login.{Refusal, IsLoggedIn}
use snake_42tokyo_tuning.Service.Verify.{Unverified}
use snake_42tokyo_tuning.Service.Timed.{Late, Entered, login-Timed, verify_session-Timed}
use snake_42tokyo_tuning.Base.{◌⊎◌, some}
use snake_42tokyo_tuning.Service.Session.{verify_session-login}
use snake_42tokyo_tuning.Service.Recognised.{verify_session-recognises_login}
use snake_42tokyo_tuning.Service.Calm.{login-Succeeds}
use text.Mathlib.TextEquality.{eq_iff}
use mathlib.Core.List.Memᴰ.{head, tail}
use snake_42tokyo_tuning.Service.Tests.{calm, alice, shop, opened, opened-IsBacked}

program : Unit {0}
unfolding login with_timeout log_in start_session map_error translate get_user load_user cached_user
    remember_user find_by_user_name find_name create_session new_random now query exec settle
    insert_session has_session has_user verify_session session_user find_user_by_session_id
    cached_session look_up_session remember_session find_session find_by_user_id find_id
    new_session_cache new_cache get set is_expired forget is_full make_room evict_expired
    drop_expired evict_oldest find_oldest lookup insert delete
program = tt

login-Timed_example :
    Leaves
      (λ e w'.
        (Refusal calm shop "alice" "secret" e × IsBacked calm shop w')
        ⊎ Late none (IsBacked calm shop) (Entered calm none shop "alice" "secret") e w')
      (λ s w'. IsLoggedIn calm shop "alice" "secret" s.0 s.1 w')
      (login calm none "alice" "secret" opened)
login-Timed_example = login-Timed calm none "alice" "secret" shop opened opened-IsBacked

alice_accepts :
    (u : User)
    → NamedIn calm shop.users "alice" u
    → calm.compare_hash u.password_hash "secret" ≡ true
alice_accepts u (head e, named) =
    (eq_iff u.password_hash "secret").1 (ap (λ (v : User). v.password_hash) e)
alice_accepts u (tail m, named) = elim m [ ]

login-Succeeds_example :
    Succeeds
      (λ s w'. IsLoggedIn calm shop "alice" "secret" s.0 s.1 w')
      (login calm none "alice" "secret" opened)
unfolding program
login-Succeeds_example =
    login-Succeeds calm (λ n. refl) "alice" "secret" alice shop opened opened-IsBacked refl
      alice_accepts (λ n. ("u-1", refl, refl))

verify_session-Timed_example :
    Leaves
      (λ e w'. (Unverified e ⊎ (none ≡ some e)) × IsBacked calm shop w')
      (λ user w'.
        Memᴰ user shop.users
        × OwnerIn calm shop.user_sessions "s" user.user_id
        × IsBacked calm shop w')
      (verify_session calm none "s" opened)
verify_session-Timed_example = verify_session-Timed calm none "s" shop opened opened-IsBacked

-- The state after alice has logged in.
abbrev entered : World
entered = (login calm none "alice" "secret" opened).1

-- The state after her session has been verified.
abbrev recognised : World
recognised = (verify_session calm none "u-1" entered).1

verify_session-login_example :
    (user : User) × NamedIn calm shop.users "alice" user
    × (calm.compare_hash user.password_hash "secret" ≡ true)
    × (alice.user_id ≡ user.user_id)
unfolding program
verify_session-login_example =
    verify_session-login calm none none "alice" "secret" "u-1" (5 + day) alice shop opened entered
      recognised opened-IsBacked refl refl

verify_session-recognises_login_example :
    (user : User) × NamedIn calm shop.users "alice" user
    × (calm.compare_hash user.password_hash "secret" ≡ true)
    × Succeeds
        (λ found w2. (found.user_id ≡ user.user_id) × (w2.tables ≡ entered.tables))
        (verify_session calm none "u-1" entered)
unfolding program
verify_session-recognises_login_example =
    verify_session-recognises_login calm (λ n. refl) none "alice" "secret" "u-1" (5 + day) shop
      opened entered opened-IsBacked refl refl (omega arith)
