-- ===== src/Start/Tests.antt =====
-- A start with two variables.
mod Requests
mod Sessions
use Prim.Native.String.{String}
use text.Mathlib.Text.{◌==◌ as str_eq}
use text.Mathlib.TextEquality.{eq_iff}
use mathlib.Core.List.Memᴰ.{head, tail}
use snake_42tokyo_tuning.Base.{
  ℕ, Bool, true, false, ◌&&◌, ◌≡◌, refl, sym, subst, Option, none, some, List, [], ◌∷◌, err,
  if◌then◌else◌, Bool-cases, inl, inr,
}
use snake_42tokyo_tuning.Base.Dict.{Dict, lookup}
use snake_42tokyo_tuning.Store.Db.{World, Env}
use snake_42tokyo_tuning.Cache.{new_cache}
use snake_42tokyo_tuning.Store.Accounts.{new_session_cache}
use snake_42tokyo_tuning.Store.Listing.{Server}
use snake_42tokyo_tuning.Store.Backing.{IsBacked}
use snake_42tokyo_tuning.Handler.Replies.{
  Reply, refused, robot_auth, user_auth, plan_reply, present,
}
use snake_42tokyo_tuning.Start.Environment.{getenv, getenv_or, folds_to, equal_fold}
use snake_42tokyo_tuning.Start.Telemetry.{
  Library, Otel, jaeger, tracing, ratio, enabled, named_sampler, sampler_from_env,
  resource_from_env, wanted_exporter, exporter, install, init, wrap_sql_driver,
}
use snake_42tokyo_tuning.Start.Tracing.{Traced, init-Traced}
use snake_42tokyo_tuning.Start.Database.{data_source, init_db_connection, ping_failed}
use snake_42tokyo_tuning.Start.Routes.{
  Method, get, post, patch, Route, Request, Body, Shop, setup_routes, route_group, robot_api_key,
  listen_address, handle, run_route, run_found, serve, start,
}
use snake_42tokyo_tuning.Start.Guarded.{IsSound, Guarded, serve-Guarded}

abbrev library : Library ℕ
library = record {
  parse_float = λ s. if str_eq s "0.5" then some 50 else none;
  lower = λ s. s;
  hundredth = 1;
  makes = λ e. true;
  register = λ base. some "mysql-otelsql-0";
}

abbrev unset : Otel ℕ
unset = record { provider = none; propagates = false }

abbrev vars : Dict String
vars = ("JAEGER_ENDPOINT", "http://jaeger") ∷ ("TRACE_SAMPLE_RATIO", "0.5") ∷ []

program : Unit {0}
unfolding getenv getenv_or folds_to equal_fold enabled named_sampler sampler_from_env
    resource_from_env wanted_exporter exporter install init wrap_sql_driver data_source
    init_db_connection robot_api_key listen_address start lookup
program = tt

test_traced : init library vars unset ≡ record {
  provider = some (
      tracing
        (jaeger "http://jaeger")
        (ratio 50)
        (record { service_name = "backend"; environment = "local" }));
  propagates = true;
}
unfolding program
test_traced = refl

test_off : enabled (("TRACE_ENABLED", "FALSE") ∷ vars) ≡ false
unfolding program
test_off = refl

test_ping :
    init_db_connection library
      (record { opens = λ n d. true; answers = λ n d. str_eq n "mysql" })
      vars
    ≡ err ping_failed
unfolding program
test_ping = refl

test_key : robot_api_key [] ≡ "test-robot-key"
unfolding program
test_key = refl

test_start : start [] (λ a. true) (err ping_failed) ≡ err 1
unfolding program
test_start = refl

init-Traced_example : Traced library vars unset (init library vars unset)
init-Traced_example = init-Traced library vars unset
