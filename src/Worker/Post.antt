-- ===== src/Worker/Post.antt =====
-- The request of `postScore` in benchmarker/worker/postScore.go, and what becomes of its answer.
use Prim.Native.Char.{code}
use Prim.Native.String.{String, ◌++◌ as str_append}
use text.Mathlib.Text.{◌==◌ as str_eq}
use snake_42tokyo_tuning.Base.{
  ℕ, ◌*◌, Bool, false, not, ◌&&◌, Option, none, some, ltb, ◌==◌, if◌then◌else◌,
}
use snake_42tokyo_tuning.Base.Dict.{Dict}
use snake_42tokyo_tuning.Start.Environment.{getenv}
use snake_42tokyo_tuning.Worker.Flow.{second}

-- `strings.TrimRight(s, "/")`
unfoldable pub trim_slashes : String → String
trim_slashes String.[] = ""
trim_slashes (String.◌∷◌ c s) =
    let rest = trim_slashes s in if code c == b'/' && str_eq rest "" then "" else String.◌∷◌ c rest

-- The request, its payload, and the client that sends it.
pub record ScoreRequest : Type 0 where
  pub url : String
  pub authorization : String
  pub load_test_id : String
  pub team_id : String
  pub score : ℕ
  pub skips_verification : Bool
  pub timeout : ℕ

unfoldable pub score_request :
    Dict String → (base_url token load_test_id team_id : String) → (score : ℕ) → ScoreRequest
unfolding trim_slashes
score_request vars base_url token load_test_id team_id score = record {
  url = str_append (trim_slashes base_url) "/internal/register-score";
  authorization = str_append "Bearer " token;
  load_test_id = load_test_id;
  team_id = team_id;
  score = score;
  skips_verification = str_eq (getenv vars "TLS_INSECURE_SKIP_VERIFY") "1";
  timeout = 15 * second;
}

-- Whether an answer is a success: the status code, or `none` if there is no answer.
unfoldable pub is_registered : (answer : Option ℕ) → Bool
is_registered none = false
is_registered (some status) = not (ltb status 200) && ltb status 300
