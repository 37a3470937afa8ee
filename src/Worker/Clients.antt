-- ===== src/Worker/Clients.antt =====
-- `initializeClients` and `parseInt32` of benchmarker/worker/main.go. The Azure clients are parameters.
use Prim.Native.String.{String, ◌++◌ as str_append}
use text.Mathlib.Text.{◌==◌ as str_eq}
use text.Mathlib.TextEquality.{eq_iff}
use snake_42tokyo_tuning.Base.{
  ℕ, ◌+◌, ◌%◌, ◌^◌, ◌≤◌, ◌<◌, Bool, true, false, not, ◌&&◌, ◌||◌, ◌≡◌, ◌≢◌, refl, Option, none,
  some, inl, inr, Bool-cases, Option-cases, ltb, if◌then◌else◌, Run, ok, err, ◌>>=◌, ◌∙◌, Ends,
  value, error, Ends-bind, arith,
}
use snake_42tokyo_tuning.Base.Dict.{Dict}
use snake_42tokyo_tuning.Start.Environment.{getenv}

-- `a < b` on values of type int32, in two's complement.
unfoldable pub lt_int32 : ℕ → ℕ → Bool
lt_int32 a b = ltb ((a + 2 ^ 31) % 2 ^ 32) ((b + 2 ^ 31) % 2 ^ 32)

-- What the libraries make of a text: `int32(d.Seconds())` for the duration that `ParseDuration` reads,
-- and `int32(i)` for the number that `Sscanf` reads, each a pattern of 32 bits.
pub record Parsers : Type 0 where
  pub seconds : String → Option ℕ
  pub scan : String → Option ℕ

-- How the Azure library answers.
pub record Azure : Type 0 where
  pub queue_client : (connection name : String) → Bool
  pub create_queue : (connection name : String) → Bool
  pub already_exists : (connection name : String) → Bool
  pub service_client : (connection : String) → Bool

-- The variables of the package, after a start.
pub record Clients : Type 0 where
  pub connection : String
  pub base_url : String
  pub auth_token : String
  pub visibility_timeout_sec : ℕ
  pub dequeue_batch_size : ℕ
  pub queue_name : String
  pub dlq_name : String
  pub table_name : String

abbrev pub queue_name : String
queue_name = "fttokyo-loadtest-requests"

abbrev pub dlq_name : String
dlq_name = str_append queue_name "-dlq"

abbrev pub table_name : String
table_name = "fttokyoloadtestlocks"

unfoldable pub parse_int32 : Parsers → String → Option ℕ
parse_int32 parsers s = elim (parsers.seconds s) [ some n ↦ some n | none ↦ parsers.scan s ]

unfoldable pub at_least_30 : ℕ → ℕ
unfolding lt_int32
at_least_30 n = if lt_int32 n 30 then 30 else n

unfoldable pub visibility_timeout : Parsers → Dict String → ℕ
unfolding at_least_30
visibility_timeout parsers vars =
    if str_eq (getenv vars "QUEUE_VISIBILITY_TIMEOUT") ""
    then 300
    else elim (parsers.seconds (getenv vars "QUEUE_VISIBILITY_TIMEOUT")) [
      | none ↦ 300
      | some n ↦ at_least_30 n
    ]

unfoldable pub accept_batch : ℕ → ℕ
unfolding lt_int32
accept_batch n = if lt_int32 0 n && not (lt_int32 32 n) then n else 1

unfoldable pub batch_size : Parsers → Dict String → ℕ
unfolding accept_batch parse_int32
batch_size parsers vars =
    if str_eq (getenv vars "DEQUEUE_BATCH_SIZE") ""
    then 1
    else elim (parse_int32 parsers (getenv vars "DEQUEUE_BATCH_SIZE")) [
      | none ↦ 1
      | some n ↦ accept_batch n
    ]

-- A variable that must be set; without it the worker ends with the status 1.
unfoldable pub required : Dict String → String → Run ℕ String
required vars name = if str_eq (getenv vars name) "" then err 1 else ok (getenv vars name)

unfoldable pub must : Bool → Run ℕ (Unit {0})
must done = if done then ok tt else err 1

unfoldable pub initialize_clients : Parsers → Azure → Dict String → Run ℕ Clients
unfolding required must visibility_timeout batch_size
initialize_clients parsers azure vars = do
  connection ← required vars "AZURE_STORAGE_CONNECTION_STRING"
  base_url ← required vars "INTERMEDIATE_BASE_URL"
  auth_token ← required vars "WORKER_AUTH_TOKEN"
  queue ← must (azure.queue_client connection queue_name)
  dlq ← must (azure.queue_client connection dlq_name)
  created ←
      must (azure.create_queue connection dlq_name || azure.already_exists connection dlq_name)
  service ← must (azure.service_client connection)
  ok (record {
    connection = connection;
    base_url = base_url;
    auth_token = auth_token;
    visibility_timeout_sec = visibility_timeout parsers vars;
    dequeue_batch_size = batch_size parsers vars;
    queue_name = queue_name;
    dlq_name = dlq_name;
    table_name = table_name;
  })

-- The libraries give patterns of 32 bits.
abbrev pub IsInt32 : Parsers → Type 0
IsInt32 parsers =
    ((s : String) (n : ℕ) → parsers.seconds s ≡ some n → n < 2 ^ 32)
    × ((s : String) (n : ℕ) → parsers.scan s ≡ some n → n < 2 ^ 32)

at_least_30-bounds : (n : ℕ) → n < 2 ^ 32 → (30 ≤ at_least_30 n) × (at_least_30 n < 2 ^ 31)
unfolding at_least_30 lt_int32
at_least_30-bounds n h = (ground arith, ground arith)

accept_batch-bounds : (n : ℕ) → n < 2 ^ 32 → (1 ≤ accept_batch n) × (accept_batch n ≤ 32)
unfolding accept_batch lt_int32
accept_batch-bounds n h = (ground arith, ground arith)

required-Ends :
    (vars : Dict String) (name : String)
    → Ends (λ e. e ≡ 1) (λ (v : String). v ≢ "") (required vars name)
unfolding required
required-Ends vars name = elim (Bool-cases (str_eq (getenv vars name) "")) [
  | inl unset ↦ rw (required, unset) (error refl)
  | inr given ↦ rw (required, given) (value (λ e. absurd (cc ((eq_iff (getenv vars name) "").1 e))))
]

must-Ends : (done : Bool) → Ends (λ e. e ≡ 1) (λ (u : Unit {0}). done ≡ true) (must done)
unfolding must
must-Ends true = value refl
must-Ends false = error refl

module _ (parsers : Parsers) (vars : Dict String) (h : IsInt32 parsers) where
  visibility_timeout-bounds :
      (30 ≤ visibility_timeout parsers vars) × (visibility_timeout parsers vars < 2 ^ 31)
  unfolding visibility_timeout
  visibility_timeout-bounds =
      elim (Bool-cases (str_eq (getenv vars "QUEUE_VISIBILITY_TIMEOUT") "")) [
        | inl unset ↦ rw (visibility_timeout, unset) (omega arith, omega arith)
        | inr given ↦
            elim (Option-cases (parsers.seconds (getenv vars "QUEUE_VISIBILITY_TIMEOUT"))) [
              | inl bad ↦ rw (visibility_timeout, given, bad) (omega arith, omega arith)
              | inr (n, read) ↦
                  rw (visibility_timeout, given, read) (at_least_30-bounds n (h.0 _ n read))
            ]
      ]

  parse_int32-bound : (s : String) (n : ℕ) → parse_int32 parsers s ≡ some n → n < 2 ^ 32
  unfolding parse_int32
  parse_int32-bound s n e = elim (Option-cases (parsers.seconds s)) [
    | inl bad ↦ h.1 s n (rw (parse_int32, bad) at e)
    | inr (k, read) ↦ h.0 s n (read ∙ (rw (parse_int32, read) at e))
  ]

  batch_size-bounds : (1 ≤ batch_size parsers vars) × (batch_size parsers vars ≤ 32)
  unfolding batch_size
  batch_size-bounds = elim (Bool-cases (str_eq (getenv vars "DEQUEUE_BATCH_SIZE") "")) [
    | inl unset ↦ rw (batch_size, unset) (omega arith, omega arith)
    | inr given ↦ elim (Option-cases (parse_int32 parsers (getenv vars "DEQUEUE_BATCH_SIZE"))) [
      | inl bad ↦ rw (batch_size, given, bad) (omega arith, omega arith)
      | inr (n, read) ↦
          rw (batch_size, given, read) (accept_batch-bounds n (parse_int32-bound _ n read))
    ]
  ]

  -- A worker that starts has its three variables, a visibility timeout and a batch within bounds, and
  -- Azure has given it its clients.
  pub record IsReady (azure : Azure) (c : Clients) : Type 0 where
    pub connected : c.connection ≢ ""
    pub posts : c.base_url ≢ ""
    pub authorized : c.auth_token ≢ ""
    pub patient : (30 ≤ c.visibility_timeout_sec) × (c.visibility_timeout_sec < 2 ^ 31)
    pub batched : (1 ≤ c.dequeue_batch_size) × (c.dequeue_batch_size ≤ 32)
    pub queue : azure.queue_client c.connection c.queue_name ≡ true
    pub dead_letters : azure.queue_client c.connection c.dlq_name ≡ true
    pub table : azure.service_client c.connection ≡ true

  -- Where the libraries read numbers of 32 bits, `initializeClients` either ends the worker with the
  -- status 1 or gives clients that are ready: the three variables are not empty, the visibility timeout
  -- is at least 30 and below 2 ^ 31 seconds, the batch is of 1 to 32 messages, and Azure has made the
  -- clients of both queues and of the tables.
  pub initialize_clients-Ends :
      (azure : Azure) → Ends (λ e. e ≡ 1) (IsReady azure) (initialize_clients parsers azure vars)
  unfolding initialize_clients
  initialize_clients-Ends azure =
      Ends-bind (required-Ends vars "AZURE_STORAGE_CONNECTION_STRING") λ connection connected.
        Ends-bind (required-Ends vars "INTERMEDIATE_BASE_URL") λ base_url posts.
          Ends-bind (required-Ends vars "WORKER_AUTH_TOKEN") λ auth_token authorized.
            Ends-bind (must-Ends (azure.queue_client connection queue_name)) λ made queue.
              Ends-bind (must-Ends (azure.queue_client connection dlq_name)) λ made' dead_letters.
                Ends-bind
                  (must-Ends (
                    azure.create_queue connection dlq_name
                    || azure.already_exists connection dlq_name))
                  λ there created.
                    Ends-bind (must-Ends (azure.service_client connection)) λ served table.
                      value (record {
                        connected = connected;
                        posts = posts;
                        authorized = authorized;
                        patient = visibility_timeout-bounds;
                        batched = batch_size-bounds;
                        queue = queue;
                        dead_letters = dead_letters;
                        table = table;
                      })
