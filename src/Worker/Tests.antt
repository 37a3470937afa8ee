-- ===== src/Worker/Tests.antt =====
-- The worker on two requests of one team.
use Prim.Native.String.{String, ◌++◌ as str_append}
use mathlib.Core.Option.{some-injective}
use mathlib.Core.List.Memᴰ.{head, tail}
use snake_42tokyo_tuning.Base.{◌≡◌, refl, true, false, none, some, List, [], ◌∷◌, ok, arith}
use snake_42tokyo_tuning.Worker.Flow.{
  QueueMessage, request, RequestEntity, Backend, World, upsert, delete_message, is_active,
  has_other, update_request_status, is_duplicate_or_skip, acquire_lock, release_lock, delete_call,
  enqueue_dead, mark_failed_and_drop, post_score, finish, report, run_test, with_lock,
  unless_skipped, mark_running, process_message,
}
use snake_42tokyo_tuning.Base.{ℕ, ◌+◌, Ends}
use snake_42tokyo_tuning.Base.Dict.{Dict, lookup}
use snake_42tokyo_tuning.Bench.Machine.{Host, Machine}
use snake_42tokyo_tuning.Start.Environment.{getenv}
use snake_42tokyo_tuning.Worker.Scored.{with_load_tests, Delivered, process_message-Delivered}
use snake_42tokyo_tuning.Base.{err}
use snake_42tokyo_tuning.Worker.Post.{score_request, trim_slashes, is_registered}
use snake_42tokyo_tuning.Worker.Program.{worker_main, started, polled}
use snake_42tokyo_tuning.Worker.Filter.{
  filter_text, read_literal, conditions, filter_text-reads_team,
}
use snake_42tokyo_tuning.Worker.Clients.{
  Parsers, Azure, IsInt32, IsReady, initialize_clients, initialize_clients-Ends, required, must,
  visibility_timeout, batch_size, parse_int32, at_least_30, accept_batch, lt_int32,
}
use snake_42tokyo_tuning.Worker.Settled.{Settled, process_message-Settled}
use snake_42tokyo_tuning.Worker.Stuck.{Running, message, deliver_all, deliver_all-blocked}

-- Nothing fails, the clock stands still, and every load test ends with 42.
abbrev calm : World
calm = record { fault = λ n. false; clock = λ n. 7; load_test = λ n ip. some 42 }

abbrev task_a : QueueMessage
task_a = record { load_test_id = "a"; team_id = "t"; target_ip = "10.0.0.1" }

abbrev task_b : QueueMessage
task_b = record { load_test_id = "b"; team_id = "t"; target_ip = "10.0.0.1" }

abbrev running : String → RequestEntity
running id = record { partition_key = "t"; row_key = id; status = "running"; updated_at = 7 }

-- The queue holds the messages of the requests `rs` of the table.
abbrev backend : List RequestEntity → Backend
backend rs = record {
  requests = rs;
  queue = message (some 1) task_a ∷ message (some 2) task_b ∷ [];
  dead_letters = none;
  posted = [];
  asked = 0;
}

process_message-Settled_example :
    (s' : Backend) × (process_message calm (message (some 1) task_a) (backend []) ≡ (ok tt, s'))
    × Settled calm task_a 1 (backend []) s'
process_message-Settled_example = process_message-Settled calm (λ n. refl) task_a 1 (backend [])

-- Alone in the table, the request is carried out.
carried_out : process_message calm (message (some 1) task_a) (backend []) ≡ (
  ok tt,
  record {
    requests = record (running "a") { status = "finished" } ∷ [];
    queue = message (some 2) task_b ∷ [];
    dead_letters = none;
    posted = ("a", 42) ∷ [];
    asked = 7;
  },
)
unfolding upsert delete_message is_active has_other update_request_status is_duplicate_or_skip
    acquire_lock release_lock delete_call enqueue_dead mark_failed_and_drop post_score finish report
    run_test with_lock unless_skipped mark_running process_message
carried_out = refl

-- Both requests are running.
abbrev busy : Backend
busy = backend (running "a" ∷ running "b" ∷ [])

deliver_all-blocked_example :
    Running calm task_a (
      deliver_all calm (message (some 1) task_a) (message (some 2) task_b) (true ∷ false ∷ []) busy)
    × Running calm task_b (
        deliver_all calm
          (message (some 1) task_a)
          (message (some 2) task_b)
          (true ∷ false ∷ [])
          busy)
    × ((deliver_all calm
          (message (some 1) task_a)
          (message (some 2) task_b)
          (true ∷ false ∷ [])
          busy).queue
        ≡ busy.queue)
    × ((deliver_all calm
          (message (some 1) task_a)
          (message (some 2) task_b)
          (true ∷ false ∷ [])
          busy).posted
        ≡ busy.posted)
deliver_all-blocked_example =
    deliver_all-blocked calm (λ n. refl) (λ n m. omega arith) task_a task_b (some 1) (some 2)
      (true ∷ false ∷ []) busy refl refl refl (0, head refl) (0, tail (head refl))

abbrev host : Host ℕ
host = record {
  zero = 0;
  add = λ x y. x + y;
  to_int = λ x. x;
  unmarshal = λ text. some [];
  marshal_score = λ n. "score";
  run_k6 = λ name target files. (true, files);
  fault = λ n. false;
  torn = λ n. none;
  stamp = λ n. "2025";
}

-- Every load test begins on a machine without files.
abbrev empty_machine : ℕ → Machine
empty_machine n = record { files = []; asked = n }

process_message-Delivered_example :
    Delivered host empty_machine calm
      (record { handle = some 1; text = request task_a })
      (backend [])
      (process_message
        (with_load_tests host empty_machine calm)
        (record { handle = some 1; text = request task_a })
        (backend [])).1
process_message-Delivered_example =
    process_message-Delivered host empty_machine calm (some 1) (request task_a) (backend [])

filter_text-reads_team_example :
    (rest : String) × (filter_text "team' or '1' eq '1" "2025-09-11T00:00:00Z"
      ≡ str_append "PartitionKey eq '" rest)
    × (read_literal none rest ≡ some ("team' or '1' eq '1", conditions "2025-09-11T00:00:00Z"))
filter_text-reads_team_example = filter_text-reads_team "team' or '1' eq '1" "2025-09-11T00:00:00Z"

-- Both parsers read one number.
abbrev parsers : Parsers
parsers = record { seconds = λ s. some 3600; scan = λ s. some 8 }

parsers-IsInt32 : IsInt32 parsers
parsers-IsInt32 = (
  λ s n e. let same : 3600 ≡ n = some-injective _ _ e in omega arith,
  λ s n e. let same : 8 ≡ n = some-injective _ _ e in omega arith,
)

abbrev azure : Azure
azure = record {
  queue_client = λ c n. true;
  create_queue = λ c n. false;
  already_exists = λ c n. true;
  service_client = λ c. true;
}

abbrev vars : Dict String
vars =
    ("AZURE_STORAGE_CONNECTION_STRING", "c")
    ∷ ("INTERMEDIATE_BASE_URL", "http://b")
    ∷ ("WORKER_AUTH_TOKEN", "t")
    ∷ ("QUEUE_VISIBILITY_TIMEOUT", "1h")
    ∷ ("DEQUEUE_BATCH_SIZE", "1h")
    ∷ []

initialize_clients-Ends_example :
    Ends
      (λ e. e ≡ 1)
      (IsReady parsers vars parsers-IsInt32 azure)
      (initialize_clients parsers azure vars)
initialize_clients-Ends_example = initialize_clients-Ends parsers vars parsers-IsInt32 azure

test_clients :
    initialize_clients parsers azure vars
    ≡ ok (record {
      connection = "c";
      base_url = "http://b";
      auth_token = "t";
      visibility_timeout_sec = 3600;
      dequeue_batch_size = 1;
      queue_name = "fttokyo-loadtest-requests";
      dlq_name = "fttokyo-loadtest-requests-dlq";
      table_name = "fttokyoloadtestlocks";
    })
unfolding initialize_clients required must visibility_timeout batch_size parse_int32 at_least_30
    accept_batch lt_int32 getenv lookup
test_clients = refl

test_post :
    (score_request [] "https://api///" "k" "a" "t" 42).url ≡ "https://api/internal/register-score"
unfolding score_request trim_slashes getenv lookup
test_post = refl

test_registered : is_registered (some 300) ≡ false
unfolding is_registered
test_registered = refl

test_worker_main : worker_main parsers azure [] calm [] (backend []) ≡ err 1
unfolding worker_main started polled initialize_clients required must visibility_timeout batch_size
    parse_int32 at_least_30 accept_batch lt_int32 getenv lookup
test_worker_main = refl
