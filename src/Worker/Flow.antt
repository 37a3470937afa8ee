-- ===== src/Worker/Flow.antt =====
-- `processMessage` of benchmarker/worker/queue.go with the calls of lock.go. The Azure clients are
-- the state of a table, a queue and a dead letter queue, and a fault for each call; running the load
-- test and posting the score are answers of the environment.
use Prim.Native.String.{String}
use text.Mathlib.Text.{◌==◌ as str_eq}
use snake_42tokyo_tuning.Base.{
  ℕ, ◌+◌, ◌-◌, ◌*◌, ◌/◌, Bool, true, false, not, ◌&&◌, ◌||◌, Option, none, some, List, [], ◌∷◌,
  ◌==◌, leb, if◌then◌else◌, Run, ok, panic,
}

pub record QueueMessage : Type 0 where
  pub load_test_id : String
  pub team_id : String
  pub target_ip : String

-- A row of the table of requests. `partition_key` is the team, `row_key` the load test.
pub record RequestEntity : Type 0 where
  pub partition_key : String
  pub row_key : String
  pub status : String
  pub updated_at : ℕ

-- The text of a message: nil, or what it parses to.
pub data MessageText : Type 0 where
  no_text : MessageText
  invalid : MessageText
  request : QueueMessage → MessageText

-- A message of the queue: its id and pop receipt, `none` if one is nil, and its text.
pub record Dequeued : Type 0 where
  pub handle : Option ℕ
  pub text : MessageText

-- `dead_letters` is `none` if there is no dead letter queue. `posted` are the scores that the API has
-- taken.
pub record Backend : Type 0 where
  pub requests : List RequestEntity
  pub queue : List Dequeued
  pub dead_letters : Option (List QueueMessage)
  pub posted : List (String × ℕ)
  pub asked : ℕ

-- Does the call of a number fail, what does the clock say, and how does a load test end?
pub record World : Type 0 where
  pub fault : ℕ → Bool
  pub clock : ℕ → ℕ
  pub load_test : ℕ → String → Option ℕ

abbrev pub second : ℕ
second = 1000000000

abbrev pub hour : ℕ
hour = 3600 * second

-- `UpsertEntity`
unfoldable pub upsert : RequestEntity → List RequestEntity → List RequestEntity
upsert e [] = e ∷ []
upsert e (r ∷ rs) =
    let rest = upsert e rs in
    if str_eq r.partition_key e.partition_key && str_eq r.row_key e.row_key
    then e ∷ rs
    else r ∷ rest

unfoldable pub delete_message : ℕ → List Dequeued → List Dequeued
delete_message id [] = []
delete_message id (m ∷ ms) =
    let rest = delete_message id ms in
    elim m.handle [ none ↦ m ∷ rest | some other ↦ if other == id then rest else m ∷ rest ]

-- The filter of `isDuplicateOrSkip`. The time is written in whole seconds.
unfoldable pub is_active : (team : String) (now : ℕ) → RequestEntity → Bool
is_active team now e =
    str_eq e.partition_key team
    && ((str_eq e.status "waiting" || str_eq e.status "running")
        && leb ((now - hour) / second * second) e.updated_at)

-- The loop over the entities of the pages.
unfoldable pub has_other : (team row_key : String) (now : ℕ) → List RequestEntity → Bool
has_other team row_key now [] = false
has_other team row_key now (e ∷ es) =
    (is_active team now e && not (str_eq e.row_key row_key)) || has_other team row_key now es

module _ (world : World) where
  -- `updateRequestStatus`; whether it has succeeded.
  unfoldable pub update_request_status : (team row_key status : String) → Backend → Bool × Backend
  update_request_status team row_key status s =
      if world.fault s.asked then (false, record s { asked = s.asked + 1 }) else (
        true,
        record s {
          requests =
              upsert
                (record {
                  partition_key = team;
                  row_key = row_key;
                  status = status;
                  updated_at = world.clock s.asked;
                })
                s.requests;
          asked = s.asked + 1;
        },
      )

  -- `isDuplicateOrSkip`; `none` is an error.
  unfoldable pub is_duplicate_or_skip : QueueMessage → Backend → Option Bool × Backend
  is_duplicate_or_skip task s = (
    (if world.fault s.asked
        then none
        else some (has_other task.team_id task.load_test_id (world.clock s.asked) s.requests)),
    record s { asked = s.asked + 1 },
  )

  -- `acquireLock`
  unfoldable pub acquire_lock : QueueMessage → Backend → Bool × Backend
  acquire_lock task s = update_request_status task.team_id task.load_test_id "running" s

  -- `releaseLock`
  unfoldable pub release_lock : QueueMessage → Backend → Bool × Backend
  release_lock task s = update_request_status task.team_id task.load_test_id "finished" s

  -- `queueClient.DeleteMessage`, whose error is only logged.
  unfoldable pub delete_call : ℕ → Backend → Backend
  delete_call id s = record s {
    queue = if world.fault s.asked then s.queue else delete_message id s.queue;
    asked = s.asked + 1;
  }

  -- `dlqClient.EnqueueMessage`, whose error is only logged.
  unfoldable pub enqueue_dead : QueueMessage → Backend → Backend
  enqueue_dead task s = elim s.dead_letters [
    | none ↦ s
    | some letters ↦ record s {
      dead_letters = some (if world.fault s.asked then letters else task ∷ letters);
      asked = s.asked + 1;
    }
  ]

  -- `markFailedAndDrop`
  unfoldable pub mark_failed_and_drop : Option ℕ → QueueMessage → Backend → Backend
  mark_failed_and_drop handle task s =
      let s1 = enqueue_dead task s in
      let s2 = (update_request_status task.team_id task.load_test_id "failed" s1).1 in
      elim handle [ none ↦ s2 | some id ↦ delete_call id s2 ]

  -- `postScore`: whether the API has taken the score.
  unfoldable pub post_score : QueueMessage → ℕ → Backend → Bool × Backend
  post_score task score s =
      if world.fault s.asked
      then (false, record s { asked = s.asked + 1 })
      else (true, record s { posted = (task.load_test_id, score) ∷ s.posted; asked = s.asked + 1 })

  -- The end of `processMessage`. The pointers of the message are followed without a test.
  unfoldable pub finish : Option ℕ → QueueMessage → Backend → Run (Unit {0}) (Unit {0}) × Backend
  finish none task s = (panic, (release_lock task s).1)
  finish (some id) task s = (ok tt, delete_call id (release_lock task s).1)

  unfoldable pub report :
      Option ℕ → QueueMessage → (score : ℕ) → Bool × Backend → Run (Unit {0}) (Unit {0}) × Backend
  report handle task score (taken, s) =
      if taken then finish handle task s else (ok tt, mark_failed_and_drop handle task s)

  -- `runLoadTest` and what follows.
  unfoldable pub run_test : Option ℕ → QueueMessage → Backend → Run (Unit {0}) (Unit {0}) × Backend
  run_test handle task s =
      let s1 : Backend = record s { asked = s.asked + 1 } in
      elim (world.load_test s.asked task.target_ip) [
        | none ↦ (ok tt, mark_failed_and_drop handle task s1)
        | some score ↦ report handle task score (post_score task score s1)
      ]

  unfoldable pub with_lock :
      Option ℕ → QueueMessage → Bool × Backend → Run (Unit {0}) (Unit {0}) × Backend
  with_lock handle task (acquired, s) = if acquired then run_test handle task s else (ok tt, s)

  unfoldable pub unless_skipped :
      Option ℕ → QueueMessage → Option Bool × Backend → Run (Unit {0}) (Unit {0}) × Backend
  unless_skipped handle task (none, s) = (ok tt, s)
  unless_skipped handle task (some true, s) = (ok tt, s)
  unless_skipped handle task (some false, s) = with_lock handle task (acquire_lock task s)

  -- The part of `parseQueueMessage` that marks a request as running when it is received.
  unfoldable pub mark_running : QueueMessage → Backend → Backend
  mark_running task s = (update_request_status task.team_id task.load_test_id "running" s).1

  -- The deletion of a message that does not parse. The pointers are followed without a test.
  unfoldable pub drop_invalid : Option ℕ → Backend → Run (Unit {0}) (Unit {0}) × Backend
  drop_invalid none s = (panic, s)
  drop_invalid (some id) s = (ok tt, delete_call id s)

  -- `processMessage`. The pointer to the text is followed without a test.
  unfoldable pub process_message : Dequeued → Backend → Run (Unit {0}) (Unit {0}) × Backend
  process_message msg s = elim msg.text [
    | no_text ↦ (panic, s)
    | invalid ↦ drop_invalid msg.handle s
    | request task ↦
        let s1 = mark_running task s in
        unless_skipped msg.handle task (is_duplicate_or_skip task s1)
  ]
