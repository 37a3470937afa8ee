-- ===== src/Worker/Settled.antt =====
-- How `processMessage` of benchmarker/worker/queue.go ends, while no call of Azure or of the API fails.
use Prim.Native.String.{String}
use mathlib.Core.List.{Memᴰ}
use snake_42tokyo_tuning.Base.{
  ℕ, ◌+◌, ◌≡◌, ◌∙◌, refl, ap, Bool, true, false, Option, none, some, List, ◌∷◌, Bool-cases,
  Option-cases, inl, inr, ok,
}
use snake_42tokyo_tuning.Worker.Flow.{
  QueueMessage, RequestEntity, Backend, World, upsert, delete_message, has_other,
  update_request_status, is_duplicate_or_skip, acquire_lock, release_lock, delete_call,
  enqueue_dead, mark_failed_and_drop, post_score, finish, report, run_test, with_lock,
  unless_skipped, mark_running, process_message,
}
use snake_42tokyo_tuning.Worker.Stuck.{Running, message, upsert-new}

-- The row of a task with a status and a time.
abbrev pub row : QueueMessage → String → ℕ → RequestEntity
row task status time = record {
  partition_key = task.team_id;
  row_key = task.load_test_id;
  status = status;
  updated_at = time;
}

-- The state after a new status, at the next reading of the clock.
abbrev pub with_status : World → QueueMessage → String → Backend → Backend
with_status world task status s = record s {
  requests = upsert (row task status (world.clock s.asked)) s.requests;
  asked = s.asked + 1;
}

abbrev pub with_letter : QueueMessage → Option (List QueueMessage) → Option (List QueueMessage)
with_letter task none = none
with_letter task (some letters) = some (task ∷ letters)

-- The end of a delivery: the score has been posted, or the task has failed and is a dead letter, or
-- another request of the team is active. The message has left the queue in the first two cases only.
pub data Settled (world : World) (task : QueueMessage) (id : ℕ) (s : Backend)
    : Backend → Type 0 where
  passed :
      {s' : Backend} (score n m : ℕ)
      → world.load_test n task.target_ip ≡ some score
      → s'.posted ≡ (task.load_test_id, score) ∷ s.posted
      → s'.queue ≡ delete_message id s.queue
      → Memᴰ (row task "finished" (world.clock m)) s'.requests
      → Settled world task id s s'
  dropped :
      {s' : Backend} (n m : ℕ)
      → world.load_test n task.target_ip ≡ none
      → s'.posted ≡ s.posted
      → s'.dead_letters ≡ with_letter task s.dead_letters
      → s'.queue ≡ delete_message id s.queue
      → Memᴰ (row task "failed" (world.clock m)) s'.requests
      → Settled world task id s s'
  skipped :
      {s' : Backend} (n : ℕ)
      → has_other task.team_id task.load_test_id (world.clock n) s'.requests ≡ true
      → s'.posted ≡ s.posted
      → s'.queue ≡ s.queue
      → Running world task s'
      → Settled world task id s s'

module _ (world : World) (calm : (n : ℕ) → world.fault n ≡ false) (task : QueueMessage)
    (id : ℕ) where
  -- The states after the end of a failed and of a finished task.
  abbrev failed_state : ℕ → Backend → Backend
  failed_state n s = record s {
    requests = upsert (row task "failed" (world.clock n)) s.requests;
    queue = delete_message id s.queue;
    dead_letters = with_letter task s.dead_letters;
    asked = n + 1 + 1;
  }

  abbrev finished_state : Backend → Backend
  finished_state s = record s {
    requests = upsert (row task "finished" (world.clock s.asked)) s.requests;
    queue = delete_message id s.queue;
    asked = s.asked + 1 + 1;
  }

  -- The state after a score has been posted.
  abbrev posted_state : ℕ → Backend → Backend
  posted_state score s = record s {
    posted = (task.load_test_id, score) ∷ s.posted;
    asked = s.asked + 1 + 1;
  }

  status_set :
      (status : String) (s : Backend)
      → update_request_status world task.team_id task.load_test_id status s
        ≡ (true, with_status world task status s)
  unfolding update_request_status
  status_set status s = rw (update_request_status, calm s.asked) refl

  deleted :
      (s : Backend)
      → delete_call world id s ≡ record s { queue = delete_message id s.queue; asked = s.asked + 1 }
  unfolding delete_call
  deleted s = rw (delete_call, calm s.asked) refl

  enqueued :
      (s : Backend)
      → (n : ℕ) × (enqueue_dead world task s
          ≡ record s { dead_letters = with_letter task s.dead_letters; asked = n })
  unfolding enqueue_dead
  enqueued s = elim (Option-cases s.dead_letters) [
    | inl absent ↦ (
      s.asked,
      rw (enqueue_dead, absent) (ap (λ letters. record s { dead_letters = letters }) absent),
    )
    | inr (letters, present) ↦ (s.asked + 1, rw (enqueue_dead, present, calm s.asked) refl)
  ]

  drop_state :
      (s : Backend) → (n : ℕ) × (mark_failed_and_drop world (some id) task s ≡ failed_state n s)
  unfolding mark_failed_and_drop
  drop_state s =
      let (n, e) = enqueued s in
      (
        n,
        rw
            (
              mark_failed_and_drop,
              e,
              status_set "failed"
                  (record s { dead_letters = with_letter task s.dead_letters; asked = n }),
            )
            (deleted _),
      )

  finish_state : (s : Backend) → finish world (some id) task s ≡ (ok tt, finished_state s)
  unfolding finish release_lock
  finish_state s =
      rw (finish, release_lock, status_set "finished" s) (ap (λ b. (ok tt, b)) (deleted _))

  run_test-Settled :
      (s0 s : Backend)
      → s.posted ≡ s0.posted
      → s.dead_letters ≡ s0.dead_letters
      → s.queue ≡ s0.queue
      → (s' : Backend) × (run_test world (some id) task s ≡ (ok tt, s'))
        × Settled world task id s0 s'
  unfolding run_test report post_score
  run_test-Settled s0 s posted letters queue =
      elim (Option-cases (world.load_test s.asked task.target_ip)) [
        | inl fails ↦
            let (n, e) = drop_state (record s { asked = s.asked + 1 }) in
            (
              failed_state n (record s { asked = s.asked + 1 }),
              rw (run_test, fails) (ap (λ b. (ok tt, b)) e),
              dropped s.asked n fails posted (ap (with_letter task) letters)
                  (ap (delete_message id) queue) (upsert-new _ s.requests),
            )
        | inr (score, ends) ↦ (
          finished_state (posted_state score s),
          rw (run_test, ends, report, post_score, calm (s.asked + 1))
              (finish_state (posted_state score s)),
          passed score s.asked (s.asked + 1 + 1) ends
              (ap (λ ps. (task.load_test_id, score) ∷ ps) posted) (ap (delete_message id) queue)
              (upsert-new _ s.requests),
        )
      ]

  -- The state after the request has been marked as running and the other requests have been read.
  abbrev checked_state : Backend → Backend
  checked_state s = record s {
    requests = upsert (row task "running" (world.clock s.asked)) s.requests;
    asked = s.asked + 1 + 1;
  }

  -- Whether another request of the team is active at that time.
  abbrev is_busy : Backend → Bool
  is_busy s =
      has_other task.team_id task.load_test_id (world.clock (s.asked + 1))
        (upsert (row task "running" (world.clock s.asked)) s.requests)

  busy_state :
      (s : Backend)
      → is_busy s ≡ true
      → process_message world (message (some id) task) s ≡ (ok tt, checked_state s)
  unfolding process_message mark_running is_duplicate_or_skip unless_skipped
  busy_state s busy =
      rw
        (
          process_message,
          mark_running,
          status_set "running" s,
          is_duplicate_or_skip,
          calm (s.asked + 1),
          busy,
        )
        refl

  -- Without another active request, the message is processed as the test is run.
  free_state :
      (s : Backend)
      → is_busy s ≡ false
      → process_message world (message (some id) task) s
        ≡ run_test world (some id) task (with_status world task "running" (checked_state s))
  unfolding process_message mark_running is_duplicate_or_skip unless_skipped with_lock acquire_lock
  free_state s free =
      rw
        (
          process_message,
          mark_running,
          status_set "running" s,
          is_duplicate_or_skip,
          calm (s.asked + 1),
          free,
          acquire_lock,
          status_set "running" (checked_state s),
        )
        refl

  -- While no call of Azure or of the API fails, the delivery of a message with a request never panics
  -- and settles it, if the message has an id and a pop receipt. Either the load test has run: then its
  -- score is posted, the request is finished and the message has left the queue. Or the load test has
  -- failed: then the request has failed, is a dead letter if there is a queue for them, and the message
  -- has left the queue. Or another request of the team is active: then no score is posted, the message
  -- stays in the queue, and the request is marked as running.
  pub process_message-Settled :
      (s : Backend)
      → (s' : Backend) × (process_message world (message (some id) task) s ≡ (ok tt, s'))
        × Settled world task id s s'
  process_message-Settled s = elim (Bool-cases (is_busy s)) [
    | inl busy ↦ (
      checked_state s,
      busy_state s busy,
      skipped (s.asked + 1) busy refl refl (s.asked, upsert-new _ s.requests),
    )
    | inr free ↦
        let (s', run, settled) =
          run_test-Settled s (with_status world task "running" (checked_state s)) refl refl refl in
        (s', free_state s free ∙ run, settled)
  ]
