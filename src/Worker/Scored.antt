-- ===== src/Worker/Scored.antt =====
-- `processMessage` of benchmarker/worker/queue.go over the `runLoadTest` of
-- benchmarker/worker/worker.go.
use Prim.Native.String.{String}
use mathlib.Core.Option.{some-injective}
use snake_42tokyo_tuning.Base.{
  ℕ, Bool, ◌≡◌, refl, subst, ap, ◌∙◌, false, true, inl, inr, Bool-cases, Option-cases, ◌+◌, Option,
  none, some, ◌∷◌, Run, ok, err, panic, no_fuel,
}
use snake_42tokyo_tuning.Bench.Machine.{Host, Machine}
use snake_42tokyo_tuning.Bench.LoadTest.{LoadError, run_load_test}
use snake_42tokyo_tuning.Bench.LoadTest.Tested.{Tested, run_load_test-Tested}
use snake_42tokyo_tuning.Worker.Flow.{
  QueueMessage, MessageText, no_text, invalid, request, Dequeued, Backend, World,
  update_request_status, is_duplicate_or_skip, acquire_lock, release_lock, delete_call,
  enqueue_dead, mark_failed_and_drop, post_score, finish, report, run_test, with_lock,
  unless_skipped, mark_running, drop_invalid, process_message,
}

-- The score of a load test; an error goes to `markFailedAndDrop`.
unfoldable pub score_result : Run LoadError ℕ → Option ℕ
score_result (ok score) = some score
score_result (err e) = none
score_result panic = none
score_result no_fuel = none

module _ {Float : Type 0} (host : Host Float) (machine : ℕ → Machine) where
  -- A world whose load tests run on the machine of the call.
  unfoldable pub with_load_tests : World → World
  unfolding score_result
  with_load_tests world = record world {
    load_test = λ n target_ip. score_result (run_load_test host target_ip (machine n)).0;
  }

module _ (world : World) where
  update_request_status-posted :
      (team row_key status : String) (s : Backend)
      → (update_request_status world team row_key status s).1.posted ≡ s.posted
  unfolding update_request_status
  update_request_status-posted team row_key status s = elim (Bool-cases (world.fault s.asked)) [
    | inl failed ↦ rw (update_request_status, failed) refl
    | inr done ↦ rw (update_request_status, done) refl
  ]

  enqueue_dead-posted :
      (task : QueueMessage) (s : Backend) → (enqueue_dead world task s).posted ≡ s.posted
  unfolding enqueue_dead
  enqueue_dead-posted task s = elim (Option-cases s.dead_letters) [
    | inl absent ↦ rw (enqueue_dead, absent) refl
    | inr (letters, there) ↦ rw (enqueue_dead, there) refl
  ]

  mark_failed_and_drop-posted :
      (handle : Option ℕ) (task : QueueMessage) (s : Backend)
      → (mark_failed_and_drop world handle task s).posted ≡ s.posted
  unfolding mark_failed_and_drop delete_call
  mark_failed_and_drop-posted none task s =
      update_request_status-posted task.team_id task.load_test_id "failed" _
      ∙ enqueue_dead-posted task s
  mark_failed_and_drop-posted (some id) task s =
      update_request_status-posted task.team_id task.load_test_id "failed" _
      ∙ enqueue_dead-posted task s

  finish-posted :
      (handle : Option ℕ) (task : QueueMessage) (s : Backend)
      → (finish world handle task s).1.posted ≡ s.posted
  unfolding finish release_lock delete_call
  finish-posted none task s =
      update_request_status-posted task.team_id task.load_test_id "finished" s
  finish-posted (some id) task s =
      update_request_status-posted task.team_id task.load_test_id "finished" s

  drop_invalid-posted :
      (handle : Option ℕ) (s : Backend) → (drop_invalid world handle s).1.posted ≡ s.posted
  unfolding drop_invalid delete_call
  drop_invalid-posted none s = refl
  drop_invalid-posted (some id) s = refl

  invalid-posted :
      (handle : Option ℕ) (s : Backend)
      → (process_message world (record { handle = handle; text = invalid }) s).1.posted ≡ s.posted
  unfolding process_message
  invalid-posted handle s = drop_invalid-posted handle s

  -- What is posted while a task is handled: nothing, or the score of a load test of its target.
  data Posts (task : QueueMessage) (s : Backend) (s' : Backend) : Type 0 where
    nothing : s'.posted ≡ s.posted → Posts task s s'
    one :
        (score n : ℕ)
        → world.load_test n task.target_ip ≡ some score
        → s'.posted ≡ (task.load_test_id, score) ∷ s.posted
        → Posts task s s'

  run_test-Posts :
      (handle : Option ℕ) (task : QueueMessage) (s : Backend)
      → Posts task s (run_test world handle task s).1
  unfolding run_test report post_score
  run_test-Posts handle task s = elim (Option-cases (world.load_test s.asked task.target_ip)) [
    | inl failed ↦ rw (run_test, failed) (nothing (mark_failed_and_drop-posted handle task _))
    | inr (score, ran) ↦ elim (Bool-cases (world.fault (s.asked + 1))) [
      | inl refused ↦
          rw (run_test, ran, post_score, refused, report)
            (nothing (mark_failed_and_drop-posted handle task _))
      | inr taken ↦
          rw (run_test, ran, post_score, taken, report)
            (one score s.asked ran (finish-posted handle task _))
    ]
  ]

  Posts-shift :
      {task : QueueMessage} {s t s' : Backend}
      → t.posted ≡ s.posted
      → Posts task t s'
      → Posts task s s'
  Posts-shift e (nothing h) = nothing (h ∙ e)
  Posts-shift {task} e (one score n ran h) =
      one score n ran (h ∙ ap (λ ps. (task.load_test_id, score) ∷ ps) e)

  with_lock-Posts :
      (handle : Option ℕ) (task : QueueMessage) (r : Bool × Backend)
      → Posts task r.1 (with_lock world handle task r).1
  unfolding with_lock
  with_lock-Posts handle task (true, s) = run_test-Posts handle task s
  with_lock-Posts handle task (false, s) = nothing refl

  unless_skipped-Posts :
      (handle : Option ℕ) (task : QueueMessage) (r : Option Bool × Backend)
      → Posts task r.1 (unless_skipped world handle task r).1
  unfolding unless_skipped acquire_lock
  unless_skipped-Posts handle task (none, s) = nothing refl
  unless_skipped-Posts handle task (some true, s) = nothing refl
  unless_skipped-Posts handle task (some false, s) =
      Posts-shift (update_request_status-posted task.team_id task.load_test_id "running" s)
        (with_lock-Posts handle task (acquire_lock world task s))

  task-Posts :
      (handle : Option ℕ) (task : QueueMessage) (s : Backend)
      → Posts task s (process_message world (record { handle = handle; text = request task }) s).1
  unfolding process_message mark_running is_duplicate_or_skip
  task-Posts handle task s =
      Posts-shift (update_request_status-posted task.team_id task.load_test_id "running" s) (
        unless_skipped-Posts handle task
          (is_duplicate_or_skip world task (mark_running world task s)))

module _ {Float : Type 0} (host : Host Float) (machine : ℕ → Machine) (world : World) where
  -- What a delivery has posted: nothing, or, for the task in the message, a score with which a run of
  -- `runLoadTest` on its target has ended.
  pub data Delivered (msg : Dequeued) (s : Backend) : Backend → Type 0 where
    quiet : {s' : Backend} → s'.posted ≡ s.posted → Delivered msg s s'
    scored :
        {s' : Backend} (task : QueueMessage) (score n : ℕ) (m : Machine)
        → msg.text ≡ request task
        → Tested host task.target_ip (machine n) (ok score, m)
        → s'.posted ≡ (task.load_test_id, score) ∷ s.posted
        → Delivered msg s s'

  result-Tested :
      (target_ip : String) (n score : ℕ) (r : Run LoadError ℕ × Machine)
      → Tested host target_ip (machine n) r
      → score_result r.0 ≡ some score
      → Tested host target_ip (machine n) (ok score, r.1)
  unfolding score_result
  result-Tested target_ip n score (ok k, m) h e =
      subst (λ x. Tested host target_ip (machine n) (ok x, m)) (some-injective _ _ e) h
  result-Tested target_ip n score (err x, m) h e = absurd (cc)
  result-Tested target_ip n score (panic, m) h e = absurd (cc)
  result-Tested target_ip n score (no_fuel, m) h e = absurd (cc)

  task-Delivered :
      (handle : Option ℕ) (task : QueueMessage) (s s' : Backend)
      → Posts (with_load_tests host machine world) task s s'
      → Delivered (record { handle = handle; text = request task }) s s'
  unfolding with_load_tests
  task-Delivered handle task s s' (nothing same) = quiet same
  task-Delivered handle task s s' (one score n ran posted) =
      scored task score n _ refl
        (result-Tested task.target_ip n score (run_load_test host task.target_ip (machine n))
          (run_load_test-Tested host task.target_ip (machine n)) ran)
        posted

  -- Whatever calls fail, the delivery of a message posts at most one score. It is posted for the task of
  -- the message, and it is one with which a run of `runLoadTest` on the target of the task has ended:
  -- the score of the raw file that k6 has left, or 0 where that gives none.
  pub process_message-Delivered :
      (handle : Option ℕ) (text : MessageText) (s : Backend)
      → Delivered
          (record { handle = handle; text = text })
          s
          (process_message
            (with_load_tests host machine world)
            (record { handle = handle; text = text })
            s).1
  unfolding process_message
  process_message-Delivered handle no_text s = quiet refl
  process_message-Delivered handle invalid s =
      quiet (invalid-posted (with_load_tests host machine world) handle s)
  process_message-Delivered handle (request task) s =
      task-Delivered handle task s _ (task-Posts (with_load_tests host machine world) handle task s)
