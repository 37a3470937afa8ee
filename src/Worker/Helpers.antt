-- ===== src/Worker/Helpers.antt =====
-- The helpers of benchmarker/worker/dlq.go, queue.go and utils.go that no other code calls.
use snake_42tokyo_tuning.Base.{ℕ, ◌+◌, ◌≡◌, refl, Option, none, some, ◌∷◌, if◌then◌else◌}
use snake_42tokyo_tuning.Worker.Flow.{
  QueueMessage, Backend, World, update_request_status, delete_call, enqueue_dead,
  mark_failed_and_drop,
}

module _ (world : World) where
  -- `deleteMessageSafe`: the id and the pop receipt, or `none` if one of them is nil.
  unfoldable pub delete_message_safe : (handle : Option ℕ) → Backend → Backend
  delete_message_safe none s = s
  delete_message_safe (some id) s = delete_call world id s

  -- `enqueueToDLQ`, whose error is only logged.
  unfoldable pub enqueue_to_dlq : (payload : QueueMessage) → Backend → Backend
  enqueue_to_dlq payload s = elim s.dead_letters [
    | none ↦ s
    | some letters ↦ record s {
      dead_letters = some (if world.fault s.asked then letters else payload ∷ letters);
      asked = s.asked + 1;
    }
  ]

  -- `nowUTC`
  unfoldable pub now_utc : Backend → ℕ
  now_utc s = world.clock s.asked

  -- `markFailedAndDrop` does what the two helpers would do around the new status.
  pub mark_failed_and_drop-eq_helpers :
      (handle : Option ℕ) (task : QueueMessage) (s : Backend)
      → mark_failed_and_drop world handle task s
        ≡ delete_message_safe handle
            (update_request_status world task.team_id task.load_test_id "failed"
              (enqueue_to_dlq task s)).1
  unfolding mark_failed_and_drop delete_message_safe enqueue_to_dlq enqueue_dead
  mark_failed_and_drop-eq_helpers none task s = refl
  mark_failed_and_drop-eq_helpers (some id) task s = refl
