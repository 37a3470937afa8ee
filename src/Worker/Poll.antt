-- ===== src/Worker/Poll.antt =====
-- `pollQueue` of benchmarker/worker/main.go: the loop over the answers of the queue, until the context
-- is done.
use snake_42tokyo_tuning.Base.{
  ℕ, ◌*◌, ◌≤◌, ◌<◌, ◌≡◌, ◌⊎◌, List, [], ◌∷◌, ltb, if◌then◌else◌, Run, ok, err, panic, no_fuel,
}
use snake_42tokyo_tuning.Worker.Flow.{Dequeued, Backend, World, second, process_message}

-- The answer to a `DequeueMessage`: an error, or the messages.
pub data Answer : Type 0 where
  failure : Answer
  messages : List Dequeued → Answer

-- `backoff`, and the sleeps so far, the latest first.
pub record Poller : Type 0 where
  pub backoff : ℕ
  pub slept : List ℕ
  pub backend : Backend

unfoldable pub next_backoff : ℕ → ℕ
next_backoff backoff = if ltb backoff (15 * second) then backoff * 2 else backoff

unfoldable pub new_poller : Backend → Poller
new_poller s = record { backoff = second; slept = []; backend = s }

module _ (world : World) where
  -- The messages one after the other; a panic ends the worker.
  unfoldable pub process_all : List Dequeued → Backend → Run (Unit {0}) (Unit {0}) × Backend
  process_all [] s = (ok tt, s)
  process_all (msg ∷ msgs) s = elim (process_message world msg s).0 [
    | ok u ↦ process_all msgs (process_message world msg s).1
    | err e ↦ (err e, (process_message world msg s).1)
    | panic ↦ (panic, (process_message world msg s).1)
    | no_fuel ↦ (no_fuel, (process_message world msg s).1)
  ]

  -- One round of the loop.
  unfoldable pub poll_round : Answer → Poller → Run (Unit {0}) (Unit {0}) × Poller
  poll_round failure p =
      (ok tt, record p { backoff = next_backoff p.backoff; slept = p.backoff ∷ p.slept })
  poll_round (messages []) p = (ok tt, record p { backoff = second; slept = 2 * second ∷ p.slept })
  poll_round (messages (m ∷ ms)) p =
      let done = process_all (m ∷ ms) p.backend in
      (done.0, record p { backoff = second; backend = done.1 })

  unfoldable pub poll_queue : List Answer → Poller → Run (Unit {0}) (Unit {0}) × Poller
  poll_queue [] p = (ok tt, p)
  poll_queue (a ∷ answers) p = elim (poll_round a p).0 [
    | ok u ↦ poll_queue answers (poll_round a p).1
    | err e ↦ (err e, (poll_round a p).1)
    | panic ↦ (panic, (poll_round a p).1)
    | no_fuel ↦ (no_fuel, (poll_round a p).1)
  ]

-- Every sleep is positive and at most 16 seconds.
abbrev pub AllShort : List ℕ → Type 0
AllShort [] = Unit
AllShort (t ∷ ts) = (0 < t) × (t ≤ 16 * second) × AllShort ts

-- The back-off is 1, 2, 4, 8 or 16 seconds.
abbrev pub IsBackoff : ℕ → Type 0
IsBackoff b =
    (b ≡ second) ⊎ ((b ≡ 2 * second) ⊎ ((b ≡ 4 * second) ⊎ ((b ≡ 8 * second) ⊎ (b ≡ 16 * second))))

-- The back-off is one of these, and so far every sleep was short.
abbrev pub IsPaced : Poller → Type 0
IsPaced p = IsBackoff p.backoff × AllShort p.slept
