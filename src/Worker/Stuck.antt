-- ===== src/Worker/Stuck.antt =====
-- Two requests of one team that are received before either has been checked: what `processMessage` of
-- benchmarker/worker/queue.go does with them from then on.
use Prim.Native.String.{String}
use text.Mathlib.Text.{◌==◌ as str_eq}
use text.Mathlib.TextPositions.{eq_refl}
use mathlib.Core.List.{Memᴰ}
use mathlib.Core.List.Memᴰ.{head, tail}
use snake_42tokyo_tuning.Base.{
  ℕ, ◌+◌, ◌≤◌, ◌≡◌, refl, sym, ◌∙◌, subst, Bool, true, false, ◌&&◌, Option, List, [], ◌∷◌,
  Bool-cases, inl, inr, ok, arith,
}
use snake_42tokyo_tuning.Worker.Flow.{
  QueueMessage, request, RequestEntity, Dequeued, Backend, World, hour, upsert, is_active,
  has_other, update_request_status, is_duplicate_or_skip, unless_skipped, mark_running,
  process_message,
}

-- A request of the task is in the table as running, from a reading of the clock.
abbrev pub Running : World → QueueMessage → Backend → Type 0
Running world task s =
    (n : ℕ) × Memᴰ
      (record {
        partition_key = task.team_id;
        row_key = task.load_test_id;
        status = "running";
        updated_at = world.clock n;
      })
      s.requests

-- The state after deliveries of the two messages in some order: `true` is the first message.
unfoldable pub deliver_all : World → (a b : Dequeued) → List Bool → Backend → Backend
deliver_all world a b [] s = s
deliver_all world a b (true ∷ turns) s = deliver_all world a b turns (process_message world a s).1
deliver_all world a b (false ∷ turns) s = deliver_all world a b turns (process_message world b s).1

-- A message of the queue with a request.
abbrev pub message : Option ℕ → QueueMessage → Dequeued
message handle task = record { handle = handle; text = request task }

pub upsert-new : (e : RequestEntity) (rs : List RequestEntity) → Memᴰ e (upsert e rs)
unfolding upsert
upsert-new e [] = head refl
upsert-new e (r ∷ rs) =
    elim (Bool-cases (str_eq r.partition_key e.partition_key && str_eq r.row_key e.row_key)) [
      | inl same ↦ rw same (head refl)
      | inr differs ↦ rw differs (tail (upsert-new e rs))
    ]

-- A row of another load test stays.
upsert-kept :
    (e x : RequestEntity) (rs : List RequestEntity)
    → str_eq x.row_key e.row_key ≡ false
    → Memᴰ x rs
    → Memᴰ x (upsert e rs)
unfolding upsert
upsert-kept e x [] h m = elim m [ ]
upsert-kept e x (r ∷ rs) h m =
    elim (Bool-cases (str_eq r.partition_key e.partition_key && str_eq r.row_key e.row_key)) [
      | inl same ↦ rw same (after m same)
      | inr differs ↦ rw differs (behind (upsert-kept e x rs h) m)
    ]
  where
    after :
        Memᴰ x (r ∷ rs)
        → (str_eq r.partition_key e.partition_key && str_eq r.row_key e.row_key) ≡ true
        → Memᴰ x (e ∷ rs)
    after (head p) same = absurd (
        ground (arith, same, subst (λ (y : RequestEntity). str_eq y.row_key e.row_key ≡ false) p h))
    after (tail q) same = tail q

    behind : (Memᴰ x rs → Memᴰ x (upsert e rs)) → Memᴰ x (r ∷ rs) → Memᴰ x (r ∷ upsert e rs)
    behind k (head p) = head p
    behind k (tail q) = tail (k q)

has_other-Mem :
    (team row_key : String) (now : ℕ) (x : RequestEntity) (es : List RequestEntity)
    → is_active team now x ≡ true
    → str_eq x.row_key row_key ≡ false
    → Memᴰ x es
    → has_other team row_key now es ≡ true
unfolding has_other
has_other-Mem team row_key now x (e ∷ es) active differs (head p) =
    rw
      (
        subst (λ y. is_active team now y ≡ true) p active,
        subst (λ (y : RequestEntity). str_eq y.row_key row_key ≡ false) p differs,
      )
      refl
has_other-Mem team row_key now x (e ∷ es) active differs (tail q) =
    ground (arith, has_other-Mem team row_key now x es active differs q)
has_other-Mem team row_key now x [] active differs m = elim m [ ]

module _ (world : World) (calm : (n : ℕ) → world.fault n ≡ false)
    (soon : (n m : ℕ) → world.clock n ≤ world.clock m + hour) where
  running-is_active :
      (team row_key : String) (n m : ℕ)
      → is_active team (world.clock m) (record {
        partition_key = team;
        row_key = row_key;
        status = "running";
        updated_at = world.clock n;
      })
        ≡ true
  unfolding is_active
  running-is_active team row_key n m = rw (eq_refl team) (ground (arith, soon m n))

  marked :
      (task : QueueMessage) (s : Backend)
      → mark_running world task s ≡ record s {
        requests =
            upsert
              (record {
                partition_key = task.team_id;
                row_key = task.load_test_id;
                status = "running";
                updated_at = world.clock s.asked;
              })
              s.requests;
        asked = s.asked + 1;
      }
  unfolding mark_running update_request_status
  marked task s = rw (mark_running, update_request_status, calm s.asked) refl

  -- One of two tasks is delivered while both are running.
  process-Running :
      (task other : QueueMessage) (handle : Option ℕ) (s : Backend)
      → other.team_id ≡ task.team_id
      → str_eq other.load_test_id task.load_test_id ≡ false
      → Running world other s
      → (s' : Backend) × (process_message world (message handle task) s ≡ (ok tt, s'))
        × Running world task s'
        × Running world other s'
        × (s'.queue ≡ s.queue)
        × (s'.posted ≡ s.posted)
  unfolding process_message is_duplicate_or_skip unless_skipped
  process-Running task other handle s team differs (n, m) = (
    record s { requests = upsert fresh s.requests; asked = s.asked + 1 + 1 },
    rw (marked task s) (rw (calm (s.asked + 1), duplicate) refl),
    (s.asked, upsert-new fresh s.requests),
    (n, upsert-kept fresh old s.requests differs m),
    refl,
    refl,
  )
    where
      fresh : RequestEntity
      fresh = record {
        partition_key = task.team_id;
        row_key = task.load_test_id;
        status = "running";
        updated_at = world.clock s.asked;
      }

      old : RequestEntity
      old = record {
        partition_key = other.team_id;
        row_key = other.load_test_id;
        status = "running";
        updated_at = world.clock n;
      }

      duplicate :
          has_other task.team_id task.load_test_id
            (world.clock (s.asked + 1))
            (upsert fresh s.requests)
          ≡ true
      duplicate =
          has_other-Mem task.team_id task.load_test_id (world.clock (s.asked + 1)) old _
            (subst (λ team. is_active team (world.clock (s.asked + 1)) old ≡ true) team
              (running-is_active other.team_id other.load_test_id n (s.asked + 1)))
            differs (upsert-kept fresh old s.requests differs m)

  -- Two requests of one team that are both marked as running block one another, while no call fails
  -- and the readings of the clock lie within an hour: in whatever order and however often their
  -- messages are delivered, no score is posted, the queue keeps both messages, and both requests stay
  -- marked as running.
  pub deliver_all-blocked :
      (a b : QueueMessage) (ha hb : Option ℕ) (turns : List Bool) (s : Backend)
      → a.team_id ≡ b.team_id
      → str_eq a.load_test_id b.load_test_id ≡ false
      → str_eq b.load_test_id a.load_test_id ≡ false
      → Running world a s
      → Running world b s
      → Running world a (deliver_all world (message ha a) (message hb b) turns s)
        × Running world b (deliver_all world (message ha a) (message hb b) turns s)
        × ((deliver_all world (message ha a) (message hb b) turns s).queue ≡ s.queue)
        × ((deliver_all world (message ha a) (message hb b) turns s).posted ≡ s.posted)
  unfolding deliver_all
  deliver_all-blocked a b ha hb [] s team ab ba ra rb = (ra, rb, refl, refl)
  deliver_all-blocked a b ha hb (true ∷ turns) s team ab ba ra rb =
      let (s', run, ra', rb', queue, posted) = process-Running a b ha s (sym team) ba rb in
      let (end_a, end_b, q, p) = deliver_all-blocked a b ha hb turns s' team ab ba ra' rb' in
      rw (deliver_all, run) (end_a, end_b, q ∙ queue, p ∙ posted)
  deliver_all-blocked a b ha hb (false ∷ turns) s team ab ba ra rb =
      let (s', run, rb', ra', queue, posted) = process-Running b a hb s team ab ra in
      let (end_a, end_b, q, p) = deliver_all-blocked a b ha hb turns s' team ab ba ra' rb' in
      rw (deliver_all, run) (end_a, end_b, q ∙ queue, p ∙ posted)
