-- ===== src/Bench/LoadTest.antt =====
-- `runLoadTest` of benchmarker/worker/worker.go.
pub mod Tested
use Prim.Native.String.{String, ◌++◌ as str_append}
use snake_42tokyo_tuning.Base.{ℕ, Bool, true, false, Run, ok, err, panic, no_fuel}
use snake_42tokyo_tuning.Paths.{join_path}
use snake_42tokyo_tuning.Bench.Machine.{Host, Machine, mkdir_all, run_script}
use snake_42tokyo_tuning.Bench.Score.{ScoreError, compute_final_score, write_summary}

pub data LoadError : Type 0 where
  no_directory : LoadError
  k6_failed : LoadError

-- `fmt.Sprintf` of a prefix and a name, with the ending.
unfoldable pub json_name : (prefix name : String) → String
json_name prefix name = str_append prefix (str_append name ".json")

-- The name of a file under /app/scores.
unfoldable pub score_path : (prefix name : String) → String
unfolding json_name
score_path prefix name = join_path "/app/scores" (json_name prefix name)

module _ {Float : Type 0} (host : Host Float) where
  -- What follows the computation of the score. Only the log tells whether the summary is written.
  unfoldable pub summarise :
      (summary_path : String) → Run ScoreError ℕ × Machine → Run LoadError ℕ × Machine
  summarise summary_path (ok score, m) = (ok score, (write_summary host summary_path score m).1)
  summarise summary_path (err e, m) = (ok 0, m)
  summarise summary_path (panic, m) = (panic, m)
  summarise summary_path (no_fuel, m) = (no_fuel, m)

  unfoldable pub after_script : (name : String) → Bool × Machine → Run LoadError ℕ × Machine
  unfolding summarise
  after_script name (false, m) = (err k6_failed, m)
  after_script name (true, m) =
      summarise (score_path "summary-" name)
        (compute_final_score host (score_path "raw-data-" name) m)

  unfoldable pub after_mkdir : (target_ip ts : String) → Bool × Machine → Run LoadError ℕ × Machine
  unfolding after_script
  after_mkdir target_ip ts (false, m) = (err no_directory, m)
  after_mkdir target_ip ts (true, m) =
      after_script (str_append target_ip ts) (run_script host (str_append target_ip ts) target_ip m)

  unfoldable pub run_load_test : (target_ip : String) → Machine → Run LoadError ℕ × Machine
  unfolding after_mkdir
  run_load_test target_ip m = after_mkdir target_ip (host.stamp m.asked) (mkdir_all host m)
