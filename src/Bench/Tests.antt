-- ===== src/Bench/Tests.antt =====
-- A load test of one target, with whole numbers for the counts.
use Prim.Native.String.{String}
use text.Mathlib.Text.{◌==◌ as str_eq}
use snake_42tokyo_tuning.Base.{
  ℕ, ◌+◌, true, false, ◌≡◌, refl, none, some, [], ◌∷◌, ok, err, if◌then◌else◌,
}
use snake_42tokyo_tuning.Base.Dict.{Dict, lookup, insert}
use snake_42tokyo_tuning.Paths.{is_abs, push, split, join, up, step, walk, render, clean, join_path}
use snake_42tokyo_tuning.Bench.Machine.{
  Metric, Host, Machine, next, mkdir_all, run_script, open_file, read_all, write_file,
}
use snake_42tokyo_tuning.Bench.Score.{
  uj_count, robot_count, get, score_of, parsed, opened, compute_final_score, write_summary, printed,
  local_test, score_file,
}
use snake_42tokyo_tuning.Bench.Score.Scored.{Scored, compute_final_score-Scored}
use snake_42tokyo_tuning.Bench.LoadTest.{
  json_name, score_path, summarise, after_script, after_mkdir, run_load_test,
}
use snake_42tokyo_tuning.Bench.LoadTest.Tested.{Tested, run_load_test-Tested}
use snake_42tokyo_tuning.Bench.Runner.{
  Flags, or_default, target_of, slug_char, slug, run_name, with_defaults, conclude, after_run,
  after_second, after_first, main,
}
use snake_42tokyo_tuning.Bench.Runner.Slug.{IsSafe, slug-IsSafe}

abbrev count : ℕ → Metric ℕ
count n = record { values = ("count", n) ∷ ("rate", 9) ∷ [] }

abbrev metrics : Dict (Metric ℕ)
metrics = (uj_count, count 3) ∷ (robot_count, count 4) ∷ ("http_reqs", count 100) ∷ []

abbrev k6_files : Dict String → Dict String
k6_files files = ("/app/scores/raw-data-10.0.0.1-2025.json", "counts") ∷ files

-- Nothing fails; the raw data is that of a worker's test of 10.0.0.1.
abbrev host : Host ℕ
host = record {
  zero = 0;
  add = λ x y. x + y;
  to_int = λ x. x;
  unmarshal = λ text. if str_eq text "counts" then some metrics else none;
  marshal_score = λ n. "score";
  run_k6 = λ name target files. (true, k6_files files);
  fault = λ n. false;
  torn = λ n. none;
  stamp = λ n. "-2025";
}

abbrev fresh : Machine
fresh = record { files = []; asked = 0 }

program : Unit {0}
unfolding get score_of parsed opened compute_final_score write_summary printed local_test score_file
    json_name score_path summarise after_script after_mkdir run_load_test next mkdir_all run_script
    open_file read_all write_file lookup insert is_abs push split join up step walk render clean
    join_path or_default target_of slug_char slug run_name with_defaults conclude after_run
    after_second after_first main
program = tt

test_score : (run_load_test host "10.0.0.1" fresh).0 ≡ ok 7
unfolding program
test_score = refl

test_slug : slug "http://a b:8080\\x" ≡ "http---a_b-8080-x"
unfolding program
test_slug = refl

test_clean : clean "/a//b/./c/../../d/" ≡ "/a/d"
unfolding program
test_clean = refl

test_clean_relative : clean "a/../../b/.." ≡ ".."
unfolding program
test_clean_relative = refl

test_score_file : (score_file host "" fresh).0 ≡ err 1
unfolding program
test_score_file = refl

test_local_test : (local_test host ("worker" ∷ "x" ∷ []) fresh).0 ≡ err 1
unfolding program
test_local_test = refl

abbrev flags : Flags
flags = record { target_ip = ""; summary = ""; raw = ""; final = ""; env_target = "10.0.0.1" }

test_main : (main host flags fresh).0 ≡ ok 0
unfolding program
test_main = refl

compute_final_score-Scored_example :
    Scored host "/raw"
      (record { files = ("/raw", "counts") ∷ []; asked = 0 })
      (compute_final_score host "/raw" (record { files = ("/raw", "counts") ∷ []; asked = 0 }))
compute_final_score-Scored_example =
    compute_final_score-Scored host "/raw" (record { files = ("/raw", "counts") ∷ []; asked = 0 })

run_load_test-Tested_example : Tested host "10.0.0.1" fresh (run_load_test host "10.0.0.1" fresh)
run_load_test-Tested_example = run_load_test-Tested host "10.0.0.1" fresh

test_slug_kept :
    IsSafe (slug "localhost:8080")
    × (IsSafe "localhost:8080" → slug "localhost:8080" ≡ "localhost:8080")
test_slug_kept = slug-IsSafe "localhost:8080"

-- The same host at a time for which k6 leaves the raw data of the runner.
abbrev run_host : Host ℕ
run_host = record host { stamp = λ n. "2025" }

abbrev left_machine : Machine
left_machine = (main run_host flags fresh).1
