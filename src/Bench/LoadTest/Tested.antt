-- ===== src/Bench/LoadTest/Tested.antt =====
-- What `runLoadTest` of benchmarker/worker/worker.go makes of a run of k6.
use Prim.Native.String.{String, ◌++◌ as str_append}
use snake_42tokyo_tuning.Base.{
  ℕ, Bool, true, false, ◌≡◌, ◌≢◌, refl, ◌∙◌, ap, inl, inr, Bool-cases, Run, ok, err,
}
use snake_42tokyo_tuning.Base.Dict.{lookup}
use snake_42tokyo_tuning.Bench.Machine.{Host, Machine, mkdir_all, run_script}
use snake_42tokyo_tuning.Bench.Score.{ScoreError, compute_final_score, write_summary}
use snake_42tokyo_tuning.Bench.Score.Scored.{
  Scored, scored, unopened, unread, unparsed, compute_final_score-Scored, write_file-keeps,
}
use snake_42tokyo_tuning.Bench.LoadTest.{
  LoadError, no_directory, k6_failed, score_path, summarise, after_script, after_mkdir,
  run_load_test,
}

module _ {Float : Type 0} (host : Host Float) where
  -- What stands in the names of the files of a test that begins on the machine.
  abbrev pub test_name : (target_ip : String) → Machine → String
  test_name target_ip m = str_append target_ip (host.stamp m.asked)

  -- The machine as k6 leaves it, and whether the script succeeds.
  abbrev pub scripted : (target_ip : String) → Machine → Bool × Machine
  scripted target_ip m = run_script host (test_name target_ip m) target_ip (mkdir_all host m).1

  pub data Tested (target_ip : String) (m : Machine) : Run LoadError ℕ × Machine → Type 0 where
    unmade :
        {m' : Machine}
        → host.fault m.asked ≡ true
        → m'.files ≡ m.files
        → Tested target_ip m (err no_directory, m')
    stopped :
        host.fault m.asked ≡ false
        → (scripted target_ip m).0 ≡ false
        → Tested target_ip m (err k6_failed, (scripted target_ip m).1)
    scoreless :
        {m' : Machine} {e : ScoreError}
        → host.fault m.asked ≡ false
        → (scripted target_ip m).0 ≡ true
        → Scored host
            (score_path "raw-data-" (test_name target_ip m))
            (scripted target_ip m).1
            (err e, m')
        → Tested target_ip m (ok 0, m')
    tested :
        {m' m'' : Machine} {score : ℕ}
        → host.fault m.asked ≡ false
        → (scripted target_ip m).0 ≡ true
        → Scored host
            (score_path "raw-data-" (test_name target_ip m))
            (scripted target_ip m).1
            (ok score, m')
        → ((other : String)
            → score_path "summary-" (test_name target_ip m) ≢ other
            → lookup other m''.files ≡ lookup other (scripted target_ip m).1.files)
        → Tested target_ip m (ok score, m'')

  after_script-true :
      (name : String) (r : Bool × Machine)
      → r.0 ≡ true
      → after_script host name r
        ≡ summarise host
            (score_path "summary-" name)
            (compute_final_score host (score_path "raw-data-" name) r.1)
  unfolding after_script
  after_script-true name (true, m) h = refl
  after_script-true name (false, m) h = cc

  after_script-false :
      (name : String) (r : Bool × Machine)
      → r.0 ≡ false
      → after_script host name r ≡ (err k6_failed, r.1)
  unfolding after_script
  after_script-false name (true, m) h = cc
  after_script-false name (false, m) h = refl

  module _ (target_ip : String) (m : Machine) (made : host.fault m.asked ≡ false) where
    summarise-Tested :
        (scripted target_ip m).0 ≡ true
        → {r : Run ScoreError ℕ × Machine}
        → Scored host (score_path "raw-data-" (test_name target_ip m)) (scripted target_ip m).1 r
        → Tested target_ip m (summarise host (score_path "summary-" (test_name target_ip m)) r)
    unfolding summarise write_summary
    summarise-Tested ran (scored {m'} text metrics users robots same found good u r) =
        tested made ran (scored {m' = m'} text metrics users robots same found good u r)
          λ other h. write_file-keeps host _ _ other m' h ∙ ap (lookup other) same
    summarise-Tested ran (unopened same why) = scoreless made ran (unopened same why)
    summarise-Tested ran (unread text same found failed) =
        scoreless made ran (unread text same found failed)
    summarise-Tested ran (unparsed text same found bad) =
        scoreless made ran (unparsed text same found bad)

    after_script-Tested :
        Tested target_ip m (after_script host (test_name target_ip m) (scripted target_ip m))
    after_script-Tested = elim (Bool-cases (scripted target_ip m).0) [
      | inl ran ↦
          rw (after_script-true (test_name target_ip m) (scripted target_ip m) ran)
            (summarise-Tested ran (compute_final_score-Scored host _ (scripted target_ip m).1))
      | inr failed ↦
          rw (after_script-false (test_name target_ip m) (scripted target_ip m) failed)
            (stopped made failed)
    ]

  -- `runLoadTest` fails if and only if the directory cannot be made, and then no file changes, or the
  -- script fails, and then the files are as the script leaves them. Otherwise it returns the score that
  -- `ComputeFinalScoreFromK6` gives for the raw file that the script leaves, or 0 where that gives an
  -- error; with a score, every file other than the summary is as the script leaves it.
  pub run_load_test-Tested :
      (target_ip : String) (m : Machine) → Tested target_ip m (run_load_test host target_ip m)
  unfolding run_load_test after_mkdir mkdir_all
  run_load_test-Tested target_ip m = elim (Bool-cases (host.fault m.asked)) [
    | inl failed ↦ rw (mkdir_all, failed) (unmade failed refl)
    | inr made ↦ rw (mkdir_all, made) (after_script-Tested target_ip m made)
  ]
