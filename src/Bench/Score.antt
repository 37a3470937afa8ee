-- ===== src/Bench/Score.antt =====
-- benchmarker/worker/score/calcScore.go, with the two programs that only print a score:
-- benchmarker/worker/localRunBench.go and benchmarker/worker/cmd/scorefile/calcScoreTest.go.
pub mod Scored
use Prim.Native.String.{String}
use text.Mathlib.Text.{◌==◌ as str_eq}
use snake_42tokyo_tuning.Base.{
  ℕ, Bool, Option, none, some, List, [], ◌∷◌, if◌then◌else◌, Run, ok, err, panic, no_fuel,
}
use snake_42tokyo_tuning.Base.Dict.{Dict, lookup}
use snake_42tokyo_tuning.Bench.Machine.{Metric, Host, Machine, open_file, read_all, write_file}

pub data ScoreError : Type 0 where
  not_opened : ScoreError
  not_read : ScoreError
  not_parsed : ScoreError

abbrev pub uj_count : String
uj_count = "bench_uj_success_count"

abbrev pub robot_count : String
robot_count = "bench_robot_success_count"

module _ {Float : Type 0} (host : Host Float) where
  -- `get` of `ComputeFinalScoreFromK6`
  unfoldable pub get : Dict (Metric Float) → String → Float
  get metrics name = elim (lookup name metrics) [
    | none ↦ host.zero
    | some m ↦ elim (lookup "count" m.values) [ none ↦ host.zero | some c ↦ c ]
  ]

  unfoldable pub score_of : Dict (Metric Float) → ℕ
  unfolding get
  score_of metrics = host.to_int (host.add (get metrics uj_count) (get metrics robot_count))

  unfoldable pub parsed : Option String × Machine → Run ScoreError ℕ × Machine
  unfolding score_of
  parsed (none, m) = (err not_read, m)
  parsed (some raw, m) = elim (host.unmarshal raw) [
    | none ↦ (err not_parsed, m)
    | some metrics ↦ (ok (score_of metrics), m)
  ]

  unfoldable pub opened : Option String × Machine → Run ScoreError ℕ × Machine
  unfolding parsed
  opened (none, m) = (err not_opened, m)
  opened (some text, m) = parsed (read_all host text m)

  -- `ComputeFinalScoreFromK6`
  unfoldable pub compute_final_score : (raw_path : String) → Machine → Run ScoreError ℕ × Machine
  unfolding opened
  compute_final_score raw_path m = opened (open_file host raw_path m)

  -- `WriteSummaryJSON`
  unfoldable pub write_summary : (path : String) → (score : ℕ) → Machine → Bool × Machine
  write_summary path score m = write_file host path (host.marshal_score score) m

  -- The score that is printed; every error ends the program with the status 1.
  unfoldable pub printed : Run ScoreError ℕ × Machine → Run ℕ ℕ × Machine
  printed (ok score, m) = (ok score, m)
  printed (err e, m) = (err 1, m)
  printed (panic, m) = (panic, m)
  printed (no_fuel, m) = (no_fuel, m)

  -- `localTest`: the arguments of the program, its own name first.
  unfoldable pub local_test : (args : List String) → Machine → Run ℕ ℕ × Machine
  unfolding printed compute_final_score
  local_test [] m = (panic, m)
  local_test (name ∷ []) m = (panic, m)
  local_test (name ∷ (path ∷ args)) m = printed (compute_final_score path m)

  -- `main` of calcScoreTest.go, with the flag `f`.
  unfoldable pub score_file : (path : String) → Machine → Run ℕ ℕ × Machine
  unfolding printed compute_final_score
  score_file path m = if str_eq path "" then (err 1, m) else printed (compute_final_score path m)
