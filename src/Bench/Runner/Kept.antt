-- ===== src/Bench/Runner/Kept.antt =====
-- The run of benchmarker/worker/cmd/runner/main.go.
use Prim.Native.String.{String}
use snake_42tokyo_tuning.Base.{ℕ, ◌+◌, Bool, true, false, ◌≡◌, ◌≢◌, ◌⊎◌, Run, ok, err}
use snake_42tokyo_tuning.Base.Dict.{lookup}
use snake_42tokyo_tuning.Bench.Machine.{Host, Machine, mkdir_all, run_script}
use snake_42tokyo_tuning.Bench.Score.{ScoreError}
use snake_42tokyo_tuning.Bench.Score.Scored.{Scored}
use snake_42tokyo_tuning.Bench.Runner.{Flags, target_of, run_name, with_defaults}

module _ {Float : Type 0} (host : Host Float) where
  abbrev pub name_of : Flags → Machine → String
  name_of flags m = run_name (target_of flags) (host.stamp m.asked)

  -- The flags with the paths that stand for those not given.
  abbrev pub full : Flags → Machine → Flags
  full flags m = with_defaults (name_of flags m) flags

  -- The machine as k6 leaves it, and whether the script succeeds.
  abbrev pub scripted : Flags → Machine → Bool × Machine
  scripted flags m =
      run_script host (name_of flags m) (target_of flags) (mkdir_all host (mkdir_all host m).1).1

  pub data Ran (flags : Flags) (m : Machine) : Run ℕ ℕ × Machine → Type 0 where
    unmade :
        {m' : Machine}
        → (host.fault m.asked ≡ true) ⊎ (host.fault (m.asked + 1) ≡ true)
        → m'.files ≡ m.files
        → Ran flags m (err 1, m')
    stopped : (scripted flags m).0 ≡ false → Ran flags m (err 1, (scripted flags m).1)
    finished :
        {m' m'' : Machine} {score : ℕ} {r : Run ScoreError ℕ}
        → (scripted flags m).0 ≡ true
        → Scored host (full flags m).raw (scripted flags m).1 (r, m')
        → (r ≡ ok score) ⊎ ((e : ScoreError) × (r ≡ err e) × (score ≡ 0))
        → ((other : String)
            → (full flags m).final ≢ other
            → lookup other m''.files ≡ lookup other (scripted flags m).1.files)
        → Ran flags m (ok score, m'')
