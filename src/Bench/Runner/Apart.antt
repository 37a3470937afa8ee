-- ===== src/Bench/Runner/Apart.antt =====
-- The final score of benchmarker/worker/cmd/runner/main.go and the files of k6.
use Prim.Native.String.{String, ◌++◌ as str_append}
use snake_42tokyo_tuning.Base.{ℕ, ◌≡◌, ◌≢◌, Run, ok, err, panic, no_fuel}
use snake_42tokyo_tuning.Base.Dict.{lookup}
use snake_42tokyo_tuning.Bench.Machine.{Host, Machine}
use snake_42tokyo_tuning.Bench.Runner.{Flags}
use snake_42tokyo_tuning.Bench.Runner.Kept.{full, scripted}

-- A file directly under /app/scores.
abbrev pub in_scores : (prefix name : String) → String
in_scores prefix name = str_append "/app/scores/" (str_append prefix (str_append name ".json"))

module _ {Float : Type 0} (host : Host Float) (flags : Flags) (m : Machine) where
  -- A run that ends well leaves every file but the final one as the script has left it.
  abbrev Left : Run ℕ ℕ × Machine → Type 0
  Left (ok score, m') =
      (other : String)
      → (full host flags m).final ≢ other
      → lookup other m'.files ≡ lookup other (scripted host flags m).1.files
  Left (err e, m') = Unit
  Left (panic, m') = Unit
  Left (no_fuel, m') = Unit
