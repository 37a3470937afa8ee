-- ===== src/Bench/Runner.antt =====
-- `main` of benchmarker/worker/cmd/runner/main.go.
pub mod Slug
pub mod Kept
pub mod Apart
use Prim.Native.Char.{Char, code}
use Prim.Native.String.{String, ◌++◌ as str_append}
use text.Mathlib.Text.{◌==◌ as str_eq}
use snake_42tokyo_tuning.Base.{
  ℕ, Bool, true, false, ◌||◌, ◌==◌, if◌then◌else◌, Run, ok, err, panic, no_fuel,
}
use snake_42tokyo_tuning.Bench.Machine.{Host, Machine, mkdir_all, run_script}
use snake_42tokyo_tuning.Bench.Score.{ScoreError, compute_final_score, write_summary}
use snake_42tokyo_tuning.Bench.LoadTest.{score_path}

-- The flags, "" for one that is not given, and the variable TARGET_IP.
pub record Flags : Type 0 where
  pub target_ip : String
  pub summary : String
  pub raw : String
  pub final : String
  pub env_target : String

unfoldable pub or_default : (given otherwise : String) → String
or_default given otherwise = if str_eq given "" then otherwise else given

-- The flag, else the variable, else the default.
unfoldable pub target_of : Flags → String
unfolding or_default
target_of flags = or_default (or_default flags.target_ip flags.env_target) "127.0.0.1"

-- What the replacer puts for a character.
unfoldable pub slug_char : Char → String
slug_char c =
    if code c == b':' || (code c == b'/' || code c == b'\\')
    then "-"
    else if code c == b' '
    then "_"
    else String.◌∷◌ c ""

unfoldable pub slug : String → String
unfolding slug_char
slug String.[] = ""
slug (String.◌∷◌ c s) = str_append (slug_char c) (slug s)

-- The part of the names of the files that tells one run from another.
unfoldable pub run_name : (target ts : String) → String
unfolding slug
run_name target ts = str_append (slug target) (str_append "-" ts)

unfoldable pub with_defaults : (name : String) → Flags → Flags
with_defaults name flags = record flags {
  summary = or_default flags.summary (score_path "summary-" name);
  raw = or_default flags.raw (score_path "raw-data-" name);
  final = or_default flags.final (score_path "final-" name);
}

module _ {Float : Type 0} (host : Host Float) where
  -- The score, and what is printed.
  unfoldable pub conclude : (final : String) → Run ScoreError ℕ × Machine → Run ℕ ℕ × Machine
  conclude final (ok score, m) = (ok score, (write_summary host final score m).1)
  conclude final (err e, m) = (ok 0, (write_summary host final 0 m).1)
  conclude final (panic, m) = (panic, m)
  conclude final (no_fuel, m) = (no_fuel, m)

  -- `log.Fatalf` ends the program with the status 1.
  unfoldable pub after_run : Flags → Bool × Machine → Run ℕ ℕ × Machine
  unfolding conclude
  after_run flags (false, m) = (err 1, m)
  after_run flags (true, m) = conclude flags.final (compute_final_score host flags.raw m)

  unfoldable pub after_second : (name target : String) → Flags → Bool × Machine → Run ℕ ℕ × Machine
  unfolding after_run
  after_second name target flags (false, m) = (err 1, m)
  after_second name target flags (true, m) = after_run flags (run_script host name target m)

  unfoldable pub after_first : (name target : String) → Flags → Bool × Machine → Run ℕ ℕ × Machine
  unfolding after_second
  after_first name target flags (false, m) = (err 1, m)
  after_first name target flags (true, m) = after_second name target flags (mkdir_all host m)

  unfoldable pub main : Flags → Machine → Run ℕ ℕ × Machine
  unfolding after_first run_name target_of with_defaults
  main flags m =
      let name = run_name (target_of flags) (host.stamp m.asked) in
      after_first name (target_of flags) (with_defaults name flags) (mkdir_all host m)
