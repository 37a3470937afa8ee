-- ===== src/Bench/Machine.antt =====
-- What benchmarker/worker/ asks of the operating system, of k6 and of the libraries. The script
-- run_k6.sh and the load test that it starts are a parameter.
use Prim.Native.String.{String}
use snake_42tokyo_tuning.Base.{ℕ, ◌+◌, Bool, true, false, Option, none, some, if◌then◌else◌}
use snake_42tokyo_tuning.Base.Dict.{Dict, lookup, insert}

-- `Values` of a metric.
pub record Metric (Float : Type 0) : Type 0 where
  pub values : Dict Float

-- `fault` and `stamp` answer the call of a number: does it fail, and what does `time.Now().Format`
-- say? `torn`: what is in a file whose writing has failed, `none` if it is as before. `to_int` is
-- `int(math.Round(x))`. `run_k6`: whether the script succeeds, for a name and a target, and the files
-- that it leaves.
pub record Host (Float : Type 0) : Type 0 where
  pub zero : Float
  pub add : Float → Float → Float
  pub to_int : Float → ℕ
  pub unmarshal : String → Option (Dict (Metric Float))
  pub marshal_score : ℕ → String
  pub run_k6 : (name target : String) → Dict String → Bool × Dict String
  pub fault : ℕ → Bool
  pub torn : ℕ → Option String
  pub stamp : ℕ → String

pub record Machine : Type 0 where
  pub files : Dict String
  pub asked : ℕ

unfoldable pub next : Machine → Machine
next m = record m { asked = m.asked + 1 }

module _ {Float : Type 0} (host : Host Float) where
  -- `os.MkdirAll`, of which only the success matters here.
  unfoldable pub mkdir_all : Machine → Bool × Machine
  unfolding next
  mkdir_all m = ((if host.fault m.asked then false else true), next m)

  -- `cmd.Run()` for run_k6.sh
  unfoldable pub run_script : (name target : String) → Machine → Bool × Machine
  run_script name target m =
      let done = host.run_k6 name target m.files in
      (done.0, record { files = done.1; asked = m.asked + 1 })

  -- `os.Open`
  unfoldable pub open_file : String → Machine → Option String × Machine
  unfolding next
  open_file path m = ((if host.fault m.asked then none else lookup path m.files), next m)

  -- `io.ReadAll`
  unfoldable pub read_all : (text : String) → Machine → Option String × Machine
  unfolding next
  read_all text m = ((if host.fault m.asked then none else some text), next m)

  unfoldable pub after_fault : (path : String) → Option String → Dict String → Dict String
  after_fault path none files = files
  after_fault path (some text) files = insert path text files

  -- `os.WriteFile`
  unfoldable pub write_file : (path text : String) → Machine → Bool × Machine
  unfolding next after_fault
  write_file path text m =
      if host.fault m.asked
      then (false, next (record m { files = after_fault path (host.torn m.asked) m.files }))
      else (true, next (record m { files = insert path text m.files }))
