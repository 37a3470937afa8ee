-- ===== src/Bench/Score/Scored.antt =====
-- What `ComputeFinalScoreFromK6` of benchmarker/worker/score/calcScore.go computes.
use Prim.Native.String.{String}
use text.Mathlib.Text.{◌==◌ as str_eq}
use text.Mathlib.TextEquality.{eq_iff}
use snake_42tokyo_tuning.Base.{
  ℕ, ◌+◌, true, false, none, some, ◌≡◌, ◌≢◌, refl, ◌⊎◌, inl, inr, Bool-cases, Option-cases, Run, ok,
  err,
}
use snake_42tokyo_tuning.Base.Dict.{Dict, lookup, lookup-insert}
use snake_42tokyo_tuning.Bench.Machine.{
  Metric, Host, Machine, next, open_file, read_all, after_fault, write_file,
}
use snake_42tokyo_tuning.Bench.Score.{
  ScoreError, not_opened, not_read, not_parsed, get, score_of, parsed, opened, compute_final_score,
}

pub str_ne : (s t : String) → s ≢ t → str_eq s t ≡ false
str_ne s t different = elim (Bool-cases (str_eq s t)) [
  | inl same ↦ absurd (different ((eq_iff s t).0 same))
  | inr e ↦ e
]

module _ {Float : Type 0} (host : Host Float) where
  -- What k6 has counted under a name; 0 for a metric that is missing or has no count.
  pub data Counted (metrics : Dict (Metric Float)) (name : String) : Float → Type 0 where
    counted :
        {n : Float} (metric : Metric Float)
        → lookup name metrics ≡ some metric
        → lookup "count" metric.values ≡ some n
        → Counted metrics name n
    no_count :
        (metric : Metric Float)
        → lookup name metrics ≡ some metric
        → lookup "count" metric.values ≡ none
        → Counted metrics name host.zero
    no_metric : lookup name metrics ≡ none → Counted metrics name host.zero

  get-Counted :
      (metrics : Dict (Metric Float)) (name : String) → Counted metrics name (get host metrics name)
  unfolding get
  get-Counted metrics name = elim (Option-cases (lookup name metrics)) [
    | inl missing ↦ rw (get, missing) (no_metric missing)
    | inr (metric, there) ↦ elim (Option-cases (lookup "count" metric.values)) [
      | inl empty ↦ rw (get, there, empty) (no_count metric there empty)
      | inr (n, count) ↦ rw (get, there, count) (counted metric there count)
    ]
  ]

  -- The outcomes for a file.
  pub data Scored (raw_path : String) (m : Machine) : Run ScoreError ℕ × Machine → Type 0 where
    scored :
        {m' : Machine} (text : String) (metrics : Dict (Metric Float)) (users robots : Float)
        → m'.files ≡ m.files
        → lookup raw_path m.files ≡ some text
        → host.unmarshal text ≡ some metrics
        → Counted metrics "bench_uj_success_count" users
        → Counted metrics "bench_robot_success_count" robots
        → Scored raw_path m (ok (host.to_int (host.add users robots)), m')
    unopened :
        {m' : Machine}
        → m'.files ≡ m.files
        → (host.fault m.asked ≡ true) ⊎ (lookup raw_path m.files ≡ none)
        → Scored raw_path m (err not_opened, m')
    unread :
        {m' : Machine} (text : String)
        → m'.files ≡ m.files
        → lookup raw_path m.files ≡ some text
        → host.fault (m.asked + 1) ≡ true
        → Scored raw_path m (err not_read, m')
    unparsed :
        {m' : Machine} (text : String)
        → m'.files ≡ m.files
        → lookup raw_path m.files ≡ some text
        → host.unmarshal text ≡ none
        → Scored raw_path m (err not_parsed, m')

  read-Scored :
      (raw_path : String) (m : Machine) (text : String)
      → lookup raw_path m.files ≡ some text
      → Scored raw_path m (parsed host (read_all host text (next m)))
  unfolding parsed score_of read_all next
  read-Scored raw_path m text found = elim (Bool-cases (host.fault (m.asked + 1))) [
    | inl failed ↦ rw (read_all, failed) (unread text refl found failed)
    | inr read ↦ elim (Option-cases (host.unmarshal text)) [
      | inl bad ↦ rw (read_all, read, parsed, bad) (unparsed text refl found bad)
      | inr (metrics, good) ↦
          rw (read_all, read, parsed, good)
            (scored text metrics _ _ refl found good (get-Counted metrics "bench_uj_success_count")
              (get-Counted metrics "bench_robot_success_count"))
    ]
  ]

  -- If `ComputeFinalScoreFromK6` gives a score, then the file parses to metrics, and the score is the
  -- rounded sum of the counts of bench_uj_success_count and bench_robot_success_count, where a metric
  -- that is missing or has no count stands for 0. It fails with an error of its own if the file is
  -- missing or cannot be opened, if it cannot be read, and if it does not parse, and else never. No file
  -- changes.
  pub compute_final_score-Scored :
      (raw_path : String) (m : Machine) → Scored raw_path m (compute_final_score host raw_path m)
  unfolding compute_final_score opened open_file
  compute_final_score-Scored raw_path m = elim (Bool-cases (host.fault m.asked)) [
    | inl failed ↦ rw (open_file, failed) (unopened refl (inl failed))
    | inr there ↦ elim (Option-cases (lookup raw_path m.files)) [
      | inl missing ↦ rw (open_file, there, missing) (unopened refl (inr missing))
      | inr (text, found) ↦ rw (open_file, there, found) (read-Scored raw_path m text found)
    ]
  ]

  pub compute_final_score-files :
      (raw_path : String) (m : Machine) → (compute_final_score host raw_path m).1.files ≡ m.files
  compute_final_score-files raw_path m = files_of (compute_final_score-Scored raw_path m)
    where
      files_of : {r : Run ScoreError ℕ × Machine} → Scored raw_path m r → r.1.files ≡ m.files
      files_of (scored _ _ _ _ same _ _ _ _) = same
      files_of (unopened same _) = same
      files_of (unread _ same _ _) = same
      files_of (unparsed _ same _ _) = same

  -- A writing, also one that fails, leaves the other files.
  pub write_file-keeps :
      (path text other : String) (m : Machine)
      → path ≢ other
      → lookup other (write_file host path text m).1.files ≡ lookup other m.files
  unfolding write_file after_fault next
  write_file-keeps path text other m h = elim (Bool-cases (host.fault m.asked)) [
    | inl failed ↦ elim (Option-cases (host.torn m.asked)) [
      | inl whole ↦ rw (write_file, failed, after_fault, whole) refl
      | inr (rest, e) ↦
          rw
            (
              write_file,
              failed,
              after_fault,
              e,
              lookup-insert path other rest m.files,
              str_ne path other h,
            )
            refl
    ]
    | inr written ↦
        rw (write_file, written, lookup-insert path other text m.files, str_ne path other h) refl
  ]
