-- ===== src/Bench/Runner/Slug.antt =====
-- The names that benchmarker/worker/cmd/runner/main.go makes of a target.
use Prim.Native.Char.{Char, code}
use Prim.Native.String.{String, ◌++◌ as str_append}
use text.Mathlib.TextLemmas.{append_cancel_left, cons-append, nil-append}
use snake_42tokyo_tuning.Base.{
  Bool, true, false, ◌||◌, ◌≡◌, ◌≢◌, refl, ap, sym, ◌∙◌, inl, inr, Bool-cases, ◌==◌, arith,
  if◌then◌else◌,
}
use snake_42tokyo_tuning.Paths.Elements.{IsName, free, no_slash}
use snake_42tokyo_tuning.Paths.Joined.{join_path-name}
use snake_42tokyo_tuning.Paths.Names.{first_code, first_code-append, free-append, prefixed-IsName}
use snake_42tokyo_tuning.Bench.LoadTest.{json_name, score_path}
use snake_42tokyo_tuning.Bench.Runner.{slug_char, slug, run_name}

-- None of the characters that the replacer takes away.
abbrev pub IsSafe : String → Type 0
IsSafe s =
    (free b':' s ≡ true) × (free b'/' s ≡ true) × (free b'\\' s ≡ true) × (free b' ' s ≡ true)

append-IsSafe : (a b : String) → IsSafe a → IsSafe b → IsSafe (str_append a b)
append-IsSafe a b h g = (
  free-append b':' a b h.0 g.0,
  free-append b'/' a b h.1 g.1,
  free-append b'\\' a b h.2 g.2,
  free-append b' ' a b h.3 g.3,
)

slug_char-IsSafe : (c : Char) → IsSafe (slug_char c)
unfolding slug_char
slug_char-IsSafe c = elim (Bool-cases (code c == b':' || (code c == b'/' || code c == b'\\'))) [
  | inl replaced ↦ rw (slug_char, replaced) (refl, refl, refl, refl)
  | inr kept ↦ elim (Bool-cases (code c == b' ')) [
    | inl space ↦ rw (slug_char, kept, space) (refl, refl, refl, refl)
    | inr other ↦
        rw (slug_char, kept, other) (ground arith, ground arith, ground arith, ground arith)
  ]
]

safe : (s : String) → IsSafe (slug s)
unfolding slug
safe String.[] = (refl, refl, refl, refl)
safe (String.◌∷◌ c s) = append-IsSafe (slug_char c) (slug s) (slug_char-IsSafe c) (safe s)

-- The first character is none of these, nor are the others.
passed : (test rest : Bool) → (if test then false else rest) ≡ true → (test ≡ false) × (rest ≡ true)
passed true rest h = cc
passed false rest h = (refl, h)

kept_char : (c : Char) (s : String) → IsSafe (String.◌∷◌ c s) → slug_char c ≡ String.◌∷◌ c ""
unfolding slug_char
kept_char c s h =
    rw
      (
        slug_char,
        (passed (code c == b':') (free b':' s) h.0).0,
        (passed (code c == b'/') (free b'/' s) h.1).0,
        (passed (code c == b'\\') (free b'\\' s) h.2).0,
        (passed (code c == b' ') (free b' ' s) h.3).0,
      )
      refl

IsSafe-tail : (c : Char) (s : String) → IsSafe (String.◌∷◌ c s) → IsSafe s
IsSafe-tail c s h = ((passed _ _ h.0).1, (passed _ _ h.1).1, (passed _ _ h.2).1, (passed _ _ h.3).1)

unchanged : (s : String) → IsSafe s → slug s ≡ s
unfolding slug
unchanged String.[] h = refl
unchanged (String.◌∷◌ c s) h =
    rw (slug, kept_char c s h, unchanged s (IsSafe-tail c s h), cons-append c "" s, nil-append s)
      refl

-- The part of a target that goes into the names of files holds no colon, no slash, no backslash and no
-- space; and a target without these is taken as it is.
pub slug-IsSafe : (s : String) → IsSafe (slug s) × (IsSafe s → slug s ≡ s)
slug-IsSafe s = (safe s, unchanged s)

scores-IsName : IsName "scores"
scores-IsName = record { whole = refl; filled = refl; not_here = refl; not_up = refl }

-- A file of a name without a slash stands under /app/scores.
score_path-eq :
    (p name : String)
    → first_code p ≢ 0
    → first_code p ≢ b'.'
    → no_slash p ≡ true
    → no_slash name ≡ true
    → score_path p name ≡ str_append "/app/scores/" (json_name p name)
unfolding score_path json_name
score_path-eq p name nonempty undotted p_plain plain =
    join_path-name "scores" scores-IsName (json_name p name)
      (prefixed-IsName p _ nonempty undotted p_plain (free-append b'/' name ".json" plain refl))

different :
    (p q name : String)
    → score_path p name ≡ str_append "/app/scores/" (json_name p name)
    → score_path q name ≡ str_append "/app/scores/" (json_name q name)
    → first_code p ≢ 0
    → first_code q ≢ 0
    → first_code p ≢ first_code q
    → score_path p name ≢ score_path q name
unfolding json_name
different p q name left right p_filled q_filled ne = λ e. ne (
    sym (first_code-append p _ p_filled)
    ∙ (ap first_code (append_cancel_left "/app/scores/" _ _ (sym left ∙ (e ∙ right)))
        ∙ first_code-append q _ q_filled))

run_name-no_slash : (target ts : String) → no_slash ts ≡ true → no_slash (run_name target ts) ≡ true
unfolding run_name
run_name-no_slash target ts h =
    free-append b'/' (slug target) _ (safe target).1 (free-append b'/' "-" ts refl h)

-- The paths that stand for flags that are not given, for any target: they stand directly under
-- /app/scores, and the final score has a file of its own, which is neither the summary of k6 nor the
-- raw data. The time has no slash.
pub score_path-distinct :
    (target ts : String)
    → no_slash ts ≡ true
    → (score_path "final-" (run_name target ts)
        ≡ str_append "/app/scores/" (json_name "final-" (run_name target ts)))
      × (score_path "raw-data-" (run_name target ts)
          ≡ str_append "/app/scores/" (json_name "raw-data-" (run_name target ts)))
      × (score_path "summary-" (run_name target ts)
          ≡ str_append "/app/scores/" (json_name "summary-" (run_name target ts)))
      × (score_path "final-" (run_name target ts) ≢ score_path "raw-data-" (run_name target ts))
      × (score_path "final-" (run_name target ts) ≢ score_path "summary-" (run_name target ts))
score_path-distinct target ts h =
    let plain = run_name-no_slash target ts h in
    let final =
      score_path-eq "final-" (run_name target ts) (omega arith) (omega arith) refl plain in
    let raw =
      score_path-eq "raw-data-" (run_name target ts) (omega arith) (omega arith) refl plain in
    let summary =
      score_path-eq "summary-" (run_name target ts) (omega arith) (omega arith) refl plain in
    (
      final,
      raw,
      summary,
      different "final-" "raw-data-" (run_name target ts) final raw (omega arith) (omega arith)
          (omega arith),
      different "final-" "summary-" (run_name target ts) final summary (omega arith) (omega arith)
          (omega arith),
    )
