-- ===== src/Paths/Joined.antt =====
-- `filepath.Join` of a directory below /app and one more element, as
-- webapp/backend/internal/handler/product.go and benchmarker/worker/ call it.
use Prim.Native.String.{String, ◌++◌ as str_append}
use text.Mathlib.Text.{◌==◌ as str_eq}
use text.Mathlib.TextEquality.{eq_iff}
use text.Mathlib.TextLemmas.{cons-append, append_assoc as str_append_assoc}
use snake_42tokyo_tuning.Base.{
  Bool, true, false, List, [], ◌∷◌, reverse, ◌≡◌, refl, subst, sym, ap, ◌∙◌, inl, inr, Bool-cases,
  if◌then◌else◌,
}
use snake_42tokyo_tuning.Paths.{
  is_abs, push, split, join, step, walk, render, clean, join_path, contains_dots,
}
use snake_42tokyo_tuning.Paths.Elements.{
  IsName, AllNames, AllKept, split-append_slash, split-name, split-join, split-AllWhole, step-name,
  walk-AllKept, reverse-walk, reverse-AllKept,
}
use snake_42tokyo_tuning.Paths.Dots.{AllKept-AllNames}

abbrev pub directory : (dir : String) → String
directory dir = str_append "/app/" dir

-- Where a file of a name stands below the directory; `.` is the directory itself.
abbrev pub below : (dir name : String) → String
below dir name =
    if str_eq name "."
    then directory dir
    else str_append (str_append "/app/" (str_append dir "/")) name

abs_kept : (given : String) → is_abs given ≡ true → is_abs (clean given) ≡ true
unfolding clean is_abs render
abs_kept given h = rw (clean, h, cons-append _ "" _) refl

clean-eq :
    (given : String) {b : Bool}
    → is_abs given ≡ b
    → clean given ≡ render b (reverse (walk b [] (split given)))
unfolding clean
clean-eq given h = rw (clean, h) refl

-- The text of a path is that of its elements.
regroup :
    (dir name : String)
    → str_append "/" (str_append "app" (str_append "/" (str_append dir (str_append "/" name))))
      ≡ str_append (str_append "/app/" (str_append dir "/")) name
regroup dir name =
    sym (str_append_assoc "/" "app" _)
    ∙ (sym (str_append_assoc "/app" "/" _)
        ∙ (sym (ap (str_append "/app/") (str_append_assoc dir "/" name))
            ∙ sym (str_append_assoc "/app/" (str_append dir "/") name)))

module _ (dir : String) (plain : IsName dir) where
  rooted : (s : String) → is_abs (str_append (directory dir) s) ≡ true
  unfolding is_abs
  rooted s = rw (str_append_assoc "/app/" dir s, cons-append _ "app/" (str_append dir s)) refl

  split-directory : split (directory dir) ≡ "" ∷ "app" ∷ dir ∷ []
  unfolding split push
  split-directory =
      ap split (str_append_assoc "/app" "/" dir)
      ∙ (split-append_slash "/app" dir ∙ rw (split-name dir plain.whole) refl)

  join_path-eq :
      (name : String)
      → join_path (directory dir) name
        ≡ render true (reverse (walk true (dir ∷ "app" ∷ []) (split name)))
  unfolding join_path walk
  join_path-eq name =
      clean-eq (str_append (directory dir) (str_append "/" name)) (rooted (str_append "/" name))
      ∙ rw
          (
            split-append_slash (directory dir) name,
            split-directory,
            walk,
            step-name true ("app" ∷ []) dir plain,
          )
          refl

  join_path-names :
      (e : String) (es : List String)
      → AllNames (e ∷ es)
      → join_path (directory dir) (join (e ∷ es))
        ≡ str_append (str_append "/app/" (str_append dir "/")) (join (e ∷ es))
  unfolding render join
  join_path-names e es names =
      rw
        (
          join_path-eq (join (e ∷ es)),
          split-join e es names,
          reverse-walk true (dir ∷ "app" ∷ []) (e ∷ es) names,
        )
        (regroup dir (join (e ∷ es)))

  join_path-here : join_path (directory dir) "." ≡ directory dir
  unfolding render walk step split join push
  join_path-here =
      rw (join_path-eq ".")
        (sym (str_append_assoc "/" "app" _) ∙ sym (str_append_assoc "/app" "/" dir))

  join_path-kept :
      (es : List String)
      → AllKept es
      → contains_dots (render false es) ≡ false
      → join_path (directory dir) (render false es) ≡ below dir (render false es)
  unfolding render
  join_path-kept [] h d = join_path-here
  join_path-kept (e ∷ es) h d = elim (Bool-cases (str_eq (join (e ∷ es)) ".")) [
    | inl here ↦
        subst (λ s. join_path (directory dir) s ≡ below dir s)
          (sym ((eq_iff (join (e ∷ es)) ".").0 here)) join_path-here
    | inr named ↦ rw named (join_path-names e es (AllKept-AllNames e es h d))
  ]

  pub join_path-clean :
      (given : String)
      → is_abs (clean given) ≡ false
      → contains_dots (clean given) ≡ false
      → join_path (directory dir) (clean given) ≡ below dir (clean given)
  join_path-clean given relative no_dots = elim (Bool-cases (is_abs given)) [
    | inl absolute ↦ absurd (cc (abs_kept given absolute))
    | inr h ↦ rw (clean-eq given h) (
        join_path-kept (reverse (walk false [] (split given)))
          (reverse-AllKept _ (walk-AllKept false [] (split given) tt (split-AllWhole given)))
          (rw (clean-eq given h) at no_dots))
  ]

  -- A name without a slash.
  pub join_path-name :
      (name : String)
      → IsName name
      → join_path (directory dir) name ≡ str_append (str_append "/app/" (str_append dir "/")) name
  unfolding join
  join_path-name name h = join_path-names name [] (h, tt)
