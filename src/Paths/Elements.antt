-- ===== src/Paths/Elements.antt =====
-- The elements of paths, as `filepath.Clean` for
-- webapp/backend/internal/handler/product.go takes them apart and joins them.
use Prim.Native.Char.{Char, code}
use Prim.Native.String.{String, ◌++◌ as str_append}
use text.Mathlib.Text.{◌==◌ as str_eq}
use text.Mathlib.TextLemmas.{cons-append, nil-append}
use mathlib.Core.List.{reverse-append}
use snake_42tokyo_tuning.Base.{
  ℕ, Bool, true, false, List, [], ◌∷◌, ◌++◌, reverse, append-nil, append_assoc, ◌==◌, if◌then◌else◌,
  ◌≡◌, refl, sym, ap, inl, inr, Bool-cases,
}
use snake_42tokyo_tuning.Paths.{is_slash, push, split, join, up, step, walk}

-- No character has the code `k`.
abbrev pub free : (k : ℕ) → String → Bool
free k String.[] = true
free k (String.◌∷◌ c s) = if code c == k then false else free k s

abbrev pub no_slash : String → Bool
no_slash s = free b'/' s

push-append :
    (c : Char) (es fs : List String) (e : String) → push c ((e ∷ es) ++ fs) ≡ push c (e ∷ es) ++ fs
unfolding push
push-append c es fs e = refl

-- A text before a slash has its own elements, and at least one.
split_cons : (s : String) → (e : String) × (es : List String) × (split s ≡ e ∷ es)
unfolding split push
split_cons String.[] = ("", [], refl)
split_cons (String.◌∷◌ c s) = elim (Bool-cases (is_slash c)) [
  | inl slash ↦ ("", split s, rw slash refl)
  | inr plain ↦ let (e, es, eq) = split_cons s in (String.◌∷◌ c e, es, rw (plain, eq) refl)
]

split-slash : (s : String) → split (str_append "/" s) ≡ "" ∷ split s
unfolding split
split-slash s = rw (cons-append _ "" s, nil-append s) refl

pub split-append_slash :
    (a s : String) → split (str_append a (str_append "/" s)) ≡ split a ++ split s
unfolding split
split-append_slash String.[] s = rw (nil-append (str_append "/" s)) (split-slash s)
split-append_slash (String.◌∷◌ c a) s =
    let (e, es, eq) = split_cons a in
    elim (Bool-cases (is_slash c)) [
      | inl slash ↦
          rw (cons-append c a (str_append "/" s), split, slash)
            (ap (λ (t : List String). "" ∷ t) (split-append_slash a s))
      | inr plain ↦
          rw
            (
              cons-append c a (str_append "/" s),
              split,
              plain,
              split-append_slash a s,
              eq,
              push-append c es (split s) e,
            )
            refl
    ]

-- A text without a slash is one element.
pub split-name : (e : String) → no_slash e ≡ true → split e ≡ e ∷ []
unfolding split push
split-name String.[] h = refl
split-name (String.◌∷◌ c e) h = elim (Bool-cases (is_slash c)) [
  | inl slash ↦ absurd (cc)
  | inr plain ↦ rw (split, plain, split-name e (rw plain at h)) refl
]

-- An element that `Clean` keeps and that is not `..`.
pub record IsName (e : String) : Type 0 where
  pub whole : no_slash e ≡ true
  pub filled : str_eq e "" ≡ false
  pub not_here : str_eq e "." ≡ false
  pub not_up : str_eq e ".." ≡ false

abbrev pub AllNames : List String → Type 0
AllNames [] = Unit
AllNames (e ∷ es) = IsName e × AllNames es

pub split-join :
    (e : String) (es : List String) → AllNames (e ∷ es) → split (join (e ∷ es)) ≡ e ∷ es
unfolding join
split-join e [] names = split-name e names.0.whole
split-join e (f ∷ es) names =
    rw (split-append_slash e (join (f ∷ es)), split-name e names.0.whole, split-join f es names.1)
      refl

-- Names are walked over one after the other.
pub step-name :
    (rooted : Bool) (out : List String) (e : String) → IsName e → step rooted out e ≡ e ∷ out
unfolding step
step-name rooted out e h = rw (step, h.filled, h.not_here, h.not_up) refl

pub reverse-walk :
    (rooted : Bool) (out es : List String)
    → AllNames es
    → reverse (walk rooted out es) ≡ reverse out ++ es
unfolding walk
reverse-walk rooted out [] names = sym (append-nil (reverse out))
reverse-walk rooted out (e ∷ es) names =
    rw
      (
        walk,
        step-name rooted out e names.0,
        reverse-walk rooted (e ∷ out) es names.1,
        reverse-append (e ∷ []) out,
        append_assoc (reverse out) (e ∷ []) es,
      )
      refl

-- What `Clean` keeps, `..` included.
pub record IsKept (e : String) : Type 0 where
  pub whole : no_slash e ≡ true
  pub filled : str_eq e "" ≡ false
  pub not_here : str_eq e "." ≡ false

abbrev pub AllKept : List String → Type 0
AllKept [] = Unit
AllKept (e ∷ es) = IsKept e × AllKept es

abbrev pub AllWhole : List String → Type 0
AllWhole [] = Unit
AllWhole (e ∷ es) = (no_slash e ≡ true) × AllWhole es

push-AllWhole :
    (c : Char) (es : List String) → is_slash c ≡ false → AllWhole es → AllWhole (push c es)
unfolding push
push-AllWhole c [] plain h = (rw plain refl, tt)
push-AllWhole c (e ∷ es) plain h = (rw plain h.0, h.1)

pub split-AllWhole : (s : String) → AllWhole (split s)
unfolding split
split-AllWhole String.[] = (refl, tt)
split-AllWhole (String.◌∷◌ c s) = elim (Bool-cases (is_slash c)) [
  | inl slash ↦ rw (split, slash) (refl, split-AllWhole s)
  | inr plain ↦ rw (split, plain) (push-AllWhole c (split s) plain (split-AllWhole s))
]

up-AllKept : (rooted : Bool) (out : List String) → AllKept out → AllKept (up rooted out)
unfolding up
up-AllKept true [] h = tt
up-AllKept false [] h = (record { whole = refl; filled = refl; not_here = refl }, tt)
up-AllKept rooted (e ∷ out) h = elim (Bool-cases (str_eq e "..")) [
  | inl above ↦ rw (up, above) (record { whole = refl; filled = refl; not_here = refl }, h)
  | inr name ↦ rw (up, name) h.1
]

step-AllKept :
    (rooted : Bool) (out : List String) (e : String)
    → no_slash e ≡ true
    → AllKept out
    → AllKept (step rooted out e)
unfolding step
step-AllKept rooted out e whole h = elim (Bool-cases (str_eq e "")) [
  | inl empty ↦ rw (step, empty) h
  | inr filled ↦ elim (Bool-cases (str_eq e ".")) [
    | inl here ↦ rw (step, filled, here) h
    | inr not_here ↦ elim (Bool-cases (str_eq e "..")) [
      | inl above ↦ rw (step, filled, not_here, above) (up-AllKept rooted out h)
      | inr name ↦
          rw (step, filled, not_here, name)
            (record { whole = whole; filled = filled; not_here = not_here }, h)
    ]
  ]
]

pub walk-AllKept :
    (rooted : Bool) (out es : List String)
    → AllKept out
    → AllWhole es
    → AllKept (walk rooted out es)
unfolding walk
walk-AllKept rooted out [] h w = h
walk-AllKept rooted out (e ∷ es) h w =
    walk-AllKept rooted (step rooted out e) es (step-AllKept rooted out e w.0 h) w.1

AllKept-append : (es fs : List String) → AllKept es → AllKept fs → AllKept (es ++ fs)
AllKept-append [] fs h k = k
AllKept-append (e ∷ es) fs h k = (h.0, AllKept-append es fs h.1 k)

pub reverse-AllKept : (es : List String) → AllKept es → AllKept (reverse es)
reverse-AllKept [] h = tt
reverse-AllKept (e ∷ es) h =
    rw (reverse-append (e ∷ []) es)
      (AllKept-append (reverse es) (e ∷ []) (reverse-AllKept es h.1) (h.0, tt))
