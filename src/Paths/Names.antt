-- ===== src/Paths/Names.antt =====
-- Names of files that begin with a fixed prefix, as benchmarker/worker/ makes them under /app/scores.
use Prim.Native.Char.{code}
use Prim.Native.String.{String, ◌++◌ as str_append}
use text.Mathlib.Text.{◌==◌ as str_eq}
use text.Mathlib.TextEquality.{eq_iff}
use text.Mathlib.TextLemmas.{cons-append, nil-append}
use snake_42tokyo_tuning.Base.{
  ℕ, true, false, ◌≡◌, ◌≢◌, refl, ap, sym, ◌∙◌, inl, inr, Bool-cases, ◌==◌,
}
use snake_42tokyo_tuning.Paths.Elements.{IsName, free, no_slash}

abbrev pub first_code : String → ℕ
first_code String.[] = 0
first_code (String.◌∷◌ c s) = code c

-- The prefix `p`, not empty, shows in the first character.
pub first_code-append :
    (p s : String) → first_code p ≢ 0 → first_code (str_append p s) ≡ first_code p
first_code-append String.[] s h = absurd (h refl)
first_code-append (String.◌∷◌ c p) s h = rw (cons-append c p s) refl

str_eq-false : (s t : String) → first_code s ≢ first_code t → str_eq s t ≡ false
str_eq-false s t h = elim (Bool-cases (str_eq s t)) [
  | inl same ↦ absurd (h (ap first_code ((eq_iff s t).0 same)))
  | inr e ↦ e
]

pub free-append :
    (k : ℕ) (a b : String) → free k a ≡ true → free k b ≡ true → free k (str_append a b) ≡ true
free-append k String.[] b h g = rw (nil-append b) g
free-append k (String.◌∷◌ c a) b h g = elim (Bool-cases (code c == k)) [
  | inl hit ↦ absurd (cc (rw hit at h))
  | inr miss ↦ rw (cons-append c a b, miss) (free-append k a b (rw miss at h) g)
]

-- A text that begins with a prefix and holds no slash is the name of a file.
pub prefixed-IsName :
    (p s : String)
    → first_code p ≢ 0
    → first_code p ≢ b'.'
    → no_slash p ≡ true
    → no_slash s ≡ true
    → IsName (str_append p s)
prefixed-IsName p s nonempty undotted p_plain s_plain =
    let first = first_code-append p s nonempty in
    record {
      whole = free-append b'/' p s p_plain s_plain;
      filled = str_eq-false (str_append p s) "" (λ e. nonempty (sym first ∙ e));
      not_here = str_eq-false (str_append p s) "." (λ e. undotted (sym first ∙ e));
      not_up = str_eq-false (str_append p s) ".." (λ e. undotted (sym first ∙ e));
    }
