-- ===== src/Worker/Filter.antt =====
-- The filter of `isDuplicateOrSkip` in benchmarker/worker/lock.go, and how a literal of OData is read.
use Prim.Native.Char.{Char, code}
use Prim.Native.String.{String, ◌++◌ as str_append}
use text.Mathlib.Text.{◌==◌ as str_eq}
use text.Mathlib.TextEquality.{eq_iff}
use text.Mathlib.TextLemmas.{cons-append, nil-append}
use snake_42tokyo_tuning.Base.{
  Bool, ◌≡◌, refl, ap, sym, subst, inl, inr, Bool-cases, Option, none, some, ◌==◌, if◌then◌else◌,
}

abbrev pub is_quote : Char → Bool
is_quote c = code c == b'\''

-- `strings.ReplaceAll(s, "'", "''")`
unfoldable pub double_quotes : String → String
double_quotes String.[] = ""
double_quotes (String.◌∷◌ c s) =
    let rest = double_quotes s in
    if is_quote c then String.◌∷◌ c (String.◌∷◌ c rest) else String.◌∷◌ c rest

-- `escapeODataString`
unfoldable pub escape_odata_string : String → String
unfolding double_quotes
escape_odata_string s = if str_eq s "" then s else double_quotes s

-- What follows the team in the filter.
unfoldable pub filter_tail : (hour_ago : String) → String
filter_tail hour_ago =
    str_append "' and (Status eq 'waiting' or Status eq 'running') and UpdatedAt ge datetime'"
      (str_append hour_ago "'")

-- The filter, for the time as it is formatted.
unfoldable pub filter_text : (team_id hour_ago : String) → String
unfolding escape_odata_string filter_tail
filter_text team_id hour_ago =
    str_append "PartitionKey eq '" (str_append (escape_odata_string team_id) (filter_tail hour_ago))

-- A character in front of a literal that has been read.
unfoldable pub with_char : Char → Option (String × String) → Option (String × String)
with_char c none = none
with_char c (some (value, rest)) = some (String.◌∷◌ c value, rest)

-- How OData reads a literal after its opening quote, with what has been read of a quote before: two
-- quotes stand for one, and a single one ends the literal. The answer is the value and the rest.
unfoldable pub read_literal : (pending : Option Char) → String → Option (String × String)
unfolding with_char
read_literal none String.[] = none
read_literal (some q) String.[] = some ("", "")
read_literal none (String.◌∷◌ c s) =
    let quoted = read_literal (some c) s in
    let plain = with_char c (read_literal none s) in if is_quote c then quoted else plain
read_literal (some q) (String.◌∷◌ c s) =
    if is_quote c then with_char q (read_literal none s) else some ("", String.◌∷◌ c s)

-- A text in front of a literal that has been read.
with_text : String → Option (String × String) → Option (String × String)
with_text String.[] r = r
with_text (String.◌∷◌ c s) r = with_char c (with_text s r)

with_text-some : (s rest : String) → with_text s (some ("", rest)) ≡ some (s, rest)
unfolding with_text with_char
with_text-some String.[] rest = refl
with_text-some (String.◌∷◌ c s) rest = ap (with_char c) (with_text-some s rest)

read_literal-append :
    (s t : String)
    → read_literal none (str_append (double_quotes s) t) ≡ with_text s (read_literal none t)
unfolding double_quotes read_literal with_text
read_literal-append String.[] t = rw (nil-append t) refl
read_literal-append (String.◌∷◌ c s) t = elim (Bool-cases (is_quote c)) [
  | inl quote ↦
      rw
        (
          double_quotes,
          quote,
          cons-append c (String.◌∷◌ c (double_quotes s)) t,
          cons-append c (double_quotes s) t,
          read_literal,
          quote,
        )
        (ap (with_char c) (read_literal-append s t))
  | inr plain ↦
      rw (double_quotes, plain, cons-append c (double_quotes s) t, read_literal, plain)
        (ap (with_char c) (read_literal-append s t))
]

escape-eq : (s : String) → escape_odata_string s ≡ double_quotes s
unfolding escape_odata_string double_quotes
escape-eq s = elim (Bool-cases (str_eq s "")) [
  | inl empty ↦
      rw (escape_odata_string, empty)
        (subst (λ t. t ≡ double_quotes t) (sym ((eq_iff s "").0 empty)) refl)
  | inr filled ↦ rw (escape_odata_string, filled) refl
]

-- The part of the filter after the literal.
abbrev pub conditions : (hour_ago : String) → String
conditions hour_ago =
    str_append " and (Status eq 'waiting' or Status eq 'running') and UpdatedAt ge datetime'"
      (str_append hour_ago "'")

read_tail :
    (hour_ago : String) → read_literal none (filter_tail hour_ago) ≡ some ("", conditions hour_ago)
unfolding filter_tail read_literal
read_tail hour_ago =
    rw
      (
        cons-append _ " and (Status eq 'waiting' or Status eq 'running') and UpdatedAt ge datetime'"
            (str_append hour_ago "'"),
        cons-append _ "and (Status eq 'waiting' or Status eq 'running') and UpdatedAt ge datetime'"
            (str_append hour_ago "'"),
      )
      refl

-- In the filter of `isDuplicateOrSkip` any team stands for itself: OData reads the literal that follows
-- `PartitionKey eq '` as the team, whatever quotes that holds, and goes on with the conditions on the
-- status and the time.
pub filter_text-reads_team :
    (team_id hour_ago : String)
    → (rest : String) × (filter_text team_id hour_ago ≡ str_append "PartitionKey eq '" rest)
      × (read_literal none rest ≡ some (team_id, conditions hour_ago))
unfolding filter_text
filter_text-reads_team team_id hour_ago = (
  str_append (escape_odata_string team_id) (filter_tail hour_ago),
  refl,
  rw
      (
        escape-eq team_id,
        read_literal-append team_id (filter_tail hour_ago),
        read_tail hour_ago,
        with_text-some team_id (conditions hour_ago),
      )
      refl,
)
