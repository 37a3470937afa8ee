-- ===== src/Start/Environment.antt =====
-- The environment variables that the backend and the worker read.
use Prim.Native.Char.{Char, code}
use Prim.Native.String.{String}
use text.Mathlib.Text.{◌==◌ as str_eq}
use snake_42tokyo_tuning.Base.{◌+◌, Bool, true, false, ◌&&◌, ◌||◌, none, some, ◌==◌, if◌then◌else◌}
use snake_42tokyo_tuning.Base.Dict.{Dict, lookup}

-- `os.Getenv`: "" for a variable that is not set.
unfoldable pub getenv : Dict String → String → String
getenv vars name = elim (lookup name vars) [ none ↦ "" | some value ↦ value ]

-- A value, or a default for "".
unfoldable pub getenv_or : Dict String → (name otherwise : String) → String
unfolding getenv
getenv_or vars name otherwise = if str_eq (getenv vars name) "" then otherwise else getenv vars name

-- Does a character fold to a lower-case letter of ASCII? The long s, U+017F, and the sign for Kelvin,
-- U+212A, fold to `s` and `k`.
unfoldable pub folds_to : (c letter : Char) → Bool
folds_to c letter =
    code c == code letter
    || ((code c + 32) == code letter
        || ((code letter == b's' && code c == 383) || (code letter == b'k' && code c == 8490)))

-- `strings.EqualFold`, where the second text has lower-case letters of ASCII only.
unfoldable pub equal_fold : (s letters : String) → Bool
unfolding folds_to
equal_fold String.[] String.[] = true
equal_fold String.[] (String.◌∷◌ d t) = false
equal_fold (String.◌∷◌ c s) String.[] = false
equal_fold (String.◌∷◌ c s) (String.◌∷◌ d t) = folds_to c d && equal_fold s t
