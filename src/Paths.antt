-- ===== src/Paths.antt =====
-- `filepath.Clean`, `Join`, `IsAbs` and `Ext` of Go on a system with slashes, as far as
-- webapp/backend/internal/handler/product.go and benchmarker/worker/ call them.
pub mod Elements
pub mod Dots
pub mod Joined
pub mod Names
use Prim.Native.Char.{Char, code}
use Prim.Native.String.{String, ◌++◌ as str_append}
use text.Mathlib.Text.{◌==◌ as str_eq}
use snake_42tokyo_tuning.Base.{
  Bool, true, false, ◌&&◌, ◌||◌, List, [], ◌∷◌, reverse, ◌==◌, if◌then◌else◌,
}

abbrev pub is_slash : Char → Bool
is_slash c = code c == b'/'

abbrev pub is_dot : Char → Bool
is_dot c = code c == b'.'

-- `IsAbs`
unfoldable pub is_abs : String → Bool
is_abs String.[] = false
is_abs (String.◌∷◌ c s) = is_slash c

-- A character in front of the first element.
unfoldable pub push : Char → List String → List String
push c [] = String.◌∷◌ c "" ∷ []
push c (e ∷ es) = String.◌∷◌ c e ∷ es

-- The elements between the slashes, the empty ones included.
unfoldable pub split : String → List String
split String.[] = "" ∷ []
split (String.◌∷◌ c s) = if is_slash c then "" ∷ split s else push c (split s)

unfoldable pub join : List String → String
join [] = ""
join (e ∷ []) = e
join (e ∷ (f ∷ es)) = str_append e (str_append "/" (join (f ∷ es)))

-- The element `..`, for the elements that `Clean` has kept, the last one first.
unfoldable pub up : (rooted : Bool) → List String → List String
up rooted [] = if rooted then [] else ".." ∷ []
up rooted (e ∷ out) = if str_eq e ".." then ".." ∷ e ∷ out else out

unfoldable pub step : (rooted : Bool) → List String → String → List String
unfolding up
step rooted out e =
    if str_eq e "" || str_eq e "." then out else if str_eq e ".." then up rooted out else e ∷ out

unfoldable pub walk : (rooted : Bool) → List String → List String → List String
unfolding step
walk rooted out [] = out
walk rooted out (e ∷ es) = walk rooted (step rooted out e) es

unfoldable pub render : (rooted : Bool) → List String → String
unfolding join
render true es = str_append "/" (join es)
render false [] = "."
render false (e ∷ es) = join (e ∷ es)

-- `Clean`
unfoldable pub clean : String → String
unfolding render walk split is_abs
clean path = render (is_abs path) (reverse (walk (is_abs path) [] (split path)))

-- `Join` of a directory that is not empty and one more element.
unfoldable pub join_path : (dir name : String) → String
unfolding clean
join_path dir name = clean (str_append dir (str_append "/" name))

-- `Ext`: what stands from the last dot of the last element on, if `found` stands for what has been
-- seen so far.
unfoldable pub ext_from : (found : String) → String → String
ext_from found String.[] = found
ext_from found (String.◌∷◌ c s) =
    ext_from (if is_slash c then "" else if is_dot c then String.◌∷◌ c s else found) s

unfoldable pub ext : String → String
unfolding ext_from
ext path = ext_from "" path

unfoldable pub begins_with_dot : String → Bool
begins_with_dot String.[] = false
begins_with_dot (String.◌∷◌ c s) = is_dot c

-- `strings.Contains(path, "..")`
unfoldable pub contains_dots : String → Bool
unfolding begins_with_dot
contains_dots String.[] = false
contains_dots (String.◌∷◌ c s) = (is_dot c && begins_with_dot s) || contains_dots s
