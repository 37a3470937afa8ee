-- ===== src/Paths/Dots.antt =====
-- What the test for `..` in webapp/backend/internal/handler/product.go says of the elements of a path.
use Prim.Native.String.{String, ◌++◌ as str_append}
use text.Mathlib.Text.{◌==◌ as str_eq}
use text.Mathlib.TextEquality.{eq_iff}
use text.Mathlib.TextLemmas.{cons-append, nil-append}
use snake_42tokyo_tuning.Base.{
  false, ◌&&◌, ◌||◌, List, [], ◌∷◌, ◌≡◌, refl, inl, inr, Bool-cases, arith,
}
use snake_42tokyo_tuning.Paths.{is_dot, join, begins_with_dot, contains_dots}
use snake_42tokyo_tuning.Paths.Elements.{IsName, AllNames, IsKept, AllKept}

begins_with_dot-append :
    (a b : String) → begins_with_dot (str_append a b) ≡ false → begins_with_dot a ≡ false
unfolding begins_with_dot
begins_with_dot-append String.[] b h = refl
begins_with_dot-append (String.◌∷◌ c a) b h = rw (cons-append c a b) at h

-- Both parts of a text without two dots in a row are without them.
contains_dots-append :
    (a b : String)
    → contains_dots (str_append a b) ≡ false
    → (contains_dots a ≡ false) × (contains_dots b ≡ false)
unfolding contains_dots
contains_dots-append String.[] b h = (refl, rw (nil-append b) at h)
contains_dots-append (String.◌∷◌ c a) b h =
    let h' : (is_dot c && begins_with_dot (str_append a b)) || contains_dots (str_append a b)
        ≡ false =
      rw (cons-append c a b) at h in
    ground (arith, h', begins_with_dot-append a b, contains_dots-append a b)

not_up : (e : String) → contains_dots e ≡ false → str_eq e ".." ≡ false
unfolding contains_dots begins_with_dot
not_up e h = elim (Bool-cases (str_eq e "..")) [
  | inl above ↦ absurd (cc (rw ((eq_iff e "..").0 above) at h))
  | inr name ↦ name
]

IsKept-IsName : (e : String) → IsKept e → contains_dots e ≡ false → IsName e
IsKept-IsName e h d = record {
  whole = h.whole;
  filled = h.filled;
  not_here = h.not_here;
  not_up = not_up e d;
}

pub AllKept-AllNames :
    (e : String) (es : List String)
    → AllKept (e ∷ es)
    → contains_dots (join (e ∷ es)) ≡ false
    → AllNames (e ∷ es)
unfolding join
AllKept-AllNames e [] h d = (IsKept-IsName e h.0 d, tt)
AllKept-AllNames e (f ∷ es) h d =
    let parts = contains_dots-append e _ d in
    (IsKept-IsName e h.0 parts.0, AllKept-AllNames f es h.1 (contains_dots-append "/" _ parts.1).1)
