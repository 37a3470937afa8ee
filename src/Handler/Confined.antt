-- ===== src/Handler/Confined.antt =====
-- `ProductHandler.GetImage` of webapp/backend/internal/handler/product.go stays in its directory.
use Prim.Native.String.{String}
use text.Mathlib.Text.{◌==◌ as str_eq}
use text.Mathlib.TextEquality.{eq_iff}
use snake_42tokyo_tuning.Base.{
  Bool, true, false, ◌≡◌, refl, ◌⊎◌, inl, inr, Bool-cases, Option-cases, ◌≢◌, Option, none, some,
}
use snake_42tokyo_tuning.Paths.{is_abs, clean, join_path, contains_dots}
use snake_42tokyo_tuning.Handler.Image.{
  base_image_dir, image_path, content_type, serve_file, image_reply,
}
use snake_42tokyo_tuning.Handler.Replies.{Reply, sent, refused}
use snake_42tokyo_tuning.Paths.Elements.{IsName}
use snake_42tokyo_tuning.Paths.Joined.{below, join_path-clean}

-- A path that stands below the directory and does not leave it.
pub record IsInside (name full_path : String) : Type 0 where
  pub relative : is_abs name ≡ false
  pub no_dots : contains_dots name ≡ false
  pub place : full_path ≡ below "images" name

images-IsName : IsName "images"
images-IsName = record { whole = refl; filled = refl; not_here = refl; not_up = refl }

-- Why a path is refused.
abbrev pub IsRefused : String → Type 0
IsRefused given =
    (given ≡ "") ⊎ ((is_abs (clean given) ≡ true) ⊎ (contains_dots (clean given) ≡ true))

image_path-cases :
    (given : String)
    → (IsRefused given × (image_path given ≡ none))
      ⊎ ((full_path : String) × (given ≢ "")
          × IsInside (clean given) full_path
          × (image_path given ≡ some full_path))
unfolding image_path
image_path-cases given = elim (Bool-cases (str_eq given "")) [
  | inl empty ↦ inl (inl ((eq_iff given "").0 empty), rw (image_path, empty) refl)
  | inr filled ↦ elim (Bool-cases (is_abs (clean given))) [
    | inl absolute ↦ inl (inr (inl absolute), rw (image_path, filled, absolute) refl)
    | inr relative ↦ elim (Bool-cases (contains_dots (clean given))) [
      | inl dots ↦ inl (inr (inr dots), rw (image_path, filled, relative, dots) refl)
      | inr no_dots ↦ inr (
        join_path base_image_dir (clean given),
        λ e. absurd (cc ((eq_iff given "").1 e)),
        record {
          relative = relative;
          no_dots = no_dots;
          place = join_path-clean "images" images-IsName given relative no_dots;
        },
        rw (image_path, filled, relative, no_dots) refl,
      )
    ]
  ]
]

-- The replies to a request for an image.
pub data Confined (exists : String → Bool) (read_file : String → Option String)
    (lower : String → String) (given : String) : Reply (String × String) → Type 0 where
  turned_away : IsRefused given → Confined exists read_file lower given (refused 400)
  missing :
      {full_path : String}
      → given ≢ ""
      → IsInside (clean given) full_path
      → exists full_path ≡ false
      → Confined exists read_file lower given (refused 404)
  unreadable :
      {full_path : String}
      → given ≢ ""
      → IsInside (clean given) full_path
      → exists full_path ≡ true
      → read_file full_path ≡ none
      → Confined exists read_file lower given (refused 500)
  served :
      {full_path bytes : String}
      → given ≢ ""
      → IsInside (clean given) full_path
      → exists full_path ≡ true
      → read_file full_path ≡ some bytes
      → Confined exists read_file lower given (sent 200 (content_type lower full_path, bytes))

module _ (exists : String → Bool) (read_file : String → Option String) (lower : String → String)
    (given : String) where
  serve_file-Confined :
      (full_path : String)
      → given ≢ ""
      → IsInside (clean given) full_path
      → Confined exists read_file lower given (serve_file exists read_file lower full_path)
  unfolding serve_file
  serve_file-Confined full_path filled inside = elim (Bool-cases (exists full_path)) [
    | inl there ↦ elim (Option-cases (read_file full_path)) [
      | inl failed ↦ rw (serve_file, there, failed) (unreadable filled inside there failed)
      | inr (bytes, read) ↦ rw (serve_file, there, read) (served filled inside there read)
    ]
    | inr gone ↦ rw (serve_file, gone) (missing filled inside gone)
  ]

  -- For any path in the request `GetImage` replies 400 if the path is empty or, cleaned, is absolute or
  -- has two dots in a row. Otherwise the path of the file is /app/images, for the cleaned path `.`, or
  -- /app/images/ followed by the cleaned path, which is not absolute and has no two dots in a row; the
  -- reply is 404 if that file does not exist, 500 if it cannot be read, and else 200 with its bytes and
  -- its content type.
  pub image_reply-Confined :
      Confined exists read_file lower given (image_reply exists read_file lower given)
  unfolding image_reply
  image_reply-Confined = elim (image_path-cases given) [
    | inl (why, e) ↦ rw (image_reply, e) (turned_away why)
    | inr (full_path, filled, inside, e) ↦
        rw (image_reply, e) (serve_file-Confined full_path filled inside)
  ]
