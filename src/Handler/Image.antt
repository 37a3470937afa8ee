-- ===== src/Handler/Image.antt =====
-- `ProductHandler.GetImage` of webapp/backend/internal/handler/product.go. What `os.Stat` and
-- `os.ReadFile` answer is given, since the files may change between the two calls.
use Prim.Native.String.{String}
use text.Mathlib.Text.{◌==◌ as str_eq}
use snake_42tokyo_tuning.Base.{Bool, ◌||◌, Option, none, some, if◌then◌else◌}
use snake_42tokyo_tuning.Paths.{is_abs, clean, join_path, ext, contains_dots}
use snake_42tokyo_tuning.Handler.Replies.{Reply, sent, refused}

abbrev pub base_image_dir : String
base_image_dir = "/app/images"

-- The tests of the parameter: the path of the file, or `none` for a bad request.
unfoldable pub image_path : String → Option String
image_path given =
    if str_eq given ""
    then none
    else if is_abs (clean given) || contains_dots (clean given)
    then none
    else some (join_path base_image_dir (clean given))

-- The switch over the extension.
unfoldable pub content_type : (lower : String → String) → (full_path : String) → String
content_type lower full_path =
    let e = lower (ext full_path) in
    if str_eq e ".jpg" || str_eq e ".jpeg"
    then "image/jpeg"
    else if str_eq e ".png"
    then "image/png"
    else if str_eq e ".gif"
    then "image/gif"
    else if str_eq e ".webp"
    then "image/webp"
    else "application/octet-stream"

-- `exists`: the file is not one of which `os.Stat` says that it does not exist. The body of a reply is
-- its content type and the bytes of the file.
module _ (exists : String → Bool) (read_file : String → Option String)
    (lower : String → String) where
  unfoldable pub serve_file : (full_path : String) → Reply (String × String)
  serve_file full_path =
      if exists full_path
      then elim (read_file full_path) [
        | none ↦ refused 500
        | some bytes ↦ sent 200 (content_type lower full_path, bytes)
      ]
      else refused 404

  unfoldable pub image_reply : (given : String) → Reply (String × String)
  image_reply given = elim (image_path given) [
    | none ↦ refused 400
    | some full_path ↦ serve_file full_path
  ]
