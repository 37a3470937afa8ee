-- ===== src/Handler/Requests.antt =====
-- How webapp/backend/internal/handler/list_utils.go, order.go and product.go prepare a list request.
use Prim.Native.String.{String}
use text.Mathlib.Text.{◌==◌ as str_eq}
use snake_42tokyo_tuning.Base.{
  not, ◌||◌, none, some, [], ◌∷◌, if◌then◌else◌, le_int, sub_int, mul_int,
}
use snake_42tokyo_tuning.Base.Dict.{Dict, lookup}
use snake_42tokyo_tuning.Model.{ListRequest}

-- `strings.ToUpper` on what the source calls it with.
unfoldable pub upper_order : String → String
upper_order order =
    if str_eq order "asc" then "ASC" else if str_eq order "desc" then "DESC" else order

-- The field that the switch of `sanitizeListRequest` chooses.
unfoldable pub choose_field : Dict String → (default_field field_key : String) → String
choose_field allowed default_field field_key =
    if str_eq field_key ""
    then default_field
    else elim (lookup field_key allowed) [ none ↦ default_field | some mapped ↦ mapped ]

unfoldable pub choose_order : (default_order order : String) → String
choose_order default_order order =
    if str_eq order "asc" || str_eq order "desc"
    then upper_order order
    else upper_order default_order

-- `if req.Page <= 0 { req.Page = 1 }` and `if req.PageSize <= 0 { req.PageSize = 20 }`
unfoldable pub with_page : ListRequest → ListRequest
with_page req = record req {
  page = if le_int req.page 0 then 1 else req.page;
  page_size = if le_int req.page_size 0 then 20 else req.page_size;
}

-- What stands for an unknown type of search.
unfoldable pub with_type : ListRequest → ListRequest
with_type req = record req {
  type =
      if str_eq req.type "" || not (str_eq req.type "partial" || str_eq req.type "prefix")
      then "partial"
      else req.type;
}

unfoldable pub with_offset : ListRequest → ListRequest
with_offset req = record req { offset = mul_int (sub_int req.page 1) req.page_size }

abbrev pub order_fields : Dict String
order_fields =
    ("order_id", "o.order_id")
    ∷ ("product_name", "p.name")
    ∷ ("created_at", "o.created_at")
    ∷ ("shipped_status", "o.shipped_status")
    ∷ ("arrived_at", "o.arrived_at")
    ∷ []

abbrev pub product_fields : Dict String
product_fields =
    ("product_id", "product_id")
    ∷ ("name", "name")
    ∷ ("value", "value")
    ∷ ("weight", "weight")
    ∷ ("image", "image")
    ∷ ("description", "description")
    ∷ []

-- `lower` is `strings.ToLower`.
module _ (lower : String → String) where
  -- `sanitizeListRequest`
  unfoldable pub sanitize :
      Dict String → (default_field default_order : String) → ListRequest → ListRequest
  sanitize allowed default_field default_order req = record req {
    sort_field = choose_field allowed default_field (lower req.sort_field);
    sort_order = choose_order default_order (lower req.sort_order);
  }

  -- The request that `OrderHandler.List` sends on.
  unfoldable pub prepare_orders : ListRequest → ListRequest
  prepare_orders req = with_type (sanitize order_fields "o.order_id" "desc" (with_page req))

  -- The request that `ProductHandler.List` sends on.
  unfoldable pub prepare_products : ListRequest → ListRequest
  prepare_products req = with_offset (sanitize product_fields "product_id" "asc" (with_page req))
