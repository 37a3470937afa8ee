-- ===== src/Handler/Safety.antt =====
-- What `sanitizeListRequest` of webapp/backend/internal/handler/list_utils.go lets through: its results
-- become text of SQL statements.
use Prim.Native.String.{String}
use text.Mathlib.Text.{◌==◌ as str_eq}
use mathlib.Core.List.{Memᴰ}
use mathlib.Core.List.Memᴰ.{head, tail}
use mathlib.Core.Option.{some-injective}
use snake_42tokyo_tuning.Base.{
  ℕ, ◌≡◌, refl, sym, true, some, List, [], ◌∷◌, ◌⊎◌, inl, inr, Bool-cases, Option-cases, lt_int,
  le_int, arith, if◌then◌else◌,
}
use snake_42tokyo_tuning.Base.Dict.{Dict, lookup}
use snake_42tokyo_tuning.Model.{ListRequest}
use snake_42tokyo_tuning.Handler.Requests.{
  upper_order, choose_field, choose_order, with_page, with_type, with_offset, order_fields,
  product_fields, sanitize, prepare_orders, prepare_products,
}

-- The columns of an allowlist.
unfoldable pub columns : Dict String → List String
columns [] = []
columns ((k, v) ∷ d) = v ∷ columns d

-- The parts of a request that become text of a statement are among the columns and the directions,
-- and the page and its size are positive.
pub record IsSafe (allowed : Dict String) (req : ListRequest) : Type 0 where
  pub column : Memᴰ req.sort_field (columns allowed)
  pub direction : (req.sort_order ≡ "ASC") ⊎ (req.sort_order ≡ "DESC")
  pub page_positive : lt_int 0 req.page ≡ true
  pub size_positive : lt_int 0 req.page_size ≡ true

lookup-Mem : (k v : String) (d : Dict String) → lookup k d ≡ some v → Memᴰ v (columns d)
unfolding lookup columns
lookup-Mem k v [] h = absurd (cc)
lookup-Mem k v ((j, w) ∷ d) h = elim (Bool-cases (str_eq j k)) [
  | inl same ↦ head (sym (some-injective _ _ (rw (same, lookup) at h)))
  | inr differs ↦ tail (lookup-Mem k v d (rw (differs, lookup) at h))
]

choose_field-Mem :
    (allowed : Dict String) (default_field field_key : String)
    → Memᴰ default_field (columns allowed)
    → Memᴰ (choose_field allowed default_field field_key) (columns allowed)
unfolding choose_field
choose_field-Mem allowed default_field field_key m = elim (Bool-cases (str_eq field_key "")) [
  | inl empty ↦ rw empty m
  | inr given ↦ elim (Option-cases (lookup field_key allowed)) [
    | inl missing ↦ rw (given, missing) m
    | inr (v, found) ↦ rw (given, found) (lookup-Mem field_key v allowed found)
  ]
]

choose_order-cases :
    (default_order order : String)
    → (upper_order default_order ≡ "ASC") ⊎ (upper_order default_order ≡ "DESC")
    → (choose_order default_order order ≡ "ASC") ⊎ (choose_order default_order order ≡ "DESC")
unfolding choose_order upper_order
choose_order-cases default_order order d = elim (Bool-cases (str_eq order "asc")) [
  | inl asc ↦ inl (rw (asc, choose_order) (refl))
  | inr not_asc ↦ elim (Bool-cases (str_eq order "desc")) [
    | inl desc ↦ inr (rw (not_asc, desc) refl)
    | inr neither ↦ rw (not_asc, neither) d
  ]
]

positive_or : (n d : ℕ) → lt_int 0 d ≡ true → lt_int 0 (if le_int n 0 then d else n) ≡ true
unfolding lt_int le_int
positive_or n d h = ground arith

-- Whatever a client sends and whatever `strings.ToLower` makes of it, the request that
-- `OrderHandler.List` sends on sorts by a column of its allowlist, in the direction ASC or DESC, and
-- its page and page size are positive; likewise for `ProductHandler.List` and its allowlist.
pub prepare-IsSafe :
    (lower : String → String) (req : ListRequest)
    → IsSafe order_fields (prepare_orders lower req)
      × IsSafe product_fields (prepare_products lower req)
unfolding prepare_orders prepare_products sanitize with_page with_type with_offset columns
    upper_order lt_int
prepare-IsSafe lower req = (
  record {
    column = choose_field-Mem order_fields "o.order_id" (lower req.sort_field) (head refl);
    direction = choose_order-cases "desc" (lower req.sort_order) (inr refl);
    page_positive = positive_or req.page 1 refl;
    size_positive = positive_or req.page_size 20 refl;
  },
  record {
    column = choose_field-Mem product_fields "product_id" (lower req.sort_field) (head refl);
    direction = choose_order-cases "asc" (lower req.sort_order) (inl refl);
    page_positive = positive_or req.page 1 refl;
    size_positive = positive_or req.page_size 20 refl;
  },
)
