-- ===== src/Errors/Messages.antt =====
-- The messages of validation errors, and the classes of errors by status.
use phala_cloud.Common.{
  ℕ, Text, lit, Bool, true, false, ◌&&◌, ◌||◌, Option, none, some, List, [], ◌∷◌, ◌++◌,
  if◌then◌else◌, ◌==◌, leb, ltb, text_eq, decimal, length,
}
use phala_cloud.Common.Json.{Json, null, bool, num, str, arr, obj, Items, nil, cons, truthy_json}
use phala_cloud.Errors.{member}

mutual
  -- String(value), and the elements of an array joined by commas, where null is the empty string
  pub string_of : Json → Text
  string_of null = lit "null"
  string_of (bool true) = lit "true"
  string_of (bool false) = lit "false"
  string_of (num t) = t
  string_of (str s) = s
  string_of (arr nil) = []
  string_of (arr (cons j js)) = element_text j ++ elements_text b',' js
  string_of (obj fs) = lit "[object Object]"

  pub element_text : Json → Text
  element_text null = []
  element_text (bool true) = lit "true"
  element_text (bool false) = lit "false"
  element_text (num t) = t
  element_text (str s) = s
  element_text (arr nil) = []
  element_text (arr (cons j js)) = element_text j ++ elements_text b',' js
  element_text (obj fs) = lit "[object Object]"

  pub elements_text : ℕ → Items → Text
  elements_text c nil = []
  elements_text c (cons j js) = c ∷ (element_text j ++ elements_text c js)

-- `${value}`, where `none` is undefined
unfoldable pub template_text : Option Json → Text
unfolding string_of
template_text none = lit "undefined"
template_text (some j) = string_of j

is_prefix_part : Json → Bool
unfolding text_eq
is_prefix_part (str s) =
    text_eq s (lit "body")
    || text_eq s (lit "query")
    || text_eq s (lit "path")
    || text_eq s (lit "header")
is_prefix_part _ = false

without_prefixes : Items → Items
unfolding is_prefix_part
without_prefixes nil = nil
without_prefixes (cons j js) =
    if is_prefix_part j then without_prefixes js else cons j (without_prefixes js)

joined : Items → Text
unfolding element_text
joined nil = lit "unknown"
joined (cons j js) = element_text j ++ elements_text b'.' js

-- extractFieldPath
unfoldable pub extract_field_path : Option Json → Text
unfolding joined without_prefixes
extract_field_path (some (arr js)) = joined (without_prefixes js)
extract_field_path _ = lit "unknown"

-- A member of an item of the array; no type that the items are declared to have is taken for granted.
pub record ValidationErrorItem : Type 0 where
  pub field : Json
  pub message : Option Json
  pub type : Option Json
  pub context : Option Json

described : Option Json → Text → Json
unfolding text_eq truthy_json
described none path = str path
described (some t) path =
    if truthy_json t
    then elim t [
      | str s ↦ str (if text_eq s (lit "missing") then lit "required field" else s)
      | j ↦ j
    ]
    else str path

display_field : Option Json → Text → Json
unfolding described
display_field type path = if text_eq path (lit "unknown") then described type path else str path

-- The callback of `map`; `none` is the TypeError at an item that is null.
unfoldable pub validation_item : Json → Option ValidationErrorItem
unfolding member extract_field_path display_field
validation_item null = none
validation_item j = some (record {
  field = display_field (member (lit "type") j) (extract_field_path (member (lit "loc") j));
  message = member (lit "msg") j;
  type = member (lit "type") j;
  context = member (lit "ctx") j;
})

unfoldable pub add_item :
    Option ValidationErrorItem
    → Option (List ValidationErrorItem)
    → Option (List ValidationErrorItem)
add_item none os = none
add_item (some i) none = none
add_item (some i) (some is) = some (i ∷ is)

unfoldable pub validation_items : Items → Option (List ValidationErrorItem)
unfolding validation_item add_item
validation_items nil = some []
validation_items (cons j js) = add_item (validation_item j) (validation_items js)

unfoldable pub summary : List ValidationErrorItem → Text
unfolding template_text decimal
summary [] = lit "Validation failed (0 issue)"
summary (i ∷ []) = lit "Validation failed: " ++ template_text i.message
summary (i ∷ j ∷ is) =
    lit "Validation failed (" ++ (decimal (length (i ∷ j ∷ is)) ++ lit " issues)")

pub data ErrorType : Type 0 where
  validation auth business server unknown : ErrorType

-- categorizeErrorType
unfoldable pub categorize_error_type : ℕ → ErrorType
categorize_error_type status =
    if status == 422
    then validation
    else if status == 401
    then auth
    else if status == 403
    then auth
    else if leb 400 status && ltb status 500
    then business
    else if leb 500 status
    then server
    else unknown
