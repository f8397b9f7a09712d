-- ===== src/Common/Json.antt =====
-- JSON values, as `JSON.parse` returns them. A number stands as the text that `JSON.stringify` prints
-- for it; the keys of an object stand in enumeration order.
use mathlib.Core.Bool.{Bool, true, false, not}
use mathlib.Core.Option.{Option, none, some}
use mathlib.Core.List.{List, [], ◌∷◌}
use phala_cloud.Common.Tests.{if◌then◌else◌}
use phala_cloud.Common.Strings.{Text, lit, text_eq, is_empty}

mutual
  pub data Json : Type 0 where
    null : Json
    bool : Bool → Json
    num : Text → Json
    str : Text → Json
    arr : Items → Json
    obj : Fields → Json

  pub data Items : Type 0 where
    nil : Items
    cons : Json → Items → Items

  pub data Fields : Type 0 where
    end : Fields
    field : Text → Json → Fields → Fields

abbrev pub to_items : List Json → Items
to_items [] = nil
to_items (j ∷ js) = cons j (to_items js)

abbrev pub from_items : Items → List Json
from_items nil = []
from_items (cons j js) = j ∷ from_items js

abbrev pub to_fields : List (Text × Json) → Fields
to_fields [] = end
to_fields ((k, j) ∷ fs) = field k j (to_fields fs)

abbrev pub from_fields : Fields → List (Text × Json)
from_fields end = []
from_fields (field k j fs) = (k, j) ∷ from_fields fs

-- Whether a value counts as true in a condition.
unfoldable pub truthy_json : Json → Bool
truthy_json null = false
truthy_json (bool b) = b
truthy_json (num t) = not (text_eq t (lit "0"))
truthy_json (str s) = not (is_empty s)
truthy_json (arr js) = true
truthy_json (obj fs) = true

unfoldable pub get_field : Text → Fields → Option Json
get_field k end = none
get_field k (field j v fs) = if text_eq j k then some v else get_field k fs

-- `v === s` for a string s, where `none` is undefined
unfoldable pub json_is_text : Option Json → Text → Bool
json_is_text (some (str t)) s = text_eq t s
json_is_text _ s = false
