-- ===== src/Compose.antt =====
-- js/src/utils/get_compose_hash.ts: the canonical form of an app compose and its hash. The SHA-256
-- digest is a parameter.
pub mod Print
pub mod Same
pub mod Canonical
pub mod Hash
pub mod Edits
pub mod Laws
pub mod Plain
mod Tests
use phala_cloud.Common.{
  ℕ, zero, suc, ◌+◌, ◌-◌, ◌*◌, Text, lit, Bool, true, false, not, ◌&&◌, ◌||◌, Option, none, some,
  List, [], ◌∷◌, ◌++◌, if◌then◌else◌, ◌==◌, leb, ltb, is_empty, text_eq, is_some,
}
use phala_cloud.Common.Json.{
  Json, null, bool, num, str, arr, obj, Items, nil, cons, Fields, end, field, get_field,
  truthy_json, json_is_text,
}

-- a < b on strings, by their code units
unfoldable pub text_leb : Text → Text → Bool
text_leb [] t = true
text_leb (c ∷ s) [] = false
text_leb (c ∷ s) (d ∷ t) = ltb c d || (c == d && text_leb s t)

unfoldable pub insert_key : Text → List Text → List Text
unfolding text_leb
insert_key k [] = k ∷ []
insert_key k (j ∷ js) = if text_leb k j then k ∷ j ∷ js else j ∷ insert_key k js

-- Object.keys(obj).sort()
unfoldable pub sorted_keys : Fields → List Text
unfolding insert_key
sorted_keys end = []
sorted_keys (field k v fs) = insert_key k (sorted_keys fs)

unfoldable pub has_field : Text → Fields → Bool
has_field k end = false
has_field k (field j v fs) = text_eq j k || has_field k fs

is_digit : ℕ → Bool
is_digit c = leb b'0' c && leb c b'9'

number_from : ℕ → Text → Option ℕ
unfolding is_digit
number_from n [] = some n
number_from n (c ∷ s) =
    let rest = number_from (10 * n + (c - b'0')) s in if is_digit c then rest else none

below : ℕ → Option ℕ → Option ℕ
below limit none = none
below limit (some n) = if ltb n limit then some n else none

-- The number of an array index: such keys come first in an object, in ascending order.
index_of : Text → Option ℕ
unfolding number_from below
index_of [] = none
index_of (c ∷ []) = number_from 0 (c ∷ [])
index_of (c ∷ d ∷ s) = if c == b'0' then none else below 4294967295 (number_from 0 (c ∷ d ∷ s))

comes_before : Option ℕ → Option ℕ → Bool
comes_before none j = false
comes_before (some m) none = true
comes_before (some m) (some n) = ltb m n

unfoldable pub add_field : Text → Json → Fields → Fields
unfolding comes_before index_of
add_field k v end = field k v end
add_field k v (field j w fs) =
    if comes_before (index_of k) (index_of j)
    then field k v (field j w fs)
    else field j w (add_field k v fs)

unfoldable pub replace_field : Text → Json → Fields → Fields
replace_field k v end = end
replace_field k v (field j w fs) =
    if text_eq j k then field j v fs else field j w (replace_field k v fs)

-- obj[k] = v
unfoldable pub set_field : Text → Json → Fields → Fields
unfolding has_field replace_field add_field
set_field k v fs = if has_field k fs then replace_field k v fs else add_field k v fs

-- delete obj[k]
unfoldable pub delete_field : Text → Fields → Fields
delete_field k end = end
delete_field k (field j w fs) = if text_eq j k then fs else field j w (delete_field k fs)

-- result[key] = value, which for "__proto__" makes no property
unfoldable pub assign : Text → Option Json → Fields → Fields
unfolding set_field
assign k none fs = fs
assign k (some v) fs = if text_eq k (lit "__proto__") then fs else set_field k v fs

unfoldable pub rebuild : Fields → List Text → Fields → Fields
unfolding assign
rebuild result [] fs = result
rebuild result (k ∷ ks) fs = rebuild (assign k (get_field k fs) result) ks fs

-- obj.constructor === Object: a key of this name hides the constructor
unfoldable pub is_plain : Fields → Bool
unfolding has_field
is_plain fs = not (has_field (lit "constructor") fs)

unfoldable mutual
  unfolding is_plain rebuild sorted_keys

  pub sort_object : Json → Json
  sort_object (arr js) = arr (sort_items js)
  sort_object (obj fs) =
      let sorted = rebuild end (sorted_keys fs) (sort_fields fs) in
      if is_plain fs then obj sorted else obj fs
  sort_object null = null
  sort_object (bool b) = bool b
  sort_object (num t) = num t
  sort_object (str s) = str s

  pub sort_items : Items → Items
  sort_items nil = nil
  sort_items (cons j js) = cons (sort_object j) (sort_items js)

  pub sort_fields : Fields → Fields
  sort_fields end = end
  sort_fields (field k v fs) = field k (sort_object v) (sort_fields fs)
