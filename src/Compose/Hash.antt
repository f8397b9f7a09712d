-- ===== src/Compose/Hash.antt =====
-- `preprocessAppCompose`, `dumpAppCompose` and `getComposeHash`.
use phala_cloud.Common.{
  ℕ, ◌+◌, ◌-◌, ◌*◌, Text, lit, Bool, true, false, not, ◌&&◌, Option, none, some, List, [], ◌∷◌,
  ◌++◌, if◌then◌else◌, ◌==◌, leb, ltb,
}
use phala_cloud.Common.Json.{
  Json, null, bool, num, str, arr, obj, Items, nil, cons, Fields, get_field, truthy_json,
  json_is_text,
}
use phala_cloud.Compose.{has_field, set_field, delete_field, sort_object}
use phala_cloud.Compose.Print.{stringify}

-- OMIT_WHEN_NULL
abbrev pub omit_when_null : List Text
omit_when_null =
    lit "event_log_version"
    ∷ lit "key_provider"
    ∷ lit "port_policy"
    ∷ lit "requirements"
    ∷ lit "snapshotter"
    ∷ lit "storage_discard"
    ∷ lit "swap_size"
    ∷ lit "verity_volumes"
    ∷ []

-- OMIT_WHEN_EMPTY
abbrev pub omit_when_empty : List Text
omit_when_empty =
    lit "default_gateway_domain" ∷ lit "key_provider_id" ∷ lit "pre_launch_script" ∷ lit "salt" ∷ []

-- version.split(".")
split_dots : Text → Text → List Text
split_dots part [] = part ∷ []
split_dots part (c ∷ s) =
    let rest = split_dots (if c == b'.' then [] else part ++ c ∷ []) s in
    if c == b'.' then part ∷ rest else rest

abbrev is_digit : ℕ → Bool
is_digit c = leb b'0' c && leb c b'9'

-- The number of the leading digits, given that of those before, and whether no other follows.
leading_number : ℕ → Text → ℕ × Bool
leading_number n [] = (n, true)
leading_number n (c ∷ s) =
    let rest = leading_number (10 * n + (c - b'0')) s in if is_digit c then rest else (n, false)

starts_with_digit : Text → Bool
starts_with_digit [] = false
starts_with_digit (c ∷ s) = is_digit c

version_parts : List Text → List ℕ
unfolding leading_number starts_with_digit
version_parts [] = []
version_parts (raw ∷ rest) =
    let others = version_parts rest in
    let (n, whole) = leading_number 0 raw in
    if starts_with_digit raw then (if whole then n ∷ others else n ∷ []) else []

padded : List ℕ → List ℕ
padded [] = 0 ∷ 0 ∷ 0 ∷ []
padded (a ∷ []) = a ∷ 0 ∷ 0 ∷ []
padded (a ∷ b ∷ []) = a ∷ b ∷ 0 ∷ []
padded (a ∷ b ∷ c ∷ rest) = a ∷ b ∷ c ∷ rest

-- parseOsImageVersion
unfoldable pub parse_os_image_version : Text → List ℕ
unfolding padded version_parts split_dots
parse_os_image_version version = padded (version_parts (split_dots [] version))

below_060 : List ℕ → Bool
below_060 (major ∷ minor ∷ rest) = major == 0 && ltb minor 6
below_060 (major ∷ []) = major == 0
below_060 [] = true

-- isBelowDstack060
unfoldable pub is_below_dstack060 : Text → Bool
unfolding below_060 parse_os_image_version
is_below_dstack060 version = below_060 (parse_os_image_version version)

-- value == null
unfoldable pub is_nullish : Option Json → Bool
is_nullish none = true
is_nullish (some null) = true
is_nullish (some (bool b)) = false
is_nullish (some (num t)) = false
is_nullish (some (str s)) = false
is_nullish (some (arr js)) = false
is_nullish (some (obj fs)) = false

unfoldable pub is_falsy : Option Json → Bool
unfolding truthy_json
is_falsy none = true
is_falsy (some v) = not (truthy_json v)

unfoldable pub omit : (Option Json → Bool) → List Text → Fields → Fields
unfolding delete_field get_field
omit drops [] fs = fs
omit drops (k ∷ ks) fs = omit drops ks (if drops (get_field k fs) then delete_field k fs else fs)

-- The script field that the runner does not use is dropped.
unfoldable pub drop_unused_script : Fields → Fields
unfolding json_is_text delete_field get_field
drop_unused_script fs =
    if json_is_text (get_field (lit "runner") fs) (lit "bash")
    then delete_field (lit "docker_compose_file") fs
    else if json_is_text (get_field (lit "runner") fs) (lit "docker-compose")
    then delete_field (lit "bash_script") fs
    else fs

-- The value of gateway_enabled, or true without this key.
unfoldable pub or_true : Option Json → Json
or_true none = bool true
or_true (some v) = v

unfoldable pub with_tproxy : Fields → Fields
unfolding has_field get_field set_field or_true
with_tproxy fs =
    if has_field (lit "tproxy_enabled") fs
    then fs
    else set_field (lit "tproxy_enabled") (or_true (get_field (lit "gateway_enabled") fs)) fs

unfoldable pub scripts_of : Option Json → Items
unfolding truthy_json
scripts_of none = nil
scripts_of (some (arr js)) = js
scripts_of (some (str s)) = if truthy_json (str s) then cons (str s) nil else nil
scripts_of (some (obj fs)) = cons (obj fs) nil
scripts_of (some (num t)) = if truthy_json (num t) then cons (num t) nil else nil
scripts_of (some (bool b)) = if b then cons (bool b) nil else nil
scripts_of (some null) = nil

-- `none` is the error on more than one script.
unfoldable pub with_scripts : Bool → Items → Fields → Option Fields
unfolding set_field delete_field
with_scripts true nil fs =
    some (delete_field (lit "init_script") (set_field (lit "manifest_version") (num (lit "2")) fs))
with_scripts true (cons j nil) fs =
    some (set_field (lit "init_script") j (set_field (lit "manifest_version") (num (lit "2")) fs))
with_scripts true (cons j (cons k js)) fs = none
with_scripts false js fs =
    some (
      set_field (lit "init_script") (arr js)
        (set_field (lit "manifest_version") (str (lit "3")) fs))

unfoldable pub with_version : Option Text → Fields → Option Fields
unfolding with_scripts scripts_of is_below_dstack060 get_field
with_version none fs = some fs
with_version (some version) fs =
    with_scripts (is_below_dstack060 version) (scripts_of (get_field (lit "init_script") fs)) fs

-- What preprocessAppCompose does without a version.
unfoldable pub normalise : Fields → Fields
unfolding omit is_falsy is_nullish with_tproxy drop_unused_script
normalise dic =
    omit is_falsy omit_when_empty
      (omit is_nullish omit_when_null (with_tproxy (drop_unused_script dic)))

-- preprocessAppCompose
unfoldable pub preprocess_app_compose : Fields → Option Text → Option Fields
unfolding with_version normalise
preprocess_app_compose dic version = with_version version (normalise dic)

-- dumpAppCompose
unfoldable pub dump_app_compose : Fields → Text
unfolding stringify sort_object
dump_app_compose dic = stringify (sort_object (obj dic))

-- getComposeHash
unfoldable pub get_compose_hash : (Text → Text) → Fields → Option Text → Option Text
unfolding preprocess_app_compose dump_app_compose
get_compose_hash sha256 dic version = elim (preprocess_app_compose dic version) [
  | none ↦ none
  | some fs ↦ some (sha256 (dump_app_compose fs))
]
