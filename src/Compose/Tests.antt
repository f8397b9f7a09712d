-- ===== src/Compose/Tests.antt =====
-- Runs on small composes, and each theorem at one.
use phala_cloud.Common.{lit, true, false, none, some, [], ◌≡◌, ◌≢◌, refl, text_eq}
use phala_cloud.Common.Json.{null, str, Fields, end, field, json_is_text, truthy_json, get_field}
use phala_cloud.Compose.{
  text_leb, has_field, add_field, replace_field, set_field, delete_field, is_plain, sort_object,
  insert_key, sorted_keys, assign, rebuild,
}
use phala_cloud.Compose.Print.{stringify, quote}
use phala_cloud.Compose.Same.{SameFields, same_swap}
use phala_cloud.Compose.Hash.{
  preprocess_app_compose, dump_app_compose, get_compose_hash, is_below_dstack060,
  parse_os_image_version, normalise, omit, is_falsy, is_nullish, or_true, with_tproxy, with_version,
  with_scripts, scripts_of, drop_unused_script,
}
use phala_cloud.Compose.Plain.{get_compose_hash-SameFields}

runs : Unit {0}
unfolding text_leb has_field add_field replace_field set_field delete_field is_plain sort_object
    insert_key sorted_keys assign rebuild stringify quote preprocess_app_compose dump_app_compose
    get_compose_hash is_below_dstack060 parse_os_image_version normalise omit is_falsy is_nullish
    or_true with_tproxy with_version with_scripts scripts_of drop_unused_script json_is_text
    truthy_json get_field text_eq
runs = tt

abbrev name_first : Fields
name_first =
    field (lit "name") (str (lit "a"))
      (field (lit "init_script") (str (lit "x")) (field (lit "salt") (str []) end))

abbrev script_first : Fields
script_first =
    field (lit "init_script") (str (lit "x"))
      (field (lit "name") (str (lit "a")) (field (lit "salt") (str []) end))

names_differ : lit "name" ≢ lit "init_script"
names_differ e = cc

reordered : SameFields name_first script_first
reordered = same_swap names_differ

plain : is_plain name_first ≡ true
unfolding runs
plain = refl

version_060 : is_below_dstack060 (lit "0.6.0-rc0") ≡ false
unfolding runs
version_060 = refl

version_052 : is_below_dstack060 (lit "0.5") ≡ true
unfolding runs
version_052 = refl

hashed :
    get_compose_hash (λ t. t) name_first none
    ≡ some (lit "{\"init_script\":\"x\",\"name\":\"a\",\"tproxy_enabled\":true}")
unfolding runs
hashed = refl

hashed_060 :
    get_compose_hash (λ t. t) name_first (some (lit "0.6.0"))
    ≡ some (
        lit
          "{\"init_script\":[\"x\"],\"manifest_version\":\"3\",\"name\":\"a\",\"tproxy_enabled\":true}")
unfolding runs
hashed_060 = refl

-- A key "constructor" keeps an object from being sorted.
abbrev unsorted : Fields
unsorted = field (lit "z") null (field (lit "constructor") null (field (lit "a") null end))

dumped_unsorted : dump_app_compose unsorted ≡ lit "{\"z\":null,\"constructor\":null,\"a\":null}"
unfolding runs
dumped_unsorted = refl

get_compose_hash-SameFields_example :
    get_compose_hash (λ t. t) name_first (some (lit "0.6.0"))
    ≡ get_compose_hash (λ t. t) script_first (some (lit "0.6.0"))
get_compose_hash-SameFields_example =
    get_compose_hash-SameFields (λ t. t) (some (lit "0.6.0")) plain reordered
