-- ===== src/Compose/Laws.antt =====
-- That the hash does not depend on the order of keys.
use phala_cloud.Common.{
  Text, lit, Bool, true, false, Option, none, some, List, [], ◌∷◌, if◌then◌else◌, ◌≡◌, refl,
}
use phala_cloud.Common.Json.{Json, Items, Fields, get_field, json_is_text, truthy_json}
use phala_cloud.Compose.{has_field}
use phala_cloud.Compose.Same.{
  Same, same_value, same_items, same_fields, SameItems, same_nil, same_cons, SameItems-refl,
  SameFields, has_field-SameFields,
}
use phala_cloud.Compose.Edits.{
  SameValue, same_none, same_some, get_field-SameFields, delete_field-SameFields,
  set_field-SameFields,
}
use phala_cloud.Compose.Hash.{
  omit_when_null, omit_when_empty, is_nullish, is_falsy, omit, drop_unused_script, or_true,
  with_tproxy, scripts_of, with_scripts, with_version, is_below_dstack060, normalise,
  preprocess_app_compose,
}

json_is_text-SameValue :
    (s : Text) {o p : Option Json} → SameValue o p → json_is_text o s ≡ json_is_text p s
unfolding json_is_text
json_is_text-SameValue s same_none = refl
json_is_text-SameValue s (same_some same_value) = refl
json_is_text-SameValue s (same_some (same_items h)) = refl
json_is_text-SameValue s (same_some (same_fields p h)) = refl

is_nullish-SameValue : {o p : Option Json} → SameValue o p → is_nullish o ≡ is_nullish p
unfolding is_nullish
is_nullish-SameValue same_none = refl
is_nullish-SameValue (same_some same_value) = refl
is_nullish-SameValue (same_some (same_items h)) = refl
is_nullish-SameValue (same_some (same_fields p h)) = refl

is_falsy-SameValue : {o p : Option Json} → SameValue o p → is_falsy o ≡ is_falsy p
unfolding is_falsy truthy_json
is_falsy-SameValue same_none = refl
is_falsy-SameValue (same_some same_value) = refl
is_falsy-SameValue (same_some (same_items h)) = refl
is_falsy-SameValue (same_some (same_fields p h)) = refl

-- A step on fields that respects the relation.
abbrev Respects : (Fields → Fields) → Type 0
Respects f = (fs gs : Fields) → SameFields fs gs → SameFields (f fs) (f gs)

if-SameFields :
    (b c : Bool) {fs gs fs' gs' : Fields}
    → b ≡ c
    → SameFields fs gs
    → SameFields fs' gs'
    → SameFields (if b then fs else fs') (if c then gs else gs')
if-SameFields true true e h g = h
if-SameFields true false e h g = cc
if-SameFields false true e h g = cc
if-SameFields false false e h g = g

omit-SameFields :
    (drops : Option Json → Bool)
    → ((o p : Option Json) → SameValue o p → drops o ≡ drops p)
    → (ks : List Text) → Respects (omit drops ks)
unfolding omit
omit-SameFields drops d [] fs gs h = h
omit-SameFields drops d (k ∷ ks) fs gs h = omit-SameFields drops d ks _ _ (
    if-SameFields (drops (get_field k fs)) (drops (get_field k gs))
      (d (get_field k fs) (get_field k gs) (get_field-SameFields k h)) (delete_field-SameFields k h)
      h)

drop_unused_script-SameFields : Respects drop_unused_script
unfolding drop_unused_script
drop_unused_script-SameFields fs gs h =
    let runner = get_field-SameFields (lit "runner") h in
    if-SameFields (json_is_text (get_field (lit "runner") fs) (lit "bash"))
      (json_is_text (get_field (lit "runner") gs) (lit "bash"))
      (json_is_text-SameValue (lit "bash") runner)
      (delete_field-SameFields (lit "docker_compose_file") h)
      (if-SameFields (json_is_text (get_field (lit "runner") fs) (lit "docker-compose"))
        (json_is_text (get_field (lit "runner") gs) (lit "docker-compose"))
        (json_is_text-SameValue (lit "docker-compose") runner)
        (delete_field-SameFields (lit "bash_script") h) h)

or_true-SameValue : {o p : Option Json} → SameValue o p → Same (or_true o) (or_true p)
unfolding or_true
or_true-SameValue same_none = same_value
or_true-SameValue (same_some s) = s

with_tproxy-SameFields : Respects with_tproxy
unfolding with_tproxy
with_tproxy-SameFields fs gs h =
    if-SameFields (has_field (lit "tproxy_enabled") fs) (has_field (lit "tproxy_enabled") gs)
      (has_field-SameFields (lit "tproxy_enabled") h) h
      (set_field-SameFields (lit "tproxy_enabled")
        (or_true-SameValue (get_field-SameFields (lit "gateway_enabled") h)) h)

normalise-SameFields : Respects normalise
unfolding normalise
normalise-SameFields fs gs h =
    omit-SameFields is_falsy (λ o p e. is_falsy-SameValue e) omit_when_empty _ _
      (omit-SameFields is_nullish (λ o p e. is_nullish-SameValue e) omit_when_null _ _
        (with_tproxy-SameFields _ _ (drop_unused_script-SameFields fs gs h)))

scripts_of-SameValue : {o p : Option Json} → SameValue o p → SameItems (scripts_of o) (scripts_of p)
unfolding scripts_of
scripts_of-SameValue same_none = same_nil
scripts_of-SameValue (same_some {v = v} same_value) = SameItems-refl (scripts_of (some v))
scripts_of-SameValue (same_some (same_items h)) = h
scripts_of-SameValue (same_some (same_fields p h)) = same_cons (same_fields p h) same_nil

-- Both fail, or both succeed with the same fields.
pub data SameResult : Option Fields → Option Fields → Type 0 where
  both_fail : SameResult none none
  both_give : {fs gs : Fields} → SameFields fs gs → SameResult (some fs) (some gs)

with_scripts-SameFields :
    (old : Bool) {js ks : Items} {fs gs : Fields}
    → SameItems js ks
    → SameFields fs gs
    → SameResult (with_scripts old js fs) (with_scripts old ks gs)
unfolding with_scripts
with_scripts-SameFields false s h = both_give (
    set_field-SameFields (lit "init_script") (same_items s)
      (set_field-SameFields (lit "manifest_version") same_value h))
with_scripts-SameFields true same_nil h = both_give (
    delete_field-SameFields (lit "init_script")
      (set_field-SameFields (lit "manifest_version") same_value h))
with_scripts-SameFields true (same_cons s same_nil) h = both_give (
    set_field-SameFields (lit "init_script") s
      (set_field-SameFields (lit "manifest_version") same_value h))
with_scripts-SameFields true (same_cons s (same_cons r t)) h = both_fail

-- preprocessAppCompose takes composes that are equal but for the order of keys to such composes, or
-- fails on both, with or without a version.
pub preprocess-SameResult :
    (version : Option Text) {fs gs : Fields}
    → SameFields fs gs
    → SameResult (preprocess_app_compose fs version) (preprocess_app_compose gs version)
unfolding preprocess_app_compose with_version
preprocess-SameResult none {fs} {gs} h = both_give (normalise-SameFields fs gs h)
preprocess-SameResult (some version) {fs} {gs} h =
    with_scripts-SameFields (is_below_dstack060 version)
      (scripts_of-SameValue
        (get_field-SameFields (lit "init_script") (normalise-SameFields fs gs h)))
      (normalise-SameFields fs gs h)
