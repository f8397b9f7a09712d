-- ===== src/Compose/Plain.antt =====
-- The hash of a compose without the key "constructor".
use phala_cloud.Common.{
  Text, lit, Bool, true, false, not, ◌||◌, Option, none, some, List, [], ◌∷◌, if◌then◌else◌, ◌≡◌,
  refl, sym, ap, ◌∙◌, inl, inr, arith, text_eq, text_eq_iff, Bool-cases, all,
}
use phala_cloud.Common.Json.{Json, arr, num, str, Items, nil, cons, Fields, end, field, get_field}
use phala_cloud.Compose.{has_field, set_field, delete_field, is_plain}
use phala_cloud.Compose.Same.{SameFields, same_fields, has_field-SameFields}
use phala_cloud.Compose.Edits.{set_field_lem}
use phala_cloud.Compose.Canonical.{sort_object-Same}
use phala_cloud.Compose.Hash.{
  omit_when_null, omit_when_empty, is_nullish, is_falsy, omit, drop_unused_script, or_true,
  with_tproxy, with_scripts, scripts_of, is_below_dstack060, with_version, normalise,
  preprocess_app_compose, dump_app_compose, get_compose_hash,
}
use phala_cloud.Compose.Laws.{SameResult, both_fail, both_give, preprocess-SameResult}

has_field-delete :
    (c k : Text) (fs : Fields)
    → text_eq k c ≡ false
    → has_field c (delete_field k fs) ≡ has_field c fs
unfolding has_field delete_field
has_field-delete c k end d = refl
has_field-delete c k (field j v fs) d =
    ground (arith, has_field-delete c k fs, text_eq_iff j k, text_eq_iff j c, text_eq_iff k c)

has_field-set :
    (c k : Text) (v : Json) (fs : Fields)
    → text_eq k c ≡ false
    → has_field c (set_field k v fs) ≡ has_field c fs
unfolding has_field
has_field-set c k v fs d =
    has_field-SameFields c (set_field_lem k v fs)
    ∙ ap (λ b. b || has_field c (delete_field k fs)) d
    ∙ has_field-delete c k fs d

has_field-omit :
    (c : Text) (drops : Option Json → Bool) (ks : List Text) (fs : Fields)
    → all (λ k. not (text_eq k c)) ks ≡ true
    → has_field c (omit drops ks fs) ≡ has_field c fs
unfolding omit
has_field-omit c drops [] fs d = refl
has_field-omit c drops (k ∷ ks) fs d =
    let other : text_eq k c ≡ false = ground arith in
    let others : all (λ j. not (text_eq j c)) ks ≡ true = ground arith in
    has_field-omit c drops ks (if drops (get_field k fs) then delete_field k fs else fs) others
    ∙ elim (Bool-cases (drops (get_field k fs))) [
      | inl e ↦ rw e (has_field-delete c k fs other)
      | inr e ↦ rw e refl
    ]

abbrev constructor_key : Text
constructor_key = lit "constructor"

drop_unused_script_plain :
    (fs : Fields) → has_field constructor_key (drop_unused_script fs) ≡ has_field constructor_key fs
unfolding drop_unused_script text_eq
drop_unused_script_plain fs = ground (
  arith,
  has_field-delete constructor_key (lit "docker_compose_file") fs refl,
  has_field-delete constructor_key (lit "bash_script") fs refl,
)

if_plain :
    (b : Bool) (fs gs : Fields)
    → has_field constructor_key gs ≡ has_field constructor_key fs
    → has_field constructor_key (if b then fs else gs) ≡ has_field constructor_key fs
if_plain true fs gs h = refl
if_plain false fs gs h = h

with_tproxy_plain :
    (fs : Fields) → has_field constructor_key (with_tproxy fs) ≡ has_field constructor_key fs
unfolding with_tproxy text_eq
with_tproxy_plain fs =
    if_plain (has_field (lit "tproxy_enabled") fs) fs
      (set_field (lit "tproxy_enabled") (or_true (get_field (lit "gateway_enabled") fs)) fs)
      (has_field-set constructor_key (lit "tproxy_enabled")
        (or_true (get_field (lit "gateway_enabled") fs)) fs refl)

normalise_plain :
    (fs : Fields) → has_field constructor_key (normalise fs) ≡ has_field constructor_key fs
unfolding normalise text_eq
normalise_plain fs =
    has_field-omit constructor_key is_falsy omit_when_empty
      (omit is_nullish omit_when_null (with_tproxy (drop_unused_script fs))) refl
    ∙ has_field-omit constructor_key is_nullish omit_when_null (with_tproxy (drop_unused_script fs))
        refl
    ∙ with_tproxy_plain (drop_unused_script fs)
    ∙ drop_unused_script_plain fs

manifest_plain :
    (v : Json) (fs : Fields)
    → has_field constructor_key (set_field (lit "manifest_version") v fs)
      ≡ has_field constructor_key fs
unfolding text_eq
manifest_plain v fs = has_field-set constructor_key (lit "manifest_version") v fs refl

script_plain :
    (v : Json) (fs : Fields)
    → has_field constructor_key (set_field (lit "init_script") v fs) ≡ has_field constructor_key fs
unfolding text_eq
script_plain v fs = has_field-set constructor_key (lit "init_script") v fs refl

no_script_plain :
    (fs : Fields)
    → has_field constructor_key (delete_field (lit "init_script") fs) ≡ has_field constructor_key fs
unfolding text_eq
no_script_plain fs = has_field-delete constructor_key (lit "init_script") fs refl

with_scripts_plain :
    (old : Bool) (js : Items) (fs gs : Fields)
    → with_scripts old js fs ≡ some gs
    → has_field constructor_key gs ≡ has_field constructor_key fs
unfolding with_scripts
with_scripts_plain true nil fs gs h =
    let old = set_field (lit "manifest_version") (num (lit "2")) fs in
    let step = no_script_plain old ∙ manifest_plain (num (lit "2")) fs in cc
with_scripts_plain true (cons j nil) fs gs h =
    let old = set_field (lit "manifest_version") (num (lit "2")) fs in
    let step = script_plain j old ∙ manifest_plain (num (lit "2")) fs in cc
with_scripts_plain true (cons j (cons k js)) fs gs h = cc
with_scripts_plain false js fs gs h =
    let new = set_field (lit "manifest_version") (str (lit "3")) fs in
    let step = script_plain (arr js) new ∙ manifest_plain (str (lit "3")) fs in cc

-- A compose without the key "constructor" has none after preprocessing.
preprocess_plain :
    (version : Option Text) (fs gs : Fields)
    → preprocess_app_compose fs version ≡ some gs
    → is_plain fs ≡ true
    → is_plain gs ≡ true
unfolding preprocess_app_compose with_version is_plain
preprocess_plain none fs gs h p = cc (normalise_plain fs)
preprocess_plain (some version) fs gs h p =
    ap not (
      with_scripts_plain (is_below_dstack060 version)
        (scripts_of (get_field (lit "init_script") (normalise fs))) (normalise fs) gs h
      ∙ normalise_plain fs)
    ∙ p

dump-SameFields :
    {fs gs : Fields}
    → is_plain fs ≡ true
    → SameFields fs gs
    → dump_app_compose fs ≡ dump_app_compose gs
unfolding dump_app_compose
dump-SameFields p h = rw (sort_object-Same (same_fields p h)) refl

hash_of : (Text → Text) → Option Fields → Option Text
hash_of sha256 none = none
hash_of sha256 (some fs) = some (sha256 (dump_app_compose fs))

get_compose_hash_lem :
    (sha256 : Text → Text) (fs : Fields) (version : Option Text)
    → get_compose_hash sha256 fs version ≡ hash_of sha256 (preprocess_app_compose fs version)
unfolding get_compose_hash hash_of
get_compose_hash_lem sha256 fs version = elim (preprocess_app_compose fs version) [
  | none ↦ refl
  | some gs ↦ refl
]

-- Composes that are equal but for the order of keys, and have no key "constructor", have one hash, or
-- fail both, with or without a version of the OS image and whatever the digest.
pub get_compose_hash-SameFields :
    (sha256 : Text → Text) (version : Option Text) {fs gs : Fields}
    → is_plain fs ≡ true
    → SameFields fs gs
    → get_compose_hash sha256 fs version ≡ get_compose_hash sha256 gs version
unfolding hash_of
get_compose_hash-SameFields sha256 version {fs} {gs} p h =
    get_compose_hash_lem sha256 fs version
    ∙ go (preprocess_app_compose fs version) (preprocess_app_compose gs version) refl
        (preprocess-SameResult version h)
    ∙ sym (get_compose_hash_lem sha256 gs version)
  where
    go :
        (o r : Option Fields)
        → preprocess_app_compose fs version ≡ o
        → SameResult o r
        → hash_of sha256 o ≡ hash_of sha256 r
    go none none e both_fail = refl
    go (some fs') (some gs') e (both_give s) =
        ap (λ t. some (sha256 t)) (dump-SameFields (preprocess_plain version fs fs' e p) s)
    go none (some gs') e k = elim k [ ]
    go (some fs') none e k = elim k [ ]
