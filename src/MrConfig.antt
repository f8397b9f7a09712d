-- ===== src/MrConfig.antt =====
-- js/src/utils/get_mr_config_id.ts: the MrConfigV3 document that is built from loose inputs.
pub mod Laws
pub mod Again
pub mod Canonical
pub mod Id
mod Tests
use phala_cloud.Common.{
  ℕ, zero, suc, ◌+◌, ◌*◌, ◌%◌, Text, lit, Bool, true, false, not, ◌&&◌, ◌||◌, Option, none, some,
  List, [], ◌∷◌, ◌++◌, if◌then◌else◌, ◌==◌, leb, ltb, is_empty, length, all, decimal,
}

pub data KeyProviderKind : Type 0 where
  no_provider local kms tpm : KeyProviderKind

-- The `Error`s, with the field and the value or the length they name.
pub data HexError : Type 0 where
  not_hex odd_length : Text → Text → HexError
  wrong_bytes : Text → ℕ → Text → HexError
  too_many_scripts : HexError

pub data Result {ℓ} (A : Type ℓ) : Type ℓ where
  ok : A → Result A
  threw : HexError → Result A

abbrev pub and_then {ℓ κ} : {A : Type ℓ} {B : Type κ} → Result A → (A → Result B) → Result B
and_then (ok a) k = k a
and_then (threw e) k = threw e

pub record MrConfigInput : Type 0 where
  pub app_id : Option Text
  pub compose_hash : Text
  pub gpu_policy_hash : Option Text
  pub key_provider : KeyProviderKind
  pub key_provider_id : Option Text
  pub instance_id : Option Text
  pub init_script_hashes : Option (List Text)

pub record MrConfigDocument : Type 0 where
  pub app_id : Option Text
  pub compose_hash : Text
  pub gpu_policy_hash : Option Text
  pub key_provider : KeyProviderKind
  pub key_provider_id : Option Text
  pub instance_id : Option Text
  pub init_script_hashes : Option (List Text)

-- value.replace(/^0x/i, "")
unfoldable pub strip_0x : Text → Text
strip_0x [] = []
strip_0x (c ∷ []) = c ∷ []
strip_0x (c ∷ d ∷ s) = if c == b'0' && (d == b'x' || d == b'X') then s else c ∷ d ∷ s

abbrev pub is_lower_hex : ℕ → Bool
is_lower_hex c = (leb b'0' c && leb c b'9') || (leb b'a' c && leb c b'f')

abbrev pub max_init_scripts : ℕ
max_init_scripts = 5

-- expectByteLength
unfoldable pub expect_byte_length : Text → ℕ → Text → Result Text
expect_byte_length bare bytes field =
    if length bare == bytes * 2 then ok bare else threw (wrong_bytes field bytes bare)

-- A length where the field has one.
abbrev pub expect_length : Option ℕ → Text → Text → Result Text
expect_length none field bare = ok bare
expect_length (some bytes) field bare = expect_byte_length bare bytes field

abbrev pub keep_some : Result Text → Result (Option Text)
keep_some (ok bare) = ok (some bare)
keep_some (threw e) = threw e

-- A bare text is set in the document where it is not empty.
unfoldable pub set_bare : Option ℕ → Text → Text → Result (Option Text)
unfolding expect_byte_length
set_bare bytes field bare =
    if is_empty bare then ok none else keep_some (expect_length bytes field bare)

abbrev pub item_name : ℕ → Text
item_name index = lit "init_script_hashes[" ++ (decimal index ++ lit "]")

abbrev pub some_list : Result (List Text) → Result (Option (List Text))
some_list (ok hs) = ok (some hs)
some_list (threw e) = threw e

-- The lower case of text is a parameter.
module _ (to_lower : Text → Text) where
  -- normalizeHex
  unfoldable pub normalize_hex : Text → Text → Result Text
  unfolding strip_0x
  normalize_hex value field =
      let bare = to_lower (strip_0x value) in
      if not (all is_lower_hex bare)
      then threw (not_hex field value)
      else if not (length bare % 2 == 0)
      then threw (odd_length field value)
      else ok bare

  -- A field that has to be there.
  unfoldable pub required_bytes : ℕ → Text → Text → Result Text
  unfolding normalize_hex expect_byte_length
  required_bytes bytes field value =
      and_then (normalize_hex value field) (λ bare. expect_byte_length bare bytes field)

  unfoldable pub optional_bytes : Option ℕ → Text → Option Text → Result (Option Text)
  unfolding normalize_hex set_bare
  optional_bytes bytes field none = ok none
  optional_bytes bytes field (some value) =
      if is_empty value
      then ok none
      else and_then (normalize_hex value field) (set_bare bytes field)

  unfoldable pub script_hashes : ℕ → List Text → Result (List Text)
  unfolding required_bytes
  script_hashes index [] = ok []
  script_hashes index (hash ∷ hashes) =
      let rest = script_hashes (suc index) hashes in
      and_then (required_bytes 32 (item_name index) hash) (λ h. and_then rest (λ hs. ok (h ∷ hs)))

  unfoldable pub init_scripts : Option (List Text) → Result (Option (List Text))
  unfolding script_hashes
  init_scripts none = ok none
  init_scripts (some hashes) =
      if ltb max_init_scripts (length hashes)
      then threw too_many_scripts
      else some_list (script_hashes 0 hashes)

  -- buildMrConfigV3Document
  unfoldable pub build_document : MrConfigInput → Result MrConfigDocument
  unfolding required_bytes optional_bytes init_scripts
  build_document i =
      and_then (required_bytes 32 (lit "compose_hash") i.compose_hash) (λ compose_hash.
        and_then (optional_bytes (some 20) (lit "app_id") i.app_id) (λ app_id.
          and_then (optional_bytes (some 32) (lit "gpu_policy_hash") i.gpu_policy_hash)
            (λ gpu_policy_hash.
              and_then (optional_bytes none (lit "key_provider_id") i.key_provider_id)
                (λ key_provider_id.
                  and_then (optional_bytes (some 20) (lit "instance_id") i.instance_id)
                    (λ instance_id.
                      and_then (init_scripts i.init_script_hashes) (λ init_script_hashes.
                        ok (record {
                          app_id = app_id;
                          compose_hash = compose_hash;
                          gpu_policy_hash = gpu_policy_hash;
                          key_provider = i.key_provider;
                          key_provider_id = key_provider_id;
                          instance_id = instance_id;
                          init_script_hashes = init_script_hashes;
                        })))))))
