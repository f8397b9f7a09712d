-- ===== src/MrConfig/Id.antt =====
-- js/src/utils/get_mr_config_id.ts: the identifiers of a configuration in their three layouts, and
-- verifyMrConfigId.
pub mod Bytes
pub mod Computed
pub mod Accepts
pub mod Binds
mod Tests
use phala_cloud.Common.{
  ℕ, zero, suc, ◌+◌, ◌-◌, ◌*◌, Text, lit, Bool, true, false, not, Option, none, some, List, [], ◌∷◌,
  ◌++◌, if◌then◌else◌, ◌==◌, ltb, length, take, replicate, text_eq,
}
use phala_cloud.MrConfig.{
  KeyProviderKind, no_provider, local, kms, tpm, Result, ok, threw, strip_0x, MrConfigInput,
  MrConfigDocument, build_document,
}
use phala_cloud.MrConfig.Canonical.{canonicalize}

abbrev pub Bytes : Type 0
Bytes = List ℕ

-- The functions of viem that the code calls; `none` where one throws.
pub record Viem : Type 0 where
  pub to_bytes : Text → Option Bytes
  pub to_hex : Bytes → Text
  pub sha256 : Bytes → Text
  pub keccak256 : Bytes → Text
  pub string_to_bytes : Text → Bytes

-- MrConfigVerifyInput
pub record VerifyInput : Type 0 where
  pub compose_hash : Text
  pub app_id : Text
  pub key_provider_type : KeyProviderKind
  pub key_provider_id : Text
  pub gpu_policy_hash : Option Text
  pub instance_id : Option Text
  pub init_script_hashes : Option (List Text)

abbrev pub mr_config_id_length : ℕ
mr_config_id_length = 48

-- KEY_PROVIDER_BYTE
abbrev pub key_provider_byte : KeyProviderKind → ℕ
key_provider_byte no_provider = 0
key_provider_byte local = 1
key_provider_byte kms = 2
key_provider_byte tpm = 3

-- What is thrown on the way is `none`.
abbrev pub if_ok {ℓ κ} : {A : Type ℓ} {B : Type κ} → Option A → (A → Option B) → Option B
if_ok none k = none
if_ok (some a) k = k a

-- The version byte, the bytes behind it, and zeros to the end; set throws where they are too many.
unfoldable pub with_version_byte : ℕ → Bytes → Option Bytes
with_version_byte version bytes =
    if ltb mr_config_id_length (suc (length bytes))
    then none
    else some (version ∷ (bytes ++ replicate (mr_config_id_length - suc (length bytes)) 0))

abbrev pub mr_config_v3_domain : Text
mr_config_v3_domain = lit "dstack-mr-config-v3:"

-- The input of buildMrConfigV3Document
abbrev pub document_input : VerifyInput → MrConfigInput
document_input i = record {
  app_id = some i.app_id;
  compose_hash = i.compose_hash;
  gpu_policy_hash = i.gpu_policy_hash;
  key_provider = i.key_provider_type;
  key_provider_id = some i.key_provider_id;
  instance_id = i.instance_id;
  init_script_hashes = i.init_script_hashes;
}

abbrev pub value_if_ok {ℓ} : {A : Type ℓ} → Result A → Option A
value_if_ok (ok a) = some a
value_if_ok (threw e) = none

-- The layout that the version byte names.
pub data Layout : Type 0 where
  v1 v2 v3 : Layout

unfoldable pub layout_of : Text → Option Layout
unfolding text_eq
layout_of tag =
    if text_eq tag (lit "01")
    then some v1
    else if text_eq tag (lit "02")
    then some v2
    else if text_eq tag (lit "03")
    then some v3
    else none

-- replace(/^0x/i, "").toLowerCase()
unfoldable pub bare_of : (Text → Text) → Text → Text
unfolding strip_0x
bare_of to_lower id = to_lower (strip_0x id)

module _ (viem : Viem) where
  abbrev pub hex_of : ℕ → Bytes → Option Text
  hex_of version bytes =
      if_ok (with_version_byte version bytes) (λ result. some (viem.to_hex result))

  -- getMrConfigIdV1
  unfoldable pub get_mr_config_id_v1 : Text → Option Text
  unfolding with_version_byte
  get_mr_config_id_v1 compose_hash = if_ok (viem.to_bytes compose_hash) (λ bytes. hex_of 1 bytes)

  abbrev pub key_provider_id_bytes : Text → Option Bytes
  unfolding text_eq
  key_provider_id_bytes id = if text_eq id (lit "0x") then some [] else viem.to_bytes id

  -- getMrConfigId
  unfoldable pub get_mr_config_id : VerifyInput → Option Text
  unfolding with_version_byte key_provider_id_bytes
  get_mr_config_id i = if_ok (viem.to_bytes i.compose_hash) (λ compose_hash.
      if_ok (viem.to_bytes i.app_id) (λ app_id.
        if_ok (key_provider_id_bytes i.key_provider_id) (λ key_provider_id.
          let payload =
            compose_hash ++ (app_id ++ (key_provider_byte i.key_provider_type ∷ key_provider_id)) in
          if_ok (viem.to_bytes (viem.keccak256 payload)) (λ hash. hex_of 2 hash))))

  -- hashMrConfigV3Document
  unfoldable pub hash_document : MrConfigDocument → Option Bytes
  unfolding canonicalize
  hash_document d = viem.to_bytes (
      viem.sha256
        (viem.string_to_bytes mr_config_v3_domain ++ (0 ∷ viem.string_to_bytes (canonicalize d))))

  -- getMrConfigIdV3
  unfoldable pub get_mr_config_id_v3 : MrConfigDocument → Option Text
  unfolding hash_document with_version_byte
  get_mr_config_id_v3 d = if_ok (hash_document d) (λ hash. hex_of 3 hash)

  -- getSnpHostDataV3
  unfoldable pub get_snp_host_data_v3 : MrConfigDocument → Option Text
  unfolding hash_document
  get_snp_host_data_v3 d = if_ok (hash_document d) (λ hash. some (viem.to_hex hash))

  module _ (to_lower : Text → Text) where
    -- The identifier that the switch computes.
    unfoldable pub expected : Layout → VerifyInput → Option Text
    unfolding get_mr_config_id_v1 get_mr_config_id get_mr_config_id_v3 build_document
    expected v1 i = get_mr_config_id_v1 i.compose_hash
    expected v2 i = get_mr_config_id i
    expected v3 i =
        if_ok (value_if_ok (build_document to_lower (document_input i)))
          (λ d. get_mr_config_id_v3 d)

    unfoldable pub compare_expected : Text → Option Layout → VerifyInput → Option Bool
    unfolding expected bare_of text_eq
    compare_expected bare none i = some false
    compare_expected bare (some layout) i =
        if_ok (expected layout i) (λ id. some (text_eq (bare_of to_lower id) bare))

    -- verifyMrConfigId
    unfoldable pub verify_mr_config_id : Text → VerifyInput → Option Bool
    unfolding bare_of compare_expected layout_of
    verify_mr_config_id id i =
        let bare = bare_of to_lower id in
        if not (length bare == mr_config_id_length * 2)
        then some false
        else compare_expected bare (layout_of (take 2 bare)) i
