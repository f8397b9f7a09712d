-- ===== src/MrConfig/Tests.antt =====
-- Documents from small inputs, and each theorem at one.
use phala_cloud.Common.{
  ℕ, Text, lit, true, false, ◌&&◌, none, some, [], ◌∷◌, ◌++◌, ◌≡◌, refl, map, all, ◌+◌, leb,
  if◌then◌else◌, ap, arith, decimal,
}
use phala_cloud.MrConfig.{
  kms, MrConfigInput, MrConfigDocument, ok, threw, wrong_bytes, not_hex, too_many_scripts, strip_0x,
  is_lower_hex, expect_byte_length, normalize_hex, required_bytes, set_bare, optional_bytes,
  script_hashes, init_scripts, build_document,
}
use phala_cloud.MrConfig.Laws.{IsBytes, IsDocument, as_input, build_document-IsDocument}
use phala_cloud.Compose.{text_leb}
use phala_cloud.Compose.Print.{quote}
use phala_cloud.MrConfig.Canonical.{
  insert_member, sort_members, join, value_text, member_text, member_texts, canonicalize,
}
use phala_cloud.MrConfig.Canonical.Unique.{canonicalize_injective}
use phala_cloud.MrConfig.Again.{build_document-as_input}

runs : Unit {0}
unfolding strip_0x expect_byte_length normalize_hex required_bytes set_bare optional_bytes
    script_hashes init_scripts build_document decimal
runs = tt

abbrev small_unit : ℕ → ℕ
small_unit c = if leb b'A' c && leb c b'Z' then c + 32 else c

abbrev pub small : Text → Text
small s = map small_unit s

small_unit-hex : (c : ℕ) → is_lower_hex c ≡ true → small_unit c ≡ c
small_unit-hex c h = let solid : (leb b'A' c && leb c b'Z') ≡ false = ground arith in rw solid refl

pub small-hex : (s : Text) → all is_lower_hex s ≡ true → small s ≡ s
small-hex [] h = refl
small-hex (c ∷ s) h =
    let first : is_lower_hex c ≡ true = ground arith in
    let rest : all is_lower_hex s ≡ true = ground arith in
    rw (small_unit-hex c first) (ap (λ (t : Text). c ∷ t) (small-hex s rest))

abbrev pub hash : Text
hash = lit "00112233445566778899aabbccddeeff00112233445566778899aabbccddeeff"

abbrev input : MrConfigInput
input = record {
  app_id = some (lit "0x50B0e827cc6c53f4010b57e588a18c5ef9388cc1");
  compose_hash = lit "0X00112233445566778899AABBCCDDEEFF00112233445566778899aabbccddeeff";
  gpu_policy_hash = none;
  key_provider = kms;
  key_provider_id = some (lit "0xAb");
  instance_id = some (lit "0x");
  init_script_hashes = some (hash ∷ []);
}

abbrev document : MrConfigDocument
document = record {
  app_id = some (lit "50b0e827cc6c53f4010b57e588a18c5ef9388cc1");
  compose_hash = hash;
  gpu_policy_hash = none;
  key_provider = kms;
  key_provider_id = some (lit "ab");
  instance_id = none;
  init_script_hashes = some (hash ∷ []);
}

built : build_document small input ≡ ok document
unfolding runs
built = refl

short_hash :
    build_document small (record input { compose_hash = lit "0xab" })
    ≡ threw (wrong_bytes (lit "compose_hash") 32 (lit "ab"))
unfolding runs
short_hash = refl

no_hex :
    build_document small (record input { init_script_hashes = some (hash ∷ lit "xyz" ∷ []) })
    ≡ threw (not_hex (lit "init_script_hashes[1]") (lit "xyz"))
unfolding runs
no_hex = refl

six_scripts :
    build_document small
      (record input { init_script_hashes = some (hash ∷ hash ∷ hash ∷ hash ∷ hash ∷ hash ∷ []) })
    ≡ threw too_many_scripts
unfolding runs
six_scripts = refl

build_document-IsDocument_example : IsDocument document
build_document-IsDocument_example = build_document-IsDocument small input document built

hash-IsBytes : IsBytes (some 32) hash
hash-IsBytes = record { hex = refl; even = refl; size = refl; some_byte = refl }

document-IsDocument : IsDocument document
document-IsDocument = record {
  compose_hash = hash-IsBytes;
  app_id = record { hex = refl; even = refl; size = refl; some_byte = refl };
  gpu_policy_hash = tt;
  key_provider_id = record { hex = refl; even = refl; size = tt; some_byte = refl };
  instance_id = tt;
  init_script_hashes = (omega arith, (hash-IsBytes, tt));
}

build_document-as_input_example : build_document small (as_input document) ≡ ok document
build_document-as_input_example =
    build_document-as_input small small-hex document document-IsDocument

printed :
    canonicalize (record document { app_id = none; init_script_hashes = some [] })
    ≡ lit "{\"compose_hash\":\""
      ++ (hash
          ++ lit
              "\",\"init_script_hashes\":[],\"key_provider\":\"kms\",\"key_provider_id\":\"ab\",\"version\":3}")
unfolding insert_member sort_members join value_text member_text member_texts canonicalize quote
    text_leb decimal
printed = refl

canonicalize_injective_example : document ≡ document
canonicalize_injective_example =
    canonicalize_injective document document document-IsDocument document-IsDocument refl
