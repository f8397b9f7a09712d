-- ===== src/MrConfig/Id/Tests.antt =====
-- Identifiers of small inputs, and each theorem at one.
use phala_cloud.Common.{
  ℕ, zero, suc, ◌<◌, ◌/◌, ◌+◌, ◌-◌, ◌*◌, ◌%◌, Text, lit, true, false, none, some, [], ◌∷◌, ◌++◌,
  ◌≡◌, refl, sym, ap, ◌∙◌, subst, map, all, All, All-append, length, take, replicate, length-take,
  length-append, if◌then◌else◌, leb, arith, text_eq, decimal,
}
use phala_cloud.Compose.{text_leb}
use phala_cloud.Compose.Print.{quote}
use phala_cloud.MrConfig.{
  kms, strip_0x, expect_byte_length, normalize_hex, required_bytes, set_bare, optional_bytes,
  script_hashes, init_scripts, build_document,
}
use phala_cloud.MrConfig.Tests.{small, small-hex, hash}
use phala_cloud.MrConfig.Canonical.{
  insert_member, sort_members, join, value_text, member_text, member_texts, canonicalize,
}
use phala_cloud.MrConfig.Canonical.Ascii.{is_ascii}
use phala_cloud.MrConfig.Id.{
  Bytes, Viem, VerifyInput, v3, with_version_byte, layout_of, get_mr_config_id_v1, get_mr_config_id,
  hash_document, get_mr_config_id_v3, expected, bare_of, compare_expected, verify_mr_config_id,
}
use phala_cloud.MrConfig.Id.Bytes.{hex_digit, IsByte, hex_text, IsViem, IsHashing}
use phala_cloud.MrConfig.Id.Accepts.{verify_mr_config_id-expected}
use phala_cloud.MrConfig.Id.Binds.{AreBound, verify_mr_config_id-binds}

id_runs : Unit {0}
unfolding strip_0x expect_byte_length normalize_hex required_bytes set_bare optional_bytes
    script_hashes init_scripts build_document decimal insert_member sort_members join value_text
    member_text member_texts canonicalize quote text_leb text_eq with_version_byte layout_of
    get_mr_config_id_v1 get_mr_config_id hash_document get_mr_config_id_v3 expected bare_of
    compare_expected verify_mr_config_id hex_text
id_runs = tt

abbrev digit_value : ℕ → ℕ
digit_value c = if leb c b'9' then c - b'0' else c - b'a' + 10

abbrev parse_pairs : Text → Bytes
parse_pairs [] = []
parse_pairs (c ∷ []) = []
parse_pairs (c ∷ d ∷ s) = (digit_value c * 16 + digit_value d) % 256 ∷ parse_pairs s

abbrev unit_byte : ℕ → ℕ
unit_byte c = c % 256

abbrev first_bytes : Bytes → Bytes
first_bytes bs = take 32 (map unit_byte bs ++ replicate 32 0)

-- A hash that keeps the first bytes.
abbrev small_viem : Viem
unfolding hex_text strip_0x
small_viem = record {
  to_bytes = λ s. some (parse_pairs (strip_0x s));
  to_hex = λ bs. lit "0x" ++ hex_text bs;
  sha256 = λ bs. lit "0x" ++ hex_text (first_bytes bs);
  keccak256 = λ bs. lit "0x" ++ hex_text (first_bytes bs);
  string_to_bytes = map unit_byte;
}

IsByte-mod : (n : ℕ) → IsByte (n % 256)
IsByte-mod n = omega arith

parse_pairs-IsByte : (s : Text) → All IsByte (parse_pairs s)
parse_pairs-IsByte [] = tt
parse_pairs-IsByte (c ∷ []) = tt
parse_pairs-IsByte (c ∷ d ∷ s) =
    (IsByte-mod (digit_value c * 16 + digit_value d), parse_pairs-IsByte s)

digit_value-hex_digit : (n : ℕ) → n < 16 → digit_value (hex_digit n) ≡ n
digit_value-hex_digit n h = ground arith

join_digits : (b m n : ℕ) → b < 256 → m ≡ b / 16 → n ≡ b % 16 → (m * 16 + n) % 256 ≡ b
join_digits b m n h p q = omega arith

parse_pairs-hex_text : (bs : Bytes) → All IsByte bs → parse_pairs (hex_text bs) ≡ bs
unfolding hex_text
parse_pairs-hex_text [] h = refl
parse_pairs-hex_text (b ∷ bs) h =
    let high = digit_value-hex_digit (b / 16) (omega arith) in
    let low = digit_value-hex_digit (b % 16) (omega arith) in
    let first =
      join_digits b (digit_value (hex_digit (b / 16))) (digit_value (hex_digit (b % 16))) h.0 high
        low in
    λ i. first i ∷ parse_pairs-hex_text bs h.1 i

map-IsByte : (bs : Bytes) → All IsByte (map unit_byte bs)
map-IsByte [] = tt
map-IsByte (b ∷ bs) = (IsByte-mod b, map-IsByte bs)

take-IsByte : (n : ℕ) (bs : Bytes) → All IsByte bs → All IsByte (take n bs)
take-IsByte zero bs h = tt
take-IsByte (suc n) [] h = tt
take-IsByte (suc n) (b ∷ bs) h = (h.0, take-IsByte n bs h.1)

of_zeros : (n : ℕ) → All IsByte (replicate n 0)
of_zeros zero = tt
of_zeros (suc n) = (omega arith, of_zeros n)

zeros-AreBytes : All IsByte (replicate 32 0)
zeros-AreBytes = of_zeros 32

first_bytes-IsByte : (bs : Bytes) → All IsByte (first_bytes bs)
first_bytes-IsByte bs =
    take-IsByte 32 (map unit_byte bs ++ replicate 32 0)
      (All-append IsByte (map unit_byte bs) (replicate 32 0) (map-IsByte bs) zeros-AreBytes)

length-first_bytes : (bs : Bytes) → length (first_bytes bs) ≡ 32
length-first_bytes bs = omega (
  arith,
  length-take 32 (map unit_byte bs ++ replicate 32 0),
  length-append (map unit_byte bs) (replicate 32 0),
)

map-ascii : (s : Text) → all is_ascii s ≡ true → map unit_byte s ≡ s
map-ascii [] h = refl
map-ascii (c ∷ s) h =
    let one : c % 256 ≡ c = ground arith in
    let rest = map-ascii s (ground arith) in λ i. one i ∷ rest i

small_viem-IsViem : IsViem small_viem small
unfolding small_viem strip_0x
small_viem-IsViem = record {
  to_bytes-byte = λ s bs h.
      let same : parse_pairs (strip_0x s) ≡ bs = cc h in
      subst (All IsByte) same (parse_pairs-IsByte (strip_0x s));
  to_hex-digits = λ bs h. refl;
  sha256-length = λ payload bs h.
      let same : parse_pairs (hex_text (first_bytes payload)) ≡ bs = cc h in
      ap length (sym same ∙ parse_pairs-hex_text (first_bytes payload) (first_bytes-IsByte payload))
      ∙ length-first_bytes payload;
  lower_hex = small-hex;
}

small_viem-IsHashing : IsHashing small_viem
unfolding small_viem strip_0x
small_viem-IsHashing = record {
  to_bytes-digits = λ bs h. ap some (parse_pairs-hex_text bs h);
  sha256-digest = λ payload. record {
    digest = first_bytes payload;
    are_bytes = first_bytes-IsByte payload;
    size = length-first_bytes payload;
    printed = refl;
  };
  string_to_bytes-ascii = map-ascii;
}

abbrev asked : VerifyInput
asked = record {
  compose_hash = hash;
  app_id = lit "50b0e827cc6c53f4010b57e588a18c5ef9388cc1";
  key_provider_type = kms;
  key_provider_id = lit "0xab";
  gpu_policy_hash = none;
  instance_id = none;
  init_script_hashes = none;
}

-- The same with other spellings of two fields.
abbrev spelled : VerifyInput
spelled = record asked {
  app_id = lit "0x50B0E827cc6c53f4010b57e588a18c5ef9388cc1";
  key_provider_id = lit "AB";
}

abbrev identifier : Text
identifier =
    lit
      "0364737461636b2d6d722d636f6e6669672d76333a007b226170705f6964223a22000000000000000000000000000000"

asked_id : expected small_viem small v3 asked ≡ some (lit "0x" ++ identifier)
unfolding id_runs small_viem
asked_id = refl

accepted : verify_mr_config_id small_viem small identifier spelled ≡ some true
unfolding id_runs small_viem
accepted = refl

cut_short : verify_mr_config_id small_viem small (lit "03") spelled ≡ some false
unfolding id_runs small_viem
cut_short = refl

identifier-layout : layout_of (take 2 (bare_of small identifier)) ≡ some v3
unfolding id_runs
identifier-layout = refl

verify_mr_config_id-expected_example :
    verify_mr_config_id small_viem small (lit "0x" ++ identifier) asked ≡ some true
verify_mr_config_id-expected_example =
    verify_mr_config_id-expected small_viem small small_viem-IsViem v3 asked
      (lit "0x" ++ identifier) asked_id

also_accepted : verify_mr_config_id small_viem small identifier asked ≡ some true
unfolding id_runs small_viem
also_accepted = refl

verify_mr_config_id-binds_example : AreBound small_viem small asked spelled
verify_mr_config_id-binds_example =
    verify_mr_config_id-binds small_viem small small_viem-IsViem small_viem-IsHashing identifier
      asked spelled identifier-layout also_accepted accepted
