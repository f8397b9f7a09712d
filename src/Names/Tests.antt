-- ===== src/Names/Tests.antt =====
-- Names and identifiers at small inputs, and each theorem at one.
use phala_cloud.Common.{
  is_empty, ℕ, Text, lit, some, true, false, ◌≡◌, refl, ◌≤◌, arith, length, is_space, map, ◌+◌,
  ◌&&◌, leb, if◌then◌else◌,
}
use phala_cloud.Names.{
  is_hex, take_digits, take_unit, skip_dash, is_variant, take_piece, matches, uuid_pattern,
  strip_dashes, correct, is_letter, is_alnum, ends_alnum, starts_dash, has_double_dash,
  is_host_unit, is_host_rest, is_host_text, is_valid_hostname, raw_value, with_name, parse_cvm_id,
}
use phala_cloud.Names.CvmId.{by_id, parse_cvm_id_idem}
use phala_cloud.Names.Shape.{
  split_camel, kept_unit, join_spaces, squeeze_dashes, strip_start, strip_end, cleaned,
  starts_digit, shaped, fallback_hostname, convert_to_hostname, generate_default_cvm_name,
}
use phala_cloud.Names.Generated.{
  IsDigits, is_valid_hostname-convert_to_hostname, length-generate_default_cvm_name,
}

runs : Unit {0}
unfolding is_hex take_digits take_unit skip_dash is_variant take_piece matches strip_dashes correct
    is_letter is_alnum ends_alnum starts_dash has_double_dash is_host_unit is_host_rest is_host_text
    is_valid_hostname raw_value with_name parse_cvm_id split_camel kept_unit join_spaces
    squeeze_dashes strip_start strip_end cleaned starts_digit shaped fallback_hostname
    convert_to_hostname generate_default_cvm_name is_space
runs = tt

abbrev uuid : Text
uuid = lit "550e8400-e29b-41d4-a716-446655440000"

abbrev lower_unit : ℕ → ℕ
lower_unit c = if leb b'A' c && leb c b'Z' then c + 32 else c

abbrev small : Text → Text
small s = map lower_unit s

abbrev converted : Text → Text
converted s = convert_to_hostname small (lit "mb1x") (lit "4d5e") s

camel_converted : converted (lit "MyAwesomeProject") ≡ lit "my-awesome-project"
unfolding runs
camel_converted = refl

short_converted : converted (lit "te_st?") ≡ lit "te-st"
unfolding runs
short_converted = refl

digits_converted : converted (lit "--42  7--") ≡ lit "dstack-app-42-7"
unfolding runs
digits_converted = refl

nothing_converted : converted (lit "!?") ≡ lit "dstack-app-mb1x-4d5e"
unfolding runs
nothing_converted = refl

-- Math.random() at 0 has no digits behind the point.
no_random : is_valid_hostname (fallback_hostname (lit "mb1x") (lit "")) ≡ false
unfolding runs
no_random = refl

dash_prefix :
    is_valid_hostname (generate_default_cvm_name (lit "a1b2c") (lit "a1b") (lit "app-")) ≡ false
unfolding runs
dash_prefix = refl

uuid_parsed : parse_cvm_id (by_id uuid) ≡ some (lit "550e8400e29b41d4a716446655440000")
unfolding runs
uuid_parsed = refl

app_parsed :
    parse_cvm_id (by_id (lit "50b0e827cc6c53f4010b57e588a18c5ef9388cc1"))
    ≡ some (lit "app_50b0e827cc6c53f4010b57e588a18c5ef9388cc1")
unfolding runs
app_parsed = refl

uuid_matches : matches uuid_pattern uuid ≡ true
unfolding runs
uuid_matches = refl

uuid_raw : raw_value (by_id uuid) ≡ some uuid
unfolding runs
uuid_raw = refl

parse_cvm_id_idem_example :
    parse_cvm_id (by_id (lit "550e8400e29b41d4a716446655440000"))
    ≡ some (lit "550e8400e29b41d4a716446655440000")
parse_cvm_id_idem_example =
    parse_cvm_id_idem (by_id uuid) uuid (lit "550e8400e29b41d4a716446655440000") uuid_raw
      uuid_parsed

time_IsDigits : IsDigits (lit "mb1x")
unfolding runs
time_IsDigits = record { alnum = refl; some_digit = refl }

random_IsDigits : IsDigits (lit "4d5e")
unfolding runs
random_IsDigits = record { alnum = refl; some_digit = refl }

is_valid_hostname-convert_to_hostname_example :
    (is_valid_hostname (converted (lit "My App!")) ≡ true)
    × (converted (lit "My App!") ≡ (
        if is_empty (cleaned small (lit "My App!"))
        then fallback_hostname (lit "mb1x") (lit "4d5e")
        else shaped (cleaned small (lit "My App!"))))
is_valid_hostname-convert_to_hostname_example =
    is_valid_hostname-convert_to_hostname small (lit "mb1x") (lit "4d5e") (lit "My App!")
      time_IsDigits random_IsDigits (omega arith)

length-generate_default_cvm_name_example :
    length (generate_default_cvm_name (lit "a1b2c") (lit "a1b") (lit "my-project")) ≤ 63
length-generate_default_cvm_name_example =
    length-generate_default_cvm_name (lit "a1b2c") (lit "a1b") (lit "my-project") refl refl

five_IsDigits : IsDigits (lit "a1b2c")
unfolding runs
five_IsDigits = record { alnum = refl; some_digit = refl }

project_valid : is_valid_hostname (lit "my-project") ≡ true
unfolding runs
project_valid = refl
