-- ===== src/Names/Shape.antt =====
-- `convertToHostname`.
use phala_cloud.Common.{
  ℕ, Text, lit, Bool, false, not, ◌&&◌, ◌||◌, [], ◌∷◌, ◌++◌, if◌then◌else◌, ◌==◌, leb, ltb,
  is_empty, is_space, length, take, map,
}
use phala_cloud.Names.{is_alnum, is_valid_hostname}

-- "$1-$2" between a lower-case and an upper-case letter
unfoldable pub split_camel : Text → Text
split_camel [] = []
split_camel (c ∷ []) = c ∷ []
split_camel (c ∷ d ∷ s) =
    let rest = split_camel (d ∷ s) in
    if leb b'a' c && leb c b'z' && leb b'A' d && leb d b'Z' then c ∷ b'-' ∷ rest else c ∷ rest

-- A unit after the replacements of "_" and of all but letters, digits, spaces and dashes.
unfoldable pub kept_unit : ℕ → ℕ
unfolding is_alnum
kept_unit c = if c == b'_' then b'-' else if is_alnum c || is_space c || c == b'-' then c else b'-'

-- .replace(/\s+/g, "-"), with whether the unit before is a space
unfoldable pub join_spaces : Bool → Text → Text
join_spaces inside [] = []
join_spaces inside (c ∷ s) =
    let rest = join_spaces (is_space c) s in
    if is_space c then (if inside then rest else b'-' ∷ rest) else c ∷ rest

-- .replace(/-+/g, "-"), with whether the unit before is a dash
unfoldable pub squeeze_dashes : Bool → Text → Text
squeeze_dashes inside [] = []
squeeze_dashes inside (c ∷ s) =
    let rest = squeeze_dashes (c == b'-') s in if inside && c == b'-' then rest else c ∷ rest

-- .replace(/^-+/, "")
unfoldable pub strip_start : Text → Text
strip_start [] = []
strip_start (c ∷ s) = let rest = strip_start s in if c == b'-' then rest else c ∷ s

-- .replace(/-+$/, "")
unfoldable pub strip_end : Text → Text
strip_end [] = []
strip_end (c ∷ s) = let rest = strip_end s in if c == b'-' && is_empty rest then [] else c ∷ rest

-- Steps 1 to 3.
unfoldable pub cleaned : (Text → Text) → Text → Text
unfolding strip_end strip_start squeeze_dashes join_spaces kept_unit split_camel
cleaned to_lower input = strip_end (
    strip_start
      (squeeze_dashes false (join_spaces false (map kept_unit (to_lower (split_camel input))))))

unfoldable pub starts_digit : Text → Bool
starts_digit [] = false
starts_digit (c ∷ s) = leb b'0' c && leb c b'9'

abbrev pub prefixed : Text → Text
prefixed s = lit "dstack-app-" ++ s

abbrev pub named : Text → Text
unfolding starts_digit
named s = if starts_digit s then prefixed s else s

abbrev pub long_enough : Text → Text
long_enough s = if ltb (length s) 5 then prefixed s else s

-- The prefixes and the cut of step 4.
unfoldable pub shaped : Text → Text
unfolding starts_digit strip_end
shaped s = strip_end (take 63 (long_enough (named s)))

-- generateFallbackHostname, with the digits of the time and of the random number
unfoldable pub fallback_hostname : Text → Text → Text
fallback_hostname timestamp random = lit "dstack-app-" ++ (timestamp ++ (b'-' ∷ random))

-- convertToHostname, with what its fallback reads
unfoldable pub convert_to_hostname : (Text → Text) → Text → Text → Text → Text
unfolding cleaned shaped is_valid_hostname fallback_hostname
convert_to_hostname to_lower timestamp random input =
    let fallback = fallback_hostname timestamp random in
    let result = shaped (cleaned to_lower input) in
    if is_empty (cleaned to_lower input)
    then fallback
    else if is_empty result
    then fallback
    else if not (is_valid_hostname result)
    then fallback
    else result

-- generateDefaultCvmName, with the five random units and the three of a long prefix
unfoldable pub generate_default_cvm_name : Text → Text → Text → Text
generate_default_cvm_name random short_random prefix =
    if ltb 63 (length (prefix ++ (b'-' ∷ random)))
    then take 55 prefix ++ (b'-' ∷ short_random)
    else prefix ++ (b'-' ∷ random)
