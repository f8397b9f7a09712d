-- ===== src/Names.antt =====
-- js/src/types/cvm_id.ts and js/src/utils/hostname.ts: identifiers and names of CVMs. The lower case of
-- text and the random name are parameters.
pub mod CvmId
pub mod Shape
pub mod Dashes
pub mod Hostname
pub mod Generated
mod Tests
use phala_cloud.Common.{
  ℕ, zero, suc, ◌+◌, Text, lit, Bool, true, false, not, ◌&&◌, ◌||◌, Option, none, some, List, [],
  ◌∷◌, ◌++◌, if◌then◌else◌, ◌==◌, leb, ltb, is_empty, is_space, length, take, all, reverse,
}

unfoldable pub is_hex : ℕ → Bool
is_hex c = (leb b'0' c && leb c b'9') || (leb b'a' c && leb c b'f') || (leb b'A' c && leb c b'F')

-- [89ab] without regard to case
unfoldable pub is_variant : ℕ → Bool
is_variant c = c == b'8' || c == b'9' || c == b'a' || c == b'b' || c == b'A' || c == b'B'

-- A part of a pattern: hexadecimal digits, a dash that may be left out, "4", or the variant's digit.
pub data Piece : Type 0 where
  digits : ℕ → Piece
  dash four variant : Piece

unfoldable pub take_digits : ℕ → Text → Option Text
unfolding is_hex
take_digits zero s = some s
take_digits (suc n) [] = none
take_digits (suc n) (c ∷ s) = let rest = take_digits n s in if is_hex c then rest else none

take_unit : (ℕ → Bool) → Text → Option Text
take_unit p [] = none
take_unit p (c ∷ s) = if p c then some s else none

skip_dash : Text → Text
skip_dash [] = []
skip_dash (c ∷ s) = if c == b'-' then s else c ∷ s

-- What is left behind the part, if the text starts with it.
unfoldable pub take_piece : Piece → Text → Option Text
unfolding take_digits take_unit skip_dash is_variant
take_piece (digits n) s = take_digits n s
take_piece dash s = some (skip_dash s)
take_piece four s = take_unit (λ c. c == b'4') s
take_piece variant s = take_unit is_variant s

unfoldable pub matches : List Piece → Text → Bool
unfolding take_piece
matches [] s = is_empty s
matches (p ∷ ps) s = elim (take_piece p s) [ none ↦ false | some r ↦ matches ps r ]

-- uuidRegex
abbrev pub uuid_pattern : List Piece
uuid_pattern =
    digits 8
    ∷ dash
    ∷ digits 4
    ∷ dash
    ∷ four
    ∷ digits 3
    ∷ dash
    ∷ variant
    ∷ digits 3
    ∷ dash
    ∷ digits 12
    ∷ []

-- appIdRegex
abbrev pub app_id_pattern : List Piece
app_id_pattern = digits 40 ∷ []

-- rawValue.replace(/-/g, "")
unfoldable pub strip_dashes : Text → Text
strip_dashes [] = []
strip_dashes (c ∷ s) = let rest = strip_dashes s in if c == b'-' then rest else c ∷ rest

-- The three cases on the raw value.
unfoldable pub correct : Text → Text
unfolding matches strip_dashes
correct raw =
    if matches uuid_pattern raw
    then strip_dashes raw
    else if matches app_id_pattern raw
    then lit "app_" ++ raw
    else raw

unfoldable pub is_letter : ℕ → Bool
is_letter c = (leb b'a' c && leb c b'z') || (leb b'A' c && leb c b'Z')

unfoldable pub is_alnum : ℕ → Bool
unfolding is_letter
is_alnum c = is_letter c || (leb b'0' c && leb c b'9')

unfoldable pub ends_alnum : Text → Bool
unfolding is_alnum
ends_alnum [] = false
ends_alnum (c ∷ []) = is_alnum c
ends_alnum (c ∷ d ∷ s) = ends_alnum (d ∷ s)

unfoldable pub starts_dash : Text → Bool
starts_dash [] = false
starts_dash (c ∷ s) = c == b'-'

unfoldable pub has_double_dash : Text → Bool
unfolding starts_dash
has_double_dash [] = false
has_double_dash (c ∷ s) = (c == b'-' && starts_dash s) || has_double_dash s

abbrev pub is_host_unit : ℕ → Bool
unfolding is_alnum
is_host_unit c = is_alnum c || c == b'-'

-- What follows the first letter in the pattern: nothing, or units with an alphanumeric last, without
-- two dashes in a row.
unfoldable pub is_host_rest : Text → Bool
unfolding ends_alnum has_double_dash is_alnum
is_host_rest [] = true
is_host_rest (c ∷ s) =
    all is_host_unit (c ∷ s) && ends_alnum (c ∷ s) && not (has_double_dash (c ∷ s))

unfoldable pub is_host_text : Text → Bool
unfolding is_host_rest is_letter
is_host_text [] = false
is_host_text (c ∷ s) = is_letter c && is_host_rest s

-- isValidHostname
unfoldable pub is_valid_hostname : Text → Bool
unfolding is_host_text
is_valid_hostname name = leb 5 (length name) && leb (length name) 63 && is_host_text name

pub record CvmIdObject : Type 0 where
  pub id : Option Text
  pub uuid : Option Text
  pub app_id : Option Text
  pub instance_id : Option Text
  pub name : Option Text

abbrev pub present : Option Text → Option Text
present none = none
present (some s) = if is_empty s then none else some s

abbrev pub or_next : Option Text → Option Text → Option Text
or_next none o = o
or_next (some s) o = some s

-- data.id, data.uuid, data.app_id or data.instance_id, the first that counts as true
unfoldable pub raw_value : CvmIdObject → Option Text
raw_value c =
    or_next (present c.id)
      (or_next (present c.uuid) (or_next (present c.app_id) (present c.instance_id)))

abbrev pub met : (Text → Bool) → Option Text → Bool
met p none = true
met p (some s) = p s

with_name : Option Text → Option Text → Option Text
with_name none name = present name
with_name (some raw) name = some (correct raw)

-- CvmIdSchema; `none` is a validation error
unfoldable pub parse_cvm_id : CvmIdObject → Option Text
unfolding raw_value with_name correct matches is_valid_hostname
parse_cvm_id c =
    if met (matches uuid_pattern) c.uuid && met is_valid_hostname c.name
    then with_name (raw_value c) c.name
    else none
