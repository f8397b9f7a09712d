-- ===== src/Names/Generated.antt =====
-- The names that are made with random digits.
use phala_cloud.Common.{
  ℕ, suc, ◌+◌, ◌≤◌, Text, lit, Bool, true, false, not, ◌&&◌, ◌||◌, [], ◌∷◌, ◌++◌, if◌then◌else◌,
  ◌==◌, ltb, is_empty, length, take, all, ◌≡◌, refl, ◌∙◌, inl, inr, arith, Bool-cases,
  length-append, length-take-le,
}
use phala_cloud.Names.{
  is_letter, is_alnum, is_host_unit, starts_dash, has_double_dash, ends_alnum, is_host_rest,
  is_host_text, is_valid_hostname,
}
use phala_cloud.Names.Shape.{
  shaped, cleaned, convert_to_hostname, fallback_hostname, generate_default_cvm_name,
}
use phala_cloud.Names.Dashes.{ends_alnum-cons, alnum-ne-dash}
use phala_cloud.Names.Hostname.{is_host_rest_lem, is_host_text-cons, convert_to_hostname-cleaned}

-- Letters and digits, one at least.
pub record IsDigits (r : Text) : Type 0 where
  pub alnum : all is_alnum r ≡ true
  pub some_digit : is_empty r ≡ false

host_of : (c : ℕ) → is_alnum c ≡ true → is_host_unit c ≡ true
unfolding is_host_unit
host_of c h = rw h refl

all-host : (r : Text) → all is_alnum r ≡ true → all is_host_unit r ≡ true
all-host [] h = refl
all-host (c ∷ r) h =
    let unit : is_alnum c ≡ true = ground arith in rw (host_of c unit) (all-host r (ground arith))

host_dash : is_host_unit b'-' ≡ true
unfolding is_host_unit is_alnum
host_dash = refl

all-joined :
    (s r : Text)
    → all is_host_unit s ≡ true
    → all is_alnum r ≡ true
    → all is_host_unit (s ++ (b'-' ∷ r)) ≡ true
all-joined [] r h k = rw host_dash (all-host r k)
all-joined (c ∷ s) r h k = ground (arith, all-joined s r)

append_not_empty : (s t : Text) → is_empty t ≡ false → is_empty (s ++ t) ≡ false
append_not_empty [] t h = h
append_not_empty (c ∷ s) t h = refl

ends_alnum-append : (s t : Text) → is_empty t ≡ false → ends_alnum (s ++ t) ≡ ends_alnum t
ends_alnum-append [] t h = refl
ends_alnum-append (c ∷ s) t h =
    ends_alnum-cons c (s ++ t) (append_not_empty s t h) ∙ ends_alnum-append s t h

ends_alnum-digits : (r : Text) → all is_alnum r ≡ true → is_empty r ≡ false → ends_alnum r ≡ true
unfolding ends_alnum
ends_alnum-digits [] h n = cc
ends_alnum-digits (c ∷ []) h n = ground arith
ends_alnum-digits (c ∷ d ∷ r) h n = ends_alnum-digits (d ∷ r) (ground arith) refl

starts_dash-digits : (r : Text) → all is_alnum r ≡ true → starts_dash r ≡ false
unfolding starts_dash
starts_dash-digits [] h = refl
starts_dash-digits (c ∷ r) h = alnum-ne-dash c (ground arith)

has_double_dash-digits : (r : Text) → all is_alnum r ≡ true → has_double_dash r ≡ false
unfolding has_double_dash
has_double_dash-digits [] h = refl
has_double_dash-digits (c ∷ r) h =
    rw (alnum-ne-dash c (ground arith)) (has_double_dash-digits r (ground arith))

neither : (a b : Bool) → (a || b) ≡ false → a ≡ false
neither a b h = ground arith

has_double_dash-joined :
    (s r : Text)
    → ends_alnum s ≡ true
    → has_double_dash s ≡ false
    → all is_alnum r ≡ true
    → has_double_dash (s ++ (b'-' ∷ r)) ≡ false
unfolding has_double_dash ends_alnum starts_dash
has_double_dash-joined [] r e d h = cc
has_double_dash-joined (c ∷ []) r e d h =
    rw (alnum-ne-dash c e) (rw (starts_dash-digits r h) (has_double_dash-digits r h))
has_double_dash-joined (c ∷ x ∷ s) r e d h =
    let rest = has_double_dash-joined (x ∷ s) r e (ground arith) h in
    let apart = neither (c == b'-' && x == b'-') (has_double_dash (x ∷ s)) d in rw apart rest

-- What is_host_rest says of a text that is not empty.
record IsHostRest (s : Text) : Type 0 where
  host : all is_host_unit s ≡ true
  last : ends_alnum s ≡ true
  single : has_double_dash s ≡ false

parts_of : (a b d : Bool) → (a && b && not d) ≡ true → (a ≡ true) × (b ≡ true) × (d ≡ false)
parts_of a b d h = (ground arith, ground arith, ground arith)

is_host_rest-parts : (s : Text) → is_empty s ≡ false → is_host_rest s ≡ true → IsHostRest s
unfolding is_host_rest
is_host_rest-parts [] n h = cc
is_host_rest-parts (c ∷ s) n h =
    let (host, last, single) =
      parts_of (all is_host_unit (c ∷ s)) (ends_alnum (c ∷ s)) (has_double_dash (c ∷ s)) h in
    record { host = host; last = last; single = single }

is_host_rest-joined :
    (s r : Text)
    → is_empty s ≡ false
    → is_host_rest s ≡ true
    → IsDigits r
    → is_host_rest (s ++ (b'-' ∷ r)) ≡ true
is_host_rest-joined s r n h d =
    let parts = is_host_rest-parts s n h in
    is_host_rest_lem (s ++ (b'-' ∷ r)) (all-joined s r parts.host d.alnum)
      (λ e.
        ends_alnum-append s (b'-' ∷ r) refl
        ∙ ends_alnum-cons b'-' r d.some_digit
        ∙ ends_alnum-digits r d.alnum d.some_digit)
      (has_double_dash-joined s r parts.last parts.single d.alnum)

is_host_text-parts :
    (c : ℕ) (s : Text)
    → is_host_text (c ∷ s) ≡ true
    → (is_letter c ≡ true) × (is_host_rest s ≡ true)
unfolding is_host_text
is_host_text-parts c s h = (ground arith, ground arith)

is_host_text-joined :
    (p r : Text)
    → 2 ≤ length p
    → is_host_text p ≡ true
    → IsDigits r
    → is_host_text (p ++ (b'-' ∷ r)) ≡ true
is_host_text-joined [] r l h d = let bad : 2 ≤ 0 = l in ground arith
is_host_text-joined (c ∷ []) r l h d = let bad : 2 ≤ 1 = l in ground arith
is_host_text-joined (c ∷ x ∷ s) r l h d =
    let (letter, rest) = is_host_text-parts c (x ∷ s) h in
    is_host_text-cons c (x ∷ (s ++ (b'-' ∷ r))) letter (is_host_rest-joined (x ∷ s) r refl rest d)

-- A dash with letters or digits behind it keeps a valid name valid, as far as the length allows.
is_valid_hostname-joined :
    (p r : Text)
    → is_valid_hostname p ≡ true
    → IsDigits r
    → length p + length r ≤ 62
    → is_valid_hostname (p ++ (b'-' ∷ r)) ≡ true
unfolding is_valid_hostname
is_valid_hostname-joined p r h d l =
    let sum : length (p ++ (b'-' ∷ r)) ≡ length p + suc (length r) = length-append p (b'-' ∷ r) in
    let long : 5 ≤ length p = ground arith in
    let text = is_host_text-joined p r (omega arith) (ground arith) d in
    let short : length (p ++ (b'-' ∷ r)) ≤ 63 = omega arith in
    let enough : 5 ≤ length (p ++ (b'-' ∷ r)) = omega arith in ground arith

dstack_app : is_valid_hostname (lit "dstack-app") ≡ true
unfolding is_valid_hostname ends_alnum has_double_dash starts_dash is_host_unit is_alnum is_letter
dstack_app = refl

is_valid_hostname-fallback_hostname :
    (timestamp random : Text)
    → IsDigits timestamp
    → IsDigits random
    → length timestamp + length random ≤ 51
    → is_valid_hostname (fallback_hostname timestamp random) ≡ true
unfolding fallback_hostname
is_valid_hostname-fallback_hostname timestamp random t r l =
    let first = is_valid_hostname-joined (lit "dstack-app") timestamp dstack_app t (omega arith) in
    let sum : length (lit "dstack-app-" ++ timestamp) ≡ 11 + length timestamp =
      length-append (lit "dstack-app-") timestamp in
    is_valid_hostname-joined (lit "dstack-app-" ++ timestamp) random first r (omega arith)

convert_to_hostname-nothing :
    (to_lower : Text → Text) (timestamp random input : Text)
    → is_empty (cleaned to_lower input) ≡ true
    → convert_to_hostname to_lower timestamp random input ≡ fallback_hostname timestamp random
unfolding convert_to_hostname
convert_to_hostname-nothing to_lower timestamp random input n = rw n refl

-- Whatever the input and the lower case of text are, `convertToHostname` returns a valid host name, where
-- the digits of the time and of the random number are letters or digits, one of each at least and 51
-- together at most: the fallback where cleaning leaves nothing of the input, and otherwise what cleaning
-- leaves with its prefixes and its cut, which never needs the fallback.
pub is_valid_hostname-convert_to_hostname :
    (to_lower : Text → Text) (timestamp random input : Text)
    → IsDigits timestamp
    → IsDigits random
    → length timestamp + length random ≤ 51
    → (is_valid_hostname (convert_to_hostname to_lower timestamp random input) ≡ true)
      × (convert_to_hostname to_lower timestamp random input ≡ (
          if is_empty (cleaned to_lower input)
          then fallback_hostname timestamp random
          else shaped (cleaned to_lower input)))
is_valid_hostname-convert_to_hostname to_lower timestamp random input t r l =
    elim (Bool-cases (is_empty (cleaned to_lower input))) [
      | inl e ↦
          let same = convert_to_hostname-nothing to_lower timestamp random input e in
          let valid = is_valid_hostname-fallback_hostname timestamp random t r l in
          (rw same valid, rw e same)
      | inr e ↦
          let (same, valid) = convert_to_hostname-cleaned to_lower timestamp random input e in
          (valid, rw e same)
    ]

-- `generateDefaultCvmName` gives at most 63 units for every prefix, where the random texts have five
-- and three.
pub length-generate_default_cvm_name :
    (random short_random prefix : Text)
    → length random ≡ 5
    → length short_random ≡ 3
    → length (generate_default_cvm_name random short_random prefix) ≤ 63
unfolding generate_default_cvm_name
length-generate_default_cvm_name random short_random prefix five three =
    let whole = length-append prefix (b'-' ∷ random) in
    let part = length-append (take 55 prefix) (b'-' ∷ short_random) in
    let cut = length-take-le 55 prefix in
    elim (Bool-cases (ltb 63 (length (prefix ++ (b'-' ∷ random))))) [
      | inl e ↦ rw e (omega arith)
      | inr e ↦ rw e (ground arith)
    ]
