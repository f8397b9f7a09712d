-- ===== src/Names/Hostname.antt =====
-- That `convertToHostname` gives a valid name without its fallback, unless nothing is left of the input.
use phala_cloud.Common.{
  ℕ, zero, suc, ◌≤◌, Text, Bool, true, false, ◌&&◌, [], ◌∷◌, ◌==◌, leb, ltb, is_empty, length, take,
  all, map, ◌≡◌, refl, ap, inl, inr, arith, Bool-cases, length-take-le, length-take,
}
use phala_cloud.Names.{
  is_letter, is_alnum, is_host_unit, starts_dash, has_double_dash, ends_alnum, is_host_rest,
  is_host_text, is_valid_hostname,
}
use phala_cloud.Names.Shape.{
  split_camel, kept_unit, join_spaces, squeeze_dashes, strip_start, strip_end, cleaned,
  starts_digit, prefixed, named, long_enough, shaped, convert_to_hostname,
}
use phala_cloud.Names.Dashes.{
  IsLoose, IsLoose-tail, IsLoose-strip_start, IsLoose-strip_end, IsLoose-take,
  starts_dash-strip_start, starts_dash-strip_end, all-squeeze_dashes, all-join_spaces,
  all-kept_unit, has_double_dash-squeeze_dashes, ends_alnum-strip_end, strip_end-solid, is_alnum-of,
  length-strip_end-ge, length-strip_end-le, strip_end-alnum,
}

-- A text that needs only its start and its length put right.
record IsSlug (s : Text) : Type 0 where
  loose : IsLoose s
  start : starts_dash s ≡ false
  last : ends_alnum s ≡ true

starts_letter : Text → Bool
starts_letter [] = false
starts_letter (c ∷ s) = is_letter c

cleaned-IsSlug :
    (to_lower : Text → Text) (input : Text)
    → is_empty (cleaned to_lower input) ≡ false
    → IsSlug (cleaned to_lower input)
unfolding cleaned
cleaned-IsSlug to_lower input n =
    let s : Text = join_spaces false (map kept_unit (to_lower (split_camel input))) in
    let loose : IsLoose (squeeze_dashes false s) = record {
      host = all-squeeze_dashes false s (
          all-join_spaces false (map kept_unit (to_lower (split_camel input)))
            (all-kept_unit (to_lower (split_camel input))));
      single = has_double_dash-squeeze_dashes false s;
    } in
    let y : Text = strip_start (squeeze_dashes false s) in
    let on : IsLoose y = IsLoose-strip_start (squeeze_dashes false s) loose in
    record {
      loose = IsLoose-strip_end y on;
      start = starts_dash-strip_end y (starts_dash-strip_start (squeeze_dashes false s));
      last = ends_alnum-strip_end y on.host n;
    }

not-IsSlug-nil {ℓ} : {A : Type ℓ} → IsSlug [] → A
unfolding ends_alnum
not-IsSlug-nil h = let bad = h.last in cc

IsSlug-prefixed : (s : Text) → IsSlug s → IsSlug (prefixed s)
unfolding is_host_unit is_alnum is_letter starts_dash has_double_dash ends_alnum
IsSlug-prefixed [] h = not-IsSlug-nil h
IsSlug-prefixed (c ∷ s) h =
    let more = rw h.start at h.loose.single in
    record {
      loose = record { host = h.loose.host; single = rw h.start more };
      start = refl;
      last = h.last;
    }

starts_letter-prefixed : (s : Text) → starts_letter (prefixed s) ≡ true
unfolding starts_letter is_letter
starts_letter-prefixed s = refl

letter_of : (c : ℕ) → is_alnum c ≡ true → (leb b'0' c && leb c b'9') ≡ false → is_letter c ≡ true
unfolding is_alnum is_letter
letter_of c h e = ground arith

-- A text that starts with a letter as well.
record IsNamed (s : Text) : Type 0 where
  slug : IsSlug s
  letter : starts_letter s ≡ true

IsNamed-prefixed : (s : Text) → IsSlug s → IsNamed (prefixed s)
IsNamed-prefixed s h = record { slug = IsSlug-prefixed s h; letter = starts_letter-prefixed s }

all-head : (c : ℕ) (s : Text) → all is_host_unit (c ∷ s) ≡ true → is_host_unit c ≡ true
all-head c s h = ground arith

starts_dash-head : (c : ℕ) (s : Text) → starts_dash (c ∷ s) ≡ false → (c == b'-') ≡ false
unfolding starts_dash
starts_dash-head c s h = h

IsNamed-named : (s : Text) → IsSlug s → IsNamed (named s)
unfolding starts_digit starts_letter
IsNamed-named [] h = not-IsSlug-nil h
IsNamed-named (c ∷ s) h =
    let unit = is_alnum-of c (all-head c s h.loose.host) (starts_dash-head c s h.start) in
    elim (Bool-cases (leb b'0' c && leb c b'9')) [
      | inl e ↦ rw e (IsNamed-prefixed (c ∷ s) h)
      | inr e ↦ rw e (record { slug = h; letter = letter_of c unit e })
    ]

IsNamed-long_enough : (s : Text) → IsNamed s → IsNamed (long_enough s)
IsNamed-long_enough s h = elim (Bool-cases (ltb (length s) 5)) [
  | inl e ↦ rw e (IsNamed-prefixed s h.slug)
  | inr e ↦ rw e h
]

length-prefixed : (s : Text) → 5 ≤ length (prefixed s)
length-prefixed s = omega arith

length-long_enough : (s : Text) → 5 ≤ length (long_enough s)
length-long_enough s = elim (Bool-cases (ltb (length s) 5)) [
  | inl e ↦ rw e (length-prefixed s)
  | inr e ↦ rw e (ground arith)
]

take-short : (n : ℕ) (s : Text) → length s ≤ n → take n s ≡ s
take-short zero [] h = refl
take-short zero (c ∷ s) h = let bad : 1 ≤ 0 = omega arith in ground arith
take-short (suc n) [] h = refl
take-short (suc n) (c ∷ s) h = ap (λ (t : Text). c ∷ t) (take-short n s (omega arith))

-- The cut leaves at least five units.
length-cut : (s : Text) → IsNamed s → 5 ≤ length s → 5 ≤ length (strip_end (take 63 s))
length-cut s h l = elim (Bool-cases (leb (length s) 63)) [
  | inl e ↦ rw (take-short 63 s (ground arith)) (rw (strip_end-alnum s h.slug.last) l)
  | inr e ↦
      let cut = IsLoose-take 63 s h.slug.loose in
      let few = length-strip_end-ge (take 63 s) cut.single in
      let same = length-take 63 s in let long : 63 ≤ length s = ground arith in omega arith
]

pub is_host_rest_lem :
    (s : Text)
    → all is_host_unit s ≡ true
    → (is_empty s ≡ false → ends_alnum s ≡ true)
    → has_double_dash s ≡ false
    → is_host_rest s ≡ true
unfolding is_host_rest
is_host_rest_lem [] a e d = refl
is_host_rest_lem (c ∷ s) a e d = rw a (rw (e refl) (rw d refl))

is_host_rest-strip_end : (s : Text) → IsLoose s → is_host_rest (strip_end s) ≡ true
is_host_rest-strip_end s h =
    let left = IsLoose-strip_end s h in
    is_host_rest_lem (strip_end s) left.host (ends_alnum-strip_end s h.host) left.single

starts_letter-head : (c : ℕ) (s : Text) → starts_letter (c ∷ s) ≡ true → is_letter c ≡ true
unfolding starts_letter
starts_letter-head c s h = h

pub is_host_text-cons :
    (c : ℕ) (s : Text) → is_letter c ≡ true → is_host_rest s ≡ true → is_host_text (c ∷ s) ≡ true
unfolding is_host_text
is_host_text-cons c s l r = rw l r

is_host_text-cut : (s : Text) → IsNamed s → is_host_text (strip_end (take 63 s)) ≡ true
is_host_text-cut [] h = not-IsSlug-nil h.slug
is_host_text-cut (c ∷ s) h =
    let rest = IsLoose-take 62 s (IsLoose-tail c s h.slug.loose) in
    let letter = starts_letter-head c s h.letter in
    let solid = starts_dash-head c s h.slug.start in
    rw (strip_end-solid c (take 62 s) solid)
      (is_host_text-cons c (strip_end (take 62 s)) letter (is_host_rest-strip_end (take 62 s) rest))

is_valid_hostname-cut :
    (s : Text) → IsNamed s → 5 ≤ length s → is_valid_hostname (strip_end (take 63 s)) ≡ true
unfolding is_valid_hostname
is_valid_hostname-cut s h l =
    let long = length-cut s h l in
    let short = length-strip_end-le (take 63 s) in
    let cut = length-take-le 63 s in let text = is_host_text-cut s h in ground arith

is_valid_hostname-shaped : (s : Text) → IsSlug s → is_valid_hostname (shaped s) ≡ true
unfolding shaped
is_valid_hostname-shaped s h =
    is_valid_hostname-cut (long_enough (named s))
      (IsNamed-long_enough (named s) (IsNamed-named s h)) (length-long_enough (named s))

is_valid_hostname-nil : is_valid_hostname [] ≡ false
unfolding is_valid_hostname
is_valid_hostname-nil = refl

shaped_ne_nil : (s : Text) → is_valid_hostname s ≡ true → is_empty s ≡ false
shaped_ne_nil [] h = let bad = is_valid_hostname-nil in cc
shaped_ne_nil (c ∷ s) h = refl

convert_to_hostname-shaped :
    (to_lower : Text → Text) (timestamp random input : Text)
    → is_empty (cleaned to_lower input) ≡ false
    → is_valid_hostname (shaped (cleaned to_lower input)) ≡ true
    → convert_to_hostname to_lower timestamp random input ≡ shaped (cleaned to_lower input)
unfolding convert_to_hostname
convert_to_hostname-shaped to_lower timestamp random input n valid =
    rw (n, shaped_ne_nil (shaped (cleaned to_lower input)) valid, valid) refl

-- The fallback is reached only where cleaning leaves nothing.
pub convert_to_hostname-cleaned :
    (to_lower : Text → Text) (timestamp random input : Text)
    → is_empty (cleaned to_lower input) ≡ false
    → (convert_to_hostname to_lower timestamp random input ≡ shaped (cleaned to_lower input))
      × (is_valid_hostname (convert_to_hostname to_lower timestamp random input) ≡ true)
convert_to_hostname-cleaned to_lower timestamp random input n =
    let s : Text = cleaned to_lower input in
    let valid = is_valid_hostname-shaped s (cleaned-IsSlug to_lower input n) in
    let same = convert_to_hostname-shaped to_lower timestamp random input n valid in
    (same, rw same valid)
