-- ===== src/Names/Dashes.antt =====
-- What the clean-up of dashes and spaces leaves.
use phala_cloud.Common.{
  ℕ, zero, suc, ◌+◌, ◌≤◌, Text, Bool, true, false, ◌&&◌, ◌||◌, [], ◌∷◌, ◌==◌, is_empty, is_space,
  length, take, all, map, ◌≡◌, refl, ap, ◌∙◌, inl, inr, arith, Bool-cases,
}
use phala_cloud.Names.{is_letter, is_alnum, is_host_unit, starts_dash, has_double_dash, ends_alnum}
use phala_cloud.Names.Shape.{kept_unit, join_spaces, squeeze_dashes, strip_start, strip_end}

abbrev may_stay : ℕ → Bool
may_stay c = is_host_unit c || is_space c

kept_unit_stays : (c : ℕ) → may_stay (kept_unit c) ≡ true
unfolding kept_unit
kept_unit_stays c = ground arith

pub all-kept_unit : (s : Text) → all may_stay (map kept_unit s) ≡ true
all-kept_unit [] = refl
all-kept_unit (c ∷ s) = rw (kept_unit_stays c) (all-kept_unit s)

host_dash : is_host_unit b'-' ≡ true
unfolding is_alnum
host_dash = refl

pub all-join_spaces :
    (b : Bool) (s : Text) → all may_stay s ≡ true → all is_host_unit (join_spaces b s) ≡ true
unfolding join_spaces
all-join_spaces b [] h = refl
all-join_spaces b (c ∷ s) h =
    let rest = all-join_spaces (is_space c) s (ground arith) in
    elim (Bool-cases (is_space c)) [
      | inl e ↦
          let more = rw e at rest in
          elim (Bool-cases b) [ inl x ↦ rw (e, x) more | inr x ↦ rw (e, x) (rw host_dash more) ]
      | inr e ↦
          let more = rw e at rest in
          let unit : is_host_unit c ≡ true = ground arith in rw e (rw unit more)
    ]

pub all-squeeze_dashes :
    (b : Bool) (s : Text) → all is_host_unit s ≡ true → all is_host_unit (squeeze_dashes b s) ≡ true
unfolding squeeze_dashes
all-squeeze_dashes b [] h = refl
all-squeeze_dashes b (c ∷ s) h = ground (arith, all-squeeze_dashes (c == b'-') s)

starts_dash-squeeze_dashes : (s : Text) → starts_dash (squeeze_dashes true s) ≡ false
unfolding squeeze_dashes starts_dash
starts_dash-squeeze_dashes [] = refl
starts_dash-squeeze_dashes (c ∷ s) = elim (Bool-cases (c == b'-')) [
  | inl e ↦ rw e (starts_dash-squeeze_dashes s)
  | inr e ↦ rw e e
]

pub has_double_dash-squeeze_dashes :
    (b : Bool) (s : Text) → has_double_dash (squeeze_dashes b s) ≡ false
unfolding squeeze_dashes has_double_dash
has_double_dash-squeeze_dashes b [] = refl
has_double_dash-squeeze_dashes b (c ∷ s) = elim (Bool-cases (c == b'-')) [
  | inl e ↦
      let rest = has_double_dash-squeeze_dashes true s in
      let start = starts_dash-squeeze_dashes s in
      elim (Bool-cases b) [ inl x ↦ rw (e, x) rest | inr x ↦ rw (e, x) (rw (e, start) rest) ]
  | inr e ↦
      let rest = has_double_dash-squeeze_dashes false s in
      elim (Bool-cases b) [ inl x ↦ rw (e, x) (rw e rest) | inr x ↦ rw (e, x) (rw e rest) ]
]

-- Units of host names with no two dashes in a row.
pub record IsLoose (s : Text) : Type 0 where
  pub host : all is_host_unit s ≡ true
  pub single : has_double_dash s ≡ false

has_double_dash-tail :
    (c : ℕ) (s : Text) → has_double_dash (c ∷ s) ≡ false → has_double_dash s ≡ false
unfolding has_double_dash
has_double_dash-tail c s h = ground arith

pub IsLoose-tail : (c : ℕ) (s : Text) → IsLoose (c ∷ s) → IsLoose s
unfolding has_double_dash
IsLoose-tail c s h = record { host = ground (arith, h.host); single = ground (arith, h.single) }

pub IsLoose-strip_start : (s : Text) → IsLoose s → IsLoose (strip_start s)
unfolding strip_start
IsLoose-strip_start [] h = h
IsLoose-strip_start (c ∷ s) h = elim (Bool-cases (c == b'-')) [
  | inl e ↦ rw e (IsLoose-strip_start s (IsLoose-tail c s h))
  | inr e ↦ rw e h
]

pub starts_dash-strip_start : (s : Text) → starts_dash (strip_start s) ≡ false
unfolding strip_start starts_dash
starts_dash-strip_start [] = refl
starts_dash-strip_start (c ∷ s) = elim (Bool-cases (c == b'-')) [
  | inl e ↦ rw e (starts_dash-strip_start s)
  | inr e ↦ rw e e
]

all-strip_end : (s : Text) → all is_host_unit s ≡ true → all is_host_unit (strip_end s) ≡ true
unfolding strip_end
all-strip_end [] h = refl
all-strip_end (c ∷ s) h = ground (arith, all-strip_end s)

pub starts_dash-strip_end : (s : Text) → starts_dash s ≡ false → starts_dash (strip_end s) ≡ false
unfolding strip_end starts_dash
starts_dash-strip_end [] h = refl
starts_dash-strip_end (c ∷ s) h = rw h h

has_double_dash-strip_end :
    (s : Text) → has_double_dash s ≡ false → has_double_dash (strip_end s) ≡ false
unfolding strip_end has_double_dash
has_double_dash-strip_end [] h = refl
has_double_dash-strip_end (c ∷ s) h =
    ground (arith, has_double_dash-strip_end s, starts_dash-strip_end s)

pub IsLoose-strip_end : (s : Text) → IsLoose s → IsLoose (strip_end s)
IsLoose-strip_end s h = record {
  host = all-strip_end s h.host;
  single = has_double_dash-strip_end s h.single;
}

pub ends_alnum-cons : (c : ℕ) (s : Text) → is_empty s ≡ false → ends_alnum (c ∷ s) ≡ ends_alnum s
unfolding ends_alnum
ends_alnum-cons c [] h = cc
ends_alnum-cons c (d ∷ s) h = refl

strip_end-nil : strip_end [] ≡ []
unfolding strip_end
strip_end-nil = refl

pub strip_end-solid : (c : ℕ) (s : Text) → (c == b'-') ≡ false → strip_end (c ∷ s) ≡ c ∷ strip_end s
unfolding strip_end
strip_end-solid c s e = rw e refl

pub or_left : (a b : Bool) → (a || b) ≡ true → b ≡ false → a ≡ true
or_left a b h e = ground arith

pub is_alnum-of : (c : ℕ) → is_host_unit c ≡ true → (c == b'-') ≡ false → is_alnum c ≡ true
unfolding is_host_unit
is_alnum-of c h e = or_left (is_alnum c) (c == b'-') h e

is_empty-nil : (s : Text) → is_empty s ≡ true → s ≡ []
is_empty-nil [] h = refl
is_empty-nil (c ∷ s) h = cc

ends_alnum-one : (c : ℕ) → ends_alnum (c ∷ []) ≡ is_alnum c
unfolding ends_alnum
ends_alnum-one c = refl

-- What is left ends in a letter or a digit, unless nothing is left.
pub ends_alnum-strip_end :
    (s : Text)
    → all is_host_unit s ≡ true
    → is_empty (strip_end s) ≡ false
    → ends_alnum (strip_end s) ≡ true
unfolding strip_end
ends_alnum-strip_end [] h n = cc
ends_alnum-strip_end (c ∷ s) h n =
    let unit : is_host_unit c ≡ true = ground arith in
    elim (Bool-cases (is_empty (strip_end s))) [
      | inl e ↦ elim (Bool-cases (c == b'-')) [
        | inl d ↦ let bad = rw (d, e) at n in cc
        | inr d ↦
            rw d (rw (is_empty-nil (strip_end s) e) (rw (ends_alnum-one c) (is_alnum-of c unit d)))
      ]
      | inr e ↦
          let rest = ends_alnum-strip_end s (ground arith) e in
          let same = ends_alnum-cons c (strip_end s) e in
          elim (Bool-cases (c == b'-')) [
            | inl d ↦ rw (d, e) (same ∙ rest)
            | inr d ↦ rw d (same ∙ rest)
          ]
    ]

pub alnum-ne-dash : (c : ℕ) → is_alnum c ≡ true → (c == b'-') ≡ false
unfolding is_alnum is_letter
alnum-ne-dash c h = ground arith

all-take : (n : ℕ) (s : Text) → all is_host_unit s ≡ true → all is_host_unit (take n s) ≡ true
all-take zero s h = refl
all-take (suc n) [] h = refl
all-take (suc n) (c ∷ s) h = ground (arith, all-take n s)

starts_dash-take : (n : ℕ) (s : Text) → starts_dash s ≡ false → starts_dash (take n s) ≡ false
unfolding starts_dash
starts_dash-take zero s h = refl
starts_dash-take (suc n) [] h = refl
starts_dash-take (suc n) (c ∷ s) h = h

has_double_dash-take :
    (n : ℕ) (s : Text) → has_double_dash s ≡ false → has_double_dash (take n s) ≡ false
unfolding has_double_dash
has_double_dash-take zero s h = refl
has_double_dash-take (suc n) [] h = refl
has_double_dash-take (suc n) (c ∷ s) h =
    ground (arith, has_double_dash-take n s, starts_dash-take n s)

pub IsLoose-take : (n : ℕ) (s : Text) → IsLoose s → IsLoose (take n s)
IsLoose-take n s h = record {
  host = all-take n s h.host;
  single = has_double_dash-take n s h.single;
}

strip_end-keep :
    (c : ℕ) (s : Text) → is_empty (strip_end s) ≡ false → strip_end (c ∷ s) ≡ c ∷ strip_end s
unfolding strip_end
strip_end-keep c s h = elim (Bool-cases (c == b'-')) [ inl e ↦ rw (e, h) refl | inr e ↦ rw e refl ]

second-ne-dash :
    (c d : ℕ) (s : Text)
    → has_double_dash (c ∷ d ∷ s) ≡ false
    → (c == b'-') ≡ true
    → (d == b'-') ≡ false
unfolding has_double_dash starts_dash
second-ne-dash c d s h e = ground arith

is_empty-strip_end : (c : ℕ) (s : Text) → (c == b'-') ≡ false → is_empty (strip_end (c ∷ s)) ≡ false
is_empty-strip_end c s e = rw (strip_end-solid c s e) refl

-- At most one unit goes.
pub length-strip_end-ge :
    (s : Text) → has_double_dash s ≡ false → length s ≤ 1 + length (strip_end s)
length-strip_end-ge [] h = omega arith
length-strip_end-ge (c ∷ []) h = omega arith
length-strip_end-ge (c ∷ d ∷ s) h =
    let rest = length-strip_end-ge (d ∷ s) (has_double_dash-tail c (d ∷ s) h) in
    elim (Bool-cases (c == b'-')) [
      | inl e ↦
          let solid = is_empty-strip_end d s (second-ne-dash c d s h e) in
          rw (strip_end-keep c (d ∷ s) solid) (omega arith)
      | inr e ↦ rw (strip_end-solid c (d ∷ s) e) (omega arith)
    ]

pub length-strip_end-le : (s : Text) → length (strip_end s) ≤ length s
unfolding strip_end
length-strip_end-le [] = omega arith
length-strip_end-le (c ∷ s) =
    let rest = length-strip_end-le s in
    elim (Bool-cases (c == b'-' && is_empty (strip_end s))) [
      | inl e ↦ rw e (omega arith)
      | inr e ↦ rw e (omega arith)
    ]

pub strip_end-alnum : (s : Text) → ends_alnum s ≡ true → strip_end s ≡ s
unfolding ends_alnum
strip_end-alnum [] h = cc
strip_end-alnum (c ∷ []) h =
    strip_end-solid c [] (alnum-ne-dash c h) ∙ ap (λ (t : Text). c ∷ t) strip_end-nil
strip_end-alnum (c ∷ d ∷ s) h =
    let rest : strip_end (d ∷ s) ≡ d ∷ s = strip_end-alnum (d ∷ s) h in
    let solid : is_empty (strip_end (d ∷ s)) ≡ false = rw rest refl in
    strip_end-keep c (d ∷ s) solid ∙ ap (λ (t : Text). c ∷ t) rest
