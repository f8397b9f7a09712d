-- ===== src/Names/CvmId.antt =====
-- That one CVM has one identifier.
use phala_cloud.Common.{
  ℕ, zero, suc, Text, lit, Bool, true, false, ◌&&◌, Option, none, some, List, [], ◌∷◌, ◌++◌, ◌==◌,
  is_empty, ◌≡◌, refl, sym, ap, ◌∙◌, inl, inr, arith, Bool-cases, Option-cases,
}
use phala_cloud.Names.{
  is_hex, is_variant, Piece, digits, dash, four, variant, take_digits, take_unit, skip_dash,
  take_piece, matches, uuid_pattern, app_id_pattern, strip_dashes, correct, CvmIdObject, raw_value,
  with_name, parse_cvm_id, or_next, present, met, is_valid_hostname,
}

hex-ne-dash : (c : ℕ) → is_hex c ≡ true → (c == b'-') ≡ false
unfolding is_hex
hex-ne-dash c h = ground arith

take_digits-strip :
    (n : ℕ) (s r : Text)
    → take_digits n s ≡ some r
    → take_digits n (strip_dashes s) ≡ some (strip_dashes r)
unfolding take_digits strip_dashes
take_digits-strip zero s r h =
    let same : s ≡ r = cc in ap (λ (t : Text). some (strip_dashes t)) same
take_digits-strip (suc n) [] r h = cc
take_digits-strip (suc n) (c ∷ s) r h = elim (Bool-cases (is_hex c)) [
  | inl e ↦
      let d = hex-ne-dash c e in let rest = take_digits-strip n s r (rw e at h) in rw d (rw e rest)
  | inr e ↦ let bad = rw e at h in cc
]

take_unit-strip :
    (p : ℕ → Bool) (s r : Text)
    → ((c : ℕ) → p c ≡ true → (c == b'-') ≡ false)
    → take_unit p s ≡ some r
    → take_unit p (strip_dashes s) ≡ some (strip_dashes r)
unfolding take_unit strip_dashes
take_unit-strip p [] r solid h = cc
take_unit-strip p (c ∷ s) r solid h = elim (Bool-cases (p c)) [
  | inl e ↦
      let d = solid c e in
      let same : some s ≡ some r = rw e at h in
      let left : s ≡ r = cc in rw d (rw e (ap (λ (t : Text). some (strip_dashes t)) left))
  | inr e ↦ let bad = rw e at h in cc
]

strip-skip_dash : (s : Text) → strip_dashes (skip_dash s) ≡ strip_dashes s
unfolding skip_dash strip_dashes
strip-skip_dash [] = refl
strip-skip_dash (c ∷ s) = elim (Bool-cases (c == b'-')) [
  | inl e ↦ rw e refl
  | inr e ↦ rw e (rw e refl)
]

skip_dash-strip : (s : Text) → skip_dash (strip_dashes s) ≡ strip_dashes s
unfolding skip_dash strip_dashes
skip_dash-strip [] = refl
skip_dash-strip (c ∷ s) = elim (Bool-cases (c == b'-')) [
  | inl e ↦ rw e (skip_dash-strip s)
  | inr e ↦ rw e (rw e refl)
]

take_piece-strip :
    (p : Piece) (s r : Text)
    → take_piece p s ≡ some r
    → take_piece p (strip_dashes s) ≡ some (strip_dashes r)
unfolding take_piece is_variant
take_piece-strip (digits n) s r h = take_digits-strip n s r h
take_piece-strip dash s r h =
    let same : skip_dash s ≡ r = cc in
    ap some (skip_dash-strip s ∙ sym (strip-skip_dash s) ∙ ap strip_dashes same)
take_piece-strip four s r h = take_unit-strip (λ c. c == b'4') s r (λ c e. ground arith) h
take_piece-strip variant s r h = take_unit-strip is_variant s r (λ c e. ground arith) h

matches-strip :
    (ps : List Piece) (s : Text) → matches ps s ≡ true → matches ps (strip_dashes s) ≡ true
unfolding matches strip_dashes
matches-strip [] [] h = refl
matches-strip [] (c ∷ s) h = cc
matches-strip (p ∷ ps) s h = elim (Option-cases (take_piece p s)) [
  | inl e ↦ let bad = rw (e, matches) at h in cc
  | inr (r, e) ↦ rw (take_piece-strip p s r e, matches) (matches-strip ps r (rw (e, matches) at h))
]

strip_dashes_idem : (s : Text) → strip_dashes (strip_dashes s) ≡ strip_dashes s
unfolding strip_dashes
strip_dashes_idem [] = refl
strip_dashes_idem (c ∷ s) = elim (Bool-cases (c == b'-')) [
  | inl e ↦ rw e (strip_dashes_idem s)
  | inr e ↦ rw e (rw e (ap (λ r. c ∷ r) (strip_dashes_idem s)))
]

correct-uuid : (s : Text) → matches uuid_pattern s ≡ true → correct s ≡ strip_dashes s
unfolding correct
correct-uuid s h = rw h refl

-- A UUID and the same UUID without its dashes are corrected to one identifier.
pub correct-strip_dashes :
    (s : Text) → matches uuid_pattern s ≡ true → correct (strip_dashes s) ≡ correct s
correct-strip_dashes s h =
    correct-uuid (strip_dashes s) (matches-strip uuid_pattern s h)
    ∙ strip_dashes_idem s
    ∙ sym (correct-uuid s h)

-- "app_" starts no UUID and no text of 40 digits.
correct-app : (s : Text) → correct (lit "app_" ++ s) ≡ lit "app_" ++ s
unfolding correct matches take_piece
correct-app s = refl

correct-plain :
    (s : Text) → matches uuid_pattern s ≡ false → matches app_id_pattern s ≡ false → correct s ≡ s
unfolding correct
correct-plain s h k = rw (h, k) refl

correct-app_id :
    (s : Text)
    → matches uuid_pattern s ≡ false
    → matches app_id_pattern s ≡ true
    → correct s ≡ lit "app_" ++ s
unfolding correct
correct-app_id s h k = rw (h, k) refl

-- To correct a corrected identifier changes nothing.
correct_idem : (s : Text) → correct (correct s) ≡ correct s
correct_idem s = elim (Bool-cases (matches uuid_pattern s)) [
  | inl u ↦ ap correct (correct-uuid s u) ∙ correct-strip_dashes s u
  | inr u ↦ elim (Bool-cases (matches app_id_pattern s)) [
    | inl a ↦ ap correct (correct-app_id s u a) ∙ correct-app s ∙ sym (correct-app_id s u a)
    | inr a ↦ ap correct (correct-plain s u a)
  ]
]

uuid_not_empty : (s : Text) → matches uuid_pattern s ≡ true → is_empty s ≡ false
unfolding matches take_piece
uuid_not_empty [] h = cc
uuid_not_empty (c ∷ s) h = refl

correct_not_empty : (s : Text) → is_empty s ≡ false → is_empty (correct s) ≡ false
correct_not_empty s n = elim (Bool-cases (matches uuid_pattern s)) [
  | inl u ↦
      ap is_empty (correct-uuid s u)
      ∙ uuid_not_empty (strip_dashes s) (matches-strip uuid_pattern s u)
  | inr u ↦ elim (Bool-cases (matches app_id_pattern s)) [
    | inl a ↦ ap is_empty (correct-app_id s u a)
    | inr a ↦ ap is_empty (correct-plain s u a) ∙ n
  ]
]

-- The object that names a CVM by its id alone.
abbrev pub by_id : Text → CvmIdObject
by_id t = record { id = some t; uuid = none; app_id = none; instance_id = none; name = none }

parse-by_id : (t : Text) → is_empty t ≡ false → parse_cvm_id (by_id t) ≡ some (correct t)
unfolding parse_cvm_id raw_value
parse-by_id t n = rw n refl

present_not_empty : (o : Option Text) (s : Text) → present o ≡ some s → is_empty s ≡ false
present_not_empty none s h = cc
present_not_empty (some t) s h = elim (Bool-cases (is_empty t)) [
  | inl e ↦ let bad = rw e at h in cc
  | inr e ↦
      let taken : some t ≡ some s = rw e at h in let same : t ≡ s = cc in ap is_empty (sym same) ∙ e
]

or_next_not_empty :
    (o p : Option Text) (s : Text)
    → ((t : Text) → o ≡ some t → is_empty t ≡ false)
    → ((t : Text) → p ≡ some t → is_empty t ≡ false)
    → or_next o p ≡ some s
    → is_empty s ≡ false
or_next_not_empty none p s h k e = k s e
or_next_not_empty (some t) p s h k e = h s e

raw_value_not_empty : (c : CvmIdObject) (s : Text) → raw_value c ≡ some s → is_empty s ≡ false
unfolding raw_value
raw_value_not_empty c s h =
    or_next_not_empty _ _ s (present_not_empty c.id)
      (λ t e.
        or_next_not_empty _ _ t (present_not_empty c.uuid)
          (λ u f.
            or_next_not_empty _ _ u (present_not_empty c.app_id) (present_not_empty c.instance_id)
              f)
          e)
      h

parse-eq-some :
    (c : CvmIdObject) (raw t : Text)
    → raw_value c ≡ some raw
    → parse_cvm_id c ≡ some t
    → correct raw ≡ t
unfolding parse_cvm_id with_name
parse-eq-some c raw t r h =
    elim (Bool-cases (met (matches uuid_pattern) c.uuid && met is_valid_hostname c.name)) [
      | inl e ↦ let taken = rw (e, r, with_name, parse_cvm_id) at h in cc
      | inr e ↦ let bad = rw (e, parse_cvm_id) at h in cc
    ]

-- An object with an id, a UUID, an app id or an instance id that is not empty gives an identifier that
-- stands for itself: as an id it gives itself again.
pub parse_cvm_id_idem :
    (c : CvmIdObject) (raw t : Text)
    → raw_value c ≡ some raw
    → parse_cvm_id c ≡ some t
    → parse_cvm_id (by_id t) ≡ some t
parse_cvm_id_idem c raw t r h =
    let e = parse-eq-some c raw t r h in
    ap (λ u. parse_cvm_id (by_id u)) (sym e)
    ∙ parse-by_id (correct raw) (correct_not_empty raw (raw_value_not_empty c raw r))
    ∙ ap some (correct_idem raw ∙ e)
