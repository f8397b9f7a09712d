-- ===== src/Compose/Edits.antt =====
-- Reads and writes of fields in values that are equal but for the order of keys.
use phala_cloud.Common.{
  Text, true, false, Option, none, some, ◌≡◌, ◌≢◌, refl, sym, ◌∙◌, inl, inr, arith, text_eq,
  text_eq_iff, Bool-cases, subst,
}
use phala_cloud.Common.Json.{Json, Items, Fields, end, field, get_field}
use phala_cloud.Compose.{
  has_field, add_field, replace_field, set_field, delete_field, comes_before, index_of,
}
use phala_cloud.Compose.Same.{
  Same, same_value, same_items, same_fields, SameItems, same_nil, same_cons, SameFields, same_end,
  same_field, same_swap, same_trans, SameFields-refl, SameFields-sym,
}

-- What a key stands for in two objects.
pub data SameValue : Option Json → Option Json → Type 0 where
  same_none : SameValue none none
  same_some : {v w : Json} → Same v w → SameValue (some v) (some w)

SameValue-refl : (o : Option Json) → SameValue o o
SameValue-refl none = same_none
SameValue-refl (some v) = same_some same_value

SameValue-of : {o p : Option Json} → o ≡ p → SameValue o p
SameValue-of {o} e = subst (λ q. SameValue o q) e (SameValue-refl o)

mutual
  Same-trans : {u v w : Json} → Same u v → Same v w → Same u w
  Same-trans same_value g = g
  Same-trans (same_items h) same_value = same_items h
  Same-trans (same_items h) (same_items g) = same_items (SameItems-trans h g)
  Same-trans (same_fields p h) same_value = same_fields p h
  Same-trans (same_fields p h) (same_fields q g) = same_fields p (same_trans h g)

  SameItems-trans : {is js ks : Items} → SameItems is js → SameItems js ks → SameItems is ks
  SameItems-trans same_nil g = g
  SameItems-trans (same_cons s h) (same_cons r g) = same_cons (Same-trans s r) (SameItems-trans h g)

SameValue-trans : {o p q : Option Json} → SameValue o p → SameValue p q → SameValue o q
SameValue-trans same_none g = g
SameValue-trans (same_some s) (same_some r) = same_some (Same-trans s r)

get_field-cons :
    (k j : Text) (v w : Json) (fs gs : Fields)
    → Same v w
    → SameValue (get_field k fs) (get_field k gs)
    → SameValue (get_field k (field j v fs)) (get_field k (field j w gs))
unfolding get_field
get_field-cons k j v w fs gs s h = elim (Bool-cases (text_eq j k)) [
  | inl e ↦ rw e (same_some s)
  | inr e ↦ rw e h
]

get_field-swap :
    (k i j : Text) (v w : Json) (fs : Fields)
    → i ≢ j
    → get_field k (field i v (field j w fs)) ≡ get_field k (field j w (field i v fs))
unfolding get_field
get_field-swap k i j v w fs d = ground (arith, text_eq_iff i k, text_eq_iff j k)

pub get_field-SameFields :
    (k : Text) {fs gs : Fields} → SameFields fs gs → SameValue (get_field k fs) (get_field k gs)
unfolding get_field
get_field-SameFields k same_end = same_none
get_field-SameFields k (same_field {k = j} {v = v} {w = w} {fs = fs} {gs = gs} s h) =
    get_field-cons k j v w fs gs s (get_field-SameFields k h)
get_field-SameFields k (same_swap {j = i} {k = j} {v = v} {w = w} {fs = fs} d) =
    SameValue-of (get_field-swap k i j v w fs d)
get_field-SameFields k (same_trans h g) =
    SameValue-trans (get_field-SameFields k h) (get_field-SameFields k g)

delete_field-cons :
    (k j : Text) (v w : Json) (fs gs : Fields)
    → Same v w
    → SameFields fs gs
    → SameFields (delete_field k fs) (delete_field k gs)
    → SameFields (delete_field k (field j v fs)) (delete_field k (field j w gs))
unfolding delete_field
delete_field-cons k j v w fs gs s h d = elim (Bool-cases (text_eq j k)) [
  | inl e ↦ rw e h
  | inr e ↦ rw e (same_field s d)
]

delete_field-swap :
    (k i j : Text) (v w : Json) (fs : Fields)
    → i ≢ j
    → SameFields
        (delete_field k (field i v (field j w fs)))
        (delete_field k (field j w (field i v fs)))
unfolding delete_field
delete_field-swap k i j v w fs d = elim (Bool-cases (text_eq i k)) [
  | inl e ↦ elim (Bool-cases (text_eq j k)) [
    | inl f ↦ absurd (d ((text_eq_iff i k).0 e ∙ sym ((text_eq_iff j k).0 f)))
    | inr f ↦ rw (e, f) (SameFields-refl (field j w fs))
  ]
  | inr e ↦ elim (Bool-cases (text_eq j k)) [
    | inl f ↦ rw (e, f) (SameFields-refl (field i v fs))
    | inr f ↦ rw (e, f) (same_swap d)
  ]
]

pub delete_field-SameFields :
    (k : Text) {fs gs : Fields}
    → SameFields fs gs
    → SameFields (delete_field k fs) (delete_field k gs)
unfolding delete_field
delete_field-SameFields k same_end = same_end
delete_field-SameFields k (same_field {k = j} {v = v} {w = w} {fs = fs} {gs = gs} s h) =
    delete_field-cons k j v w fs gs s h (delete_field-SameFields k h)
delete_field-SameFields k (same_swap {j = i} {k = j} {v = v} {w = w} {fs = fs} d) =
    delete_field-swap k i j v w fs d
delete_field-SameFields k (same_trans h g) =
    same_trans (delete_field-SameFields k h) (delete_field-SameFields k g)

delete_field-absent : (k : Text) (fs : Fields) → has_field k fs ≡ false → delete_field k fs ≡ fs
unfolding delete_field has_field
delete_field-absent k end h = refl
delete_field-absent k (field j v fs) h = ground (arith, delete_field-absent k fs)

differ : (j k : Text) → text_eq j k ≡ false → j ≢ k
differ j k e = λ d. let eq = (text_eq_iff j k).1 d in cc

add_field_lem :
    (k : Text) (v : Json) (fs : Fields)
    → has_field k fs ≡ false
    → SameFields (add_field k v fs) (field k v fs)
unfolding add_field has_field
add_field_lem k v end h = SameFields-refl (field k v end)
add_field_lem k v (field j w fs) h = elim (Bool-cases (text_eq j k)) [
  | inl e ↦ let bad = rw e at h in cc
  | inr e ↦ elim (Bool-cases (comes_before (index_of k) (index_of j))) [
    | inl b ↦ rw b (SameFields-refl (field k v (field j w fs)))
    | inr b ↦ rw b (
        same_trans (same_field same_value (add_field_lem k v fs (rw e at h)))
          (same_swap (differ j k e)))
  ]
]

replace_field_lem :
    (k : Text) (v : Json) (fs : Fields)
    → has_field k fs ≡ true
    → SameFields (replace_field k v fs) (field k v (delete_field k fs))
unfolding replace_field has_field delete_field
replace_field_lem k v end h = cc
replace_field_lem k v (field j w fs) h = elim (Bool-cases (text_eq j k)) [
  | inl e ↦ rw e (
      subst (λ i. SameFields (field j v fs) (field i v fs)) ((text_eq_iff j k).0 e)
        (SameFields-refl (field j v fs)))
  | inr e ↦ rw e (
      same_trans (same_field same_value (replace_field_lem k v fs (rw e at h)))
        (same_swap (differ j k e)))
]

pub set_field_lem :
    (k : Text) (v : Json) (fs : Fields)
    → SameFields (set_field k v fs) (field k v (delete_field k fs))
unfolding set_field
set_field_lem k v fs = elim (Bool-cases (has_field k fs)) [
  | inl e ↦ rw e (replace_field_lem k v fs e)
  | inr e ↦ rw (e, delete_field-absent k fs e) (add_field_lem k v fs e)
]

pub set_field-SameFields :
    (k : Text) {v w : Json} {fs gs : Fields}
    → Same v w
    → SameFields fs gs
    → SameFields (set_field k v fs) (set_field k w gs)
set_field-SameFields k {v} {w} {fs} {gs} s h = same_trans (set_field_lem k v fs) (
    same_trans (same_field s (delete_field-SameFields k h)) (SameFields-sym (set_field_lem k w gs)))
