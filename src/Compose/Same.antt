-- ===== src/Compose/Same.antt =====
-- JSON values up to the order of keys.
use phala_cloud.Common.{Text, lit, true, not, ◌||◌, ◌≡◌, ◌≢◌, refl, sym, ap, ◌∙◌, arith, text_eq}
use phala_cloud.Common.Json.{Json, arr, obj, Items, nil, cons, Fields, end, field}
use phala_cloud.Compose.{has_field, is_plain}

-- Equal but for the order of keys in objects without the key "constructor".
mutual
  pub data Same : Json → Json → Type 0 where
    same_value : {v : Json} → Same v v
    same_items : {js ks : Items} → SameItems js ks → Same (arr js) (arr ks)
    same_fields : {fs gs : Fields} → is_plain fs ≡ true → SameFields fs gs → Same (obj fs) (obj gs)

  pub data SameItems : Items → Items → Type 0 where
    same_nil : SameItems nil nil
    same_cons :
        {v w : Json} {js ks : Items}
        → Same v w
        → SameItems js ks
        → SameItems (cons v js) (cons w ks)

  pub data SameFields : Fields → Fields → Type 0 where
    same_end : SameFields end end
    same_field :
        {k : Text} {v w : Json} {fs gs : Fields}
        → Same v w
        → SameFields fs gs
        → SameFields (field k v fs) (field k w gs)
    same_swap :
        {j k : Text} {v w : Json} {fs : Fields}
        → j ≢ k
        → SameFields (field j v (field k w fs)) (field k w (field j v fs))
    same_trans : {fs gs hs : Fields} → SameFields fs gs → SameFields gs hs → SameFields fs hs

pub SameFields-refl : (fs : Fields) → SameFields fs fs
SameFields-refl end = same_end
SameFields-refl (field k v fs) = same_field same_value (SameFields-refl fs)

pub has_field-SameFields :
    (k : Text) {fs gs : Fields} → SameFields fs gs → has_field k fs ≡ has_field k gs
unfolding has_field
has_field-SameFields k same_end = refl
has_field-SameFields k (same_field {k = j} s h) =
    ap (λ b. text_eq j k || b) (has_field-SameFields k h)
has_field-SameFields k (same_swap {j = i} {k = j} d) = ground arith
has_field-SameFields k (same_trans h g) = has_field-SameFields k h ∙ has_field-SameFields k g

pub is_plain-SameFields : {fs gs : Fields} → SameFields fs gs → is_plain fs ≡ is_plain gs
unfolding is_plain
is_plain-SameFields h = ap not (has_field-SameFields (lit "constructor") h)

mutual
  pub Same-sym : {v w : Json} → Same v w → Same w v
  Same-sym same_value = same_value
  Same-sym (same_items h) = same_items (SameItems-sym h)
  Same-sym (same_fields p h) = same_fields (sym (is_plain-SameFields h) ∙ p) (SameFields-sym h)

  pub SameItems-sym : {js ks : Items} → SameItems js ks → SameItems ks js
  SameItems-sym same_nil = same_nil
  SameItems-sym (same_cons s h) = same_cons (Same-sym s) (SameItems-sym h)

  pub SameFields-sym : {fs gs : Fields} → SameFields fs gs → SameFields gs fs
  SameFields-sym same_end = same_end
  SameFields-sym (same_field s h) = same_field (Same-sym s) (SameFields-sym h)
  SameFields-sym (same_swap d) = same_swap (λ e. d (sym e))
  SameFields-sym (same_trans h g) = same_trans (SameFields-sym g) (SameFields-sym h)

pub SameItems-refl : (js : Items) → SameItems js js
SameItems-refl nil = same_nil
SameItems-refl (cons j js) = same_cons same_value (SameItems-refl js)
