-- ===== src/Compose/Canonical.antt =====
-- That `sortObject` gives one value for all orders of the keys.
use phala_cloud.Common.{
  Text, true, false, List, [], ◌∷◌, ◌≡◌, ◌≢◌, refl, sym, ap, ◌∙◌, arith, text_eq_iff,
}
use phala_cloud.Common.Json.{Json, arr, obj, Items, cons, Fields, end, field, get_field}
use phala_cloud.Compose.{
  text_leb, insert_key, sorted_keys, assign, rebuild, is_plain, sort_object, sort_items,
  sort_fields,
}
use phala_cloud.Compose.Same.{
  Same, same_value, same_items, same_fields, SameItems, same_nil, same_cons, SameFields, same_end,
  same_field, same_swap, same_trans, is_plain-SameFields,
}

text_leb_total : (s t : Text) → text_leb s t ≡ false → text_leb t s ≡ true
unfolding text_leb
text_leb_total [] t h = cc
text_leb_total (c ∷ s) [] h = refl
text_leb_total (c ∷ s) (d ∷ t) h = ground (arith, text_leb_total s t)

text_leb_antisym : (s t : Text) → text_leb s t ≡ true → text_leb t s ≡ true → s ≡ t
unfolding text_leb
text_leb_antisym [] [] h g = refl
text_leb_antisym [] (d ∷ t) h g = cc
text_leb_antisym (c ∷ s) [] h g = cc
text_leb_antisym (c ∷ s) (d ∷ t) h g = ground (arith, text_leb_antisym s t)

text_leb_trans : (s t u : Text) → text_leb s t ≡ true → text_leb t u ≡ true → text_leb s u ≡ true
unfolding text_leb
text_leb_trans [] t u h g = refl
text_leb_trans (c ∷ s) [] u h g = cc
text_leb_trans (c ∷ s) (d ∷ t) [] h g = cc
text_leb_trans (c ∷ s) (d ∷ t) (e ∷ u) h g = ground (arith, text_leb_trans s t u)

insert_key_comm :
    (j k : Text) (ks : List Text) → insert_key j (insert_key k ks) ≡ insert_key k (insert_key j ks)
unfolding insert_key
insert_key_comm j k [] = ground (arith, text_leb_total j k, text_leb_antisym j k)
insert_key_comm j k (i ∷ ks) = ground (
  arith,
  insert_key_comm j k ks,
  text_leb_total j k,
  text_leb_total k j,
  text_leb_antisym j k,
  text_leb_trans j k i,
  text_leb_trans k j i,
)

sorted_keys-SameFields : {fs gs : Fields} → SameFields fs gs → sorted_keys fs ≡ sorted_keys gs
unfolding sorted_keys
sorted_keys-SameFields same_end = refl
sorted_keys-SameFields (same_field {k = k} s h) = ap (insert_key k) (sorted_keys-SameFields h)
sorted_keys-SameFields (same_swap {j = j} {k = k} {fs = fs} d) =
    insert_key_comm j k (sorted_keys fs)
sorted_keys-SameFields (same_trans h g) = sorted_keys-SameFields h ∙ sorted_keys-SameFields g

rebuild-get :
    (ks : List Text) (result fs gs : Fields)
    → ((k : Text) → get_field k fs ≡ get_field k gs)
    → rebuild result ks fs ≡ rebuild result ks gs
unfolding rebuild
rebuild-get [] result fs gs h = refl
rebuild-get (k ∷ ks) result fs gs h =
    ap (λ o. rebuild (assign k o result) ks fs) (h k)
    ∙ rebuild-get ks (assign k (get_field k gs) result) fs gs h

sort_object-obj :
    (fs : Fields)
    → is_plain fs ≡ true
    → sort_object (obj fs) ≡ obj (rebuild end (sorted_keys fs) (sort_fields fs))
unfolding sort_object
sort_object-obj fs p = rw p refl

sort_object-eq :
    (fs gs : Fields)
    → is_plain fs ≡ true
    → SameFields fs gs
    → ((k : Text) → get_field k (sort_fields fs) ≡ get_field k (sort_fields gs))
    → sort_object (obj fs) ≡ sort_object (obj gs)
sort_object-eq fs gs p h g =
    sort_object-obj fs p
    ∙ ap obj (
        ap (λ ks. rebuild end ks (sort_fields fs)) (sorted_keys-SameFields h)
        ∙ rebuild-get (sorted_keys gs) end (sort_fields fs) (sort_fields gs) g)
    ∙ sym (sort_object-obj gs (sym (is_plain-SameFields h) ∙ p))

get_field-cons :
    (k j : Text) (v w : Json) (fs gs : Fields)
    → v ≡ w
    → get_field k fs ≡ get_field k gs
    → get_field k (field j v fs) ≡ get_field k (field j w gs)
unfolding get_field
get_field-cons k j v w fs gs e h = rw (e, h) refl

get_field-swap :
    (k i j : Text) (v w : Json) (fs : Fields)
    → i ≢ j
    → get_field k (field i v (field j w fs)) ≡ get_field k (field j w (field i v fs))
unfolding get_field
get_field-swap k i j v w fs d = ground (arith, text_eq_iff i k, text_eq_iff j k)

mutual
  unfolding sort_object

  -- Values that are equal but for the order of keys have one canonical form.
  pub sort_object-Same : {v w : Json} → Same v w → sort_object v ≡ sort_object w
  sort_object-Same same_value = refl
  sort_object-Same (same_items h) = ap arr (sort_items-Same h)
  sort_object-Same (same_fields {fs = fs} {gs = gs} p h) =
      sort_object-eq fs gs p h (λ k. get-sort_fields k h)

  sort_items-Same : {js ks : Items} → SameItems js ks → sort_items js ≡ sort_items ks
  sort_items-Same same_nil = refl
  sort_items-Same (same_cons {v = v} {w = w} {js = js} {ks = ks} s h) =
      ap (λ x. cons x (sort_items js)) (sort_object-Same s)
      ∙ ap (cons (sort_object w)) (sort_items-Same h)

  get-sort_fields :
      (k : Text) {fs gs : Fields}
      → SameFields fs gs
      → get_field k (sort_fields fs) ≡ get_field k (sort_fields gs)
  get-sort_fields k same_end = refl
  get-sort_fields k (same_field {k = j} {v = v} {w = w} {fs = fs} {gs = gs} s h) =
      get_field-cons k j (sort_object v) (sort_object w) (sort_fields fs) (sort_fields gs)
        (sort_object-Same s) (get-sort_fields k h)
  get-sort_fields k (same_swap {j = i} {k = j} {v = v} {w = w} {fs = fs} d) =
      get_field-swap k i j (sort_object v) (sort_object w) (sort_fields fs) d
  get-sort_fields k (same_trans h g) = get-sort_fields k h ∙ get-sort_fields k g
