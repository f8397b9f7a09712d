-- ===== src/Common/Dict/Keys.antt =====
-- What a write and a removal do to the keys of a dictionary.
use mathlib.Core.Path.{◌≡◌, subst}
use mathlib.Core.Logic.{inl, inr}
use mathlib.Core.Bool.{true}
use mathlib.Core.List.{[], ◌∷◌}
use phala_cloud.Common.Tests.{is_some, Bool-cases}
use phala_cloud.Common.Lists.{All}
use phala_cloud.Common.Strings.{Text, text_eq, text_eq_iff}
use phala_cloud.Common.Dict.{Dict, get, put, insert_new, replace, remove, keys, precedes}

module _ {ℓ} {V : Type ℓ} (P : Text → Type 0) where
  All-keys-insert_new :
      (k : Text) (v : V) (d : Dict V) → P k → All P (keys d) → All P (keys (insert_new k v d))
  unfolding insert_new
  All-keys-insert_new k v [] p h = (p, tt)
  All-keys-insert_new k v ((j, w) ∷ d) p h = elim (Bool-cases (precedes k j)) [
    | inl e ↦ rw e (p, h)
    | inr e ↦ rw e (h.0, All-keys-insert_new k v d p h.1)
  ]

  All-keys-replace : (k : Text) (v : V) (d : Dict V) → All P (keys d) → All P (keys (replace k v d))
  unfolding replace
  All-keys-replace k v [] h = h
  All-keys-replace k v ((j, w) ∷ d) h = elim (Bool-cases (text_eq j k)) [
    | inl e ↦ rw e h
    | inr e ↦ rw e (h.0, All-keys-replace k v d h.1)
  ]

  pub All-keys-put :
      (k : Text) (v : V) (d : Dict V) → P k → All P (keys d) → All P (keys (put k v d))
  unfolding put
  All-keys-put k v d p h = elim (Bool-cases (is_some (get k d))) [
    | inl e ↦ rw e (All-keys-replace k v d h)
    | inr e ↦ rw e (All-keys-insert_new k v d p h)
  ]

  pub All-keys-remove : (k : Text) (d : Dict V) → All P (keys d) → All P (keys (remove k d))
  unfolding remove
  All-keys-remove k [] h = h
  All-keys-remove k ((j, w) ∷ d) h = elim (Bool-cases (text_eq j k)) [
    | inl e ↦ rw e (All-keys-remove k d h.1)
    | inr e ↦ rw e (h.0, All-keys-remove k d h.1)
  ]

  -- What holds of every key holds of a key that is bound.
  pub All-keys-get : (k : Text) (d : Dict V) → All P (keys d) → is_some (get k d) ≡ true → P k
  unfolding get
  All-keys-get k [] h b = cc
  All-keys-get k ((j, w) ∷ d) h b = elim (Bool-cases (text_eq j k)) [
    | inl e ↦ subst P ((text_eq_iff j k).0 e) h.0
    | inr e ↦ All-keys-get k d h.1 (rw e at b)
  ]
