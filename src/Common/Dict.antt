-- ===== src/Common/Dict.antt =====
-- A JavaScript object used as a dictionary: its own enumerable string keys in enumeration order.
-- A write to a key that is there keeps its place. A new key that is an array index goes before all
-- keys that are not and before every larger index; any other key goes last.
pub mod Keys
use Prim.Native.Nat.{ℕ, zero, suc, ◌+◌, ◌-◌, ◌*◌}
use mathlib.Core.Path.{◌≡◌, refl, ap}
use mathlib.Core.Bool.{Bool, true, false, ◌&&◌, ◌||◌, not}
use mathlib.Core.Option.{Option, none, some}
use mathlib.Core.List.{List, [], ◌∷◌, ◌++◌, map}
use native.Mathlib.Omega.{arith}
use phala_cloud.Common.Tests.{leb, ltb, ◌==◌, if◌then◌else◌, is_some, Bool-cases}
use phala_cloud.Common.Strings.{Text, text_eq, text_eq_iff, text_eq_refl}

-- Decimal digits read from the left; `none` at any other code unit.
number_from : ℕ → Text → Option ℕ
number_from acc [] = some acc
number_from acc (c ∷ s) =
    let rest = number_from (acc * 10 + (c - b'0')) s in
    if leb b'0' c && leb c b'9' then rest else none

-- The value of a canonical array index, below 2^32 - 1: "0", or digits that start with no "0".
index_of : Text → Option ℕ
index_of [] = none
index_of (c ∷ []) = number_from 0 (c ∷ [])
index_of (c ∷ d ∷ s) = if c == b'0' then none else number_from 0 (c ∷ d ∷ s)

index_below : ℕ → Option ℕ → Bool
index_below n none = true
index_below n (some m) = not (ltb m 4294967295) || ltb n m

precedes_at : Option ℕ → Option ℕ → Bool
precedes_at none o = false
precedes_at (some n) o = ltb n 4294967295 && index_below n o

-- A new key `k` is enumerated before the key `j`.
precedes : Text → Text → Bool
unfolding precedes_at index_below index_of number_from
precedes k j = precedes_at (index_of k) (index_of j)

abbrev pub Dict {ℓ} : Type ℓ → Type ℓ
Dict V = List (Text × V)

module _ {ℓ} {V : Type ℓ} where
  unfoldable pub get : Text → Dict V → Option V
  get k [] = none
  get k ((j, v) ∷ d) = if text_eq j k then some v else get k d

  insert_new : Text → V → Dict V → Dict V
  insert_new k v [] = (k, v) ∷ []
  insert_new k v ((j, w) ∷ d) =
      if precedes k j then (k, v) ∷ (j, w) ∷ d else (j, w) ∷ insert_new k v d

  replace : Text → V → Dict V → Dict V
  replace k v [] = []
  replace k v ((j, w) ∷ d) = if text_eq j k then (j, v) ∷ d else (j, w) ∷ replace k v d

  -- d[k] = v
  unfoldable pub put : Text → V → Dict V → Dict V
  unfolding get insert_new replace precedes
  put k v d = if is_some (get k d) then replace k v d else insert_new k v d

  -- delete d[k]
  unfoldable pub remove : Text → Dict V → Dict V
  remove k [] = []
  remove k ((j, v) ∷ d) = if text_eq j k then remove k d else (j, v) ∷ remove k d

  abbrev pub keys : Dict V → List Text
  keys [] = []
  keys ((j, v) ∷ d) = j ∷ keys d

  get-insert_new :
      (k i : Text) (v : V) (d : Dict V)
      → get k d ≡ none
      → get i (insert_new k v d) ≡ (if text_eq k i then some v else get i d)
  unfolding get insert_new
  get-insert_new k i v [] h = refl
  get-insert_new k i v ((j, w) ∷ d) h =
      ground (arith, get-insert_new k i v d, text_eq_iff j k, text_eq_iff j i, text_eq_iff k i)

  get-replace :
      (k i : Text) (v : V) (d : Dict V)
      → is_some (get k d) ≡ true
      → get i (replace k v d) ≡ (if text_eq k i then some v else get i d)
  unfolding get replace
  get-replace k i v [] h = ground arith
  get-replace k i v ((j, w) ∷ d) h =
      ground (arith, get-replace k i v d, text_eq_iff j k, text_eq_iff j i, text_eq_iff k i)

  -- A read after a write gives the value written, and what was there at any other key.
  pub get-put :
      (k i : Text) (v : V) (d : Dict V)
      → get i (put k v d) ≡ (if text_eq k i then some v else get i d)
  unfolding put
  get-put k i v d = ground (arith, get-replace k i v d, get-insert_new k i v d)

  pub get-remove :
      (k i : Text) (d : Dict V) → get i (remove k d) ≡ (if text_eq k i then none else get i d)
  unfolding get remove
  get-remove k i [] = ground arith
  get-remove k i ((j, w) ∷ d) =
      ground (arith, get-remove k i d, text_eq_iff j k, text_eq_iff j i, text_eq_iff k i)

  -- The first key is bound.
  pub get-head : (j : Text) (v : V) (d : Dict V) → get j ((j, v) ∷ d) ≡ some v
  unfolding get
  get-head j v d = ground (arith, text_eq_refl j)

pub ruleset dict_laws = (get-put, get-remove)
