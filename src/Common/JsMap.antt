-- ===== src/Common/JsMap.antt =====
-- A JavaScript `Map` with string keys: its entries in the order of insertion.
use mathlib.Core.Path.{◌≡◌, refl}
use mathlib.Core.Option.{Option, none, some}
use mathlib.Core.List.{List, [], ◌∷◌}
use native.Mathlib.Omega.{arith}
use phala_cloud.Common.Tests.{if◌then◌else◌}
use phala_cloud.Common.Strings.{Text, text_eq, text_eq_iff}

module _ {ℓ} {V : Type ℓ} where
  -- m.get(k)
  unfoldable pub get : Text → List (Text × V) → Option V
  get k [] = none
  get k ((j, v) ∷ m) = if text_eq j k then some v else get k m

  -- m.set(k, v)
  unfoldable pub set : Text → V → List (Text × V) → List (Text × V)
  set k v [] = (k, v) ∷ []
  set k v ((j, w) ∷ m) = if text_eq j k then (j, v) ∷ m else (j, w) ∷ set k v m

  pub get-set :
      (k i : Text) (v : V) (m : List (Text × V))
      → get i (set k v m) ≡ (if text_eq k i then some v else get i m)
  unfolding get set
  get-set k i v [] = refl
  get-set k i v ((j, w) ∷ m) =
      ground (arith, get-set k i v m, text_eq_iff j k, text_eq_iff j i, text_eq_iff k i)
