-- ===== src/Common/Blank.antt =====
-- When `trim` leaves nothing.
use mathlib.Core.Path.{◌≡◌, refl, ap, ◌∙◌}
use mathlib.Core.Logic.{◌≢◌, inl, inr}
use Prim.Native.Nat.{ℕ, ◌≤◌}
use mathlib.Core.Bool.{Bool, true, false, ◌&&◌}
use mathlib.Core.List.{List, [], ◌∷◌, ◌++◌, reverse, reverse-append, reverse-reverse}
use native.Mathlib.Omega.{arith}
use phala_cloud.Common.Tests.{Bool-cases}
use phala_cloud.Common.Lists.{all, length}
use phala_cloud.Common.Strings.{Text, is_empty, is_space, trim_start, trim_end, trim}

all-append {ℓ} :
    {A : Type ℓ} (p : A → Bool) (xs ys : List A) → all p (xs ++ ys) ≡ (all p xs && all p ys)
all-append p [] ys = refl
all-append p (x ∷ xs) ys = ground (arith, all-append p xs ys)

pub all-reverse {ℓ} : {A : Type ℓ} (p : A → Bool) (xs : List A) → all p (reverse xs) ≡ all p xs
all-reverse p [] = refl
all-reverse p (x ∷ xs) =
    ap (all p) (reverse-append (x ∷ []) xs)
    ∙ all-append p (reverse xs) (x ∷ [])
    ∙ ground (arith, all-reverse p xs)

is_empty-append_last : (s t : Text) → is_empty (s ++ t) ≡ (is_empty s && is_empty t)
is_empty-append_last [] t = refl
is_empty-append_last (c ∷ s) t = refl

is_empty-reverse : (s : Text) → is_empty (reverse s) ≡ is_empty s
is_empty-reverse [] = refl
is_empty-reverse (c ∷ s) =
    ap is_empty (reverse-append (c ∷ []) s)
    ∙ is_empty-append_last (reverse s) (c ∷ [])
    ∙ ground arith

all_space-trim_start : (s : Text) → all is_space (trim_start s) ≡ all is_space s
unfolding trim_start
all_space-trim_start [] = refl
all_space-trim_start (c ∷ s) = elim (Bool-cases (is_space c)) [
  | inl e ↦ ground (arith, all_space-trim_start s)
  | inr e ↦ ground arith
]

is_empty-trim_start : (s : Text) → is_empty (trim_start s) ≡ all is_space s
unfolding trim_start
is_empty-trim_start [] = refl
is_empty-trim_start (c ∷ s) = ground (arith, is_empty-trim_start s)

-- `trim` leaves nothing of a text exactly when each of its code units is white space.
pub is_empty-trim : (s : Text) → is_empty (trim s) ≡ all is_space s
unfolding trim trim_end
is_empty-trim s =
    is_empty-reverse (trim_start (reverse (trim_start s)))
    ∙ is_empty-trim_start (reverse (trim_start s))
    ∙ all-reverse is_space (trim_start s)
    ∙ all_space-trim_start s

all_space-trim : (s : Text) → all is_space (trim s) ≡ all is_space s
unfolding trim trim_end
all_space-trim s =
    all-reverse is_space (trim_start (reverse (trim_start s)))
    ∙ all_space-trim_start (reverse (trim_start s))
    ∙ all-reverse is_space (trim_start s)
    ∙ all_space-trim_start s

pub is_empty-trim-trim : (s : Text) → is_empty (trim (trim s)) ≡ is_empty (trim s)
is_empty-trim-trim s = ground (arith, is_empty-trim (trim s), is_empty-trim s, all_space-trim s)

trim_start_idem : (s : Text) → trim_start (trim_start s) ≡ trim_start s
unfolding trim_start
trim_start_idem [] = refl
trim_start_idem (c ∷ s) = elim (Bool-cases (is_space c)) [
  | inl e ↦ rw (e, trim_start) (trim_start_idem s)
  | inr e ↦ rw (e, trim_start) (rw (e, trim_start))
]

trim_start-append_last :
    (s : Text) (c : ℕ) → is_space c ≡ false → trim_start (s ++ c ∷ []) ≡ trim_start s ++ c ∷ []
unfolding trim_start
trim_start-append_last [] c n = rw (n, trim_start)
trim_start-append_last (d ∷ s) c n = elim (Bool-cases (is_space d)) [
  | inl e ↦ rw (e, trim_start) (trim_start-append_last s c n)
  | inr e ↦ rw (e, trim_start)
]

pub trim_end-cons : (c : ℕ) (s : Text) → is_space c ≡ false → trim_end (c ∷ s) ≡ c ∷ trim_end s
unfolding trim_end
trim_end-cons c s n =
    rw (reverse-append (c ∷ []) s) (
      rw (trim_start-append_last (reverse s) c n)
        (reverse-append (trim_start (reverse s)) (c ∷ [])))

trim_end_idem : (s : Text) → trim_end (trim_end s) ≡ trim_end s
unfolding trim_end
trim_end_idem s = rw reverse-reverse (ap reverse (trim_start_idem (reverse s)))

length-trim_start-le : (s : Text) → length (trim_start s) ≤ length s
unfolding trim_start
length-trim_start-le [] = omega arith
length-trim_start-le (c ∷ s) = elim (Bool-cases (is_space c)) [
  | inl e ↦ rw (e, trim_start) (omega (arith, length-trim_start-le s))
  | inr e ↦ rw (e, trim_start) (omega arith)
]

-- A text that starts with a space is not what `trim_start` leaves.
trim_start-ne-space : (c : ℕ) (u : Text) → is_space c ≡ true → trim_start (c ∷ u) ≢ c ∷ u
unfolding trim_start
trim_start-ne-space c u e h =
    let same = ap length (rw (e, trim_start) at h) in
    absurd (omega (arith, length-trim_start-le u, same))

trim_of_start : (u : Text) → trim_start u ≡ u → trim_start (trim_end u) ≡ trim_end u
unfolding trim_start
trim_of_start [] h = unfold trim_end in refl
trim_of_start (c ∷ u) h = elim (Bool-cases (is_space c)) [
  | inl e ↦ absurd (trim_start-ne-space c u e h)
  | inr e ↦ rw (trim_end-cons c u e) (rw (e, trim_start))
]

-- To trim a trimmed text changes nothing.
pub trim_idem : (s : Text) → trim (trim s) ≡ trim s
unfolding trim
trim_idem s =
    ap trim_end (trim_of_start (trim_start s) (trim_start_idem s)) ∙ trim_end_idem (trim_start s)
