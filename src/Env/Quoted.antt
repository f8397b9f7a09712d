-- ===== src/Env/Quoted.antt =====
-- Lines that set a quoted value.
use phala_cloud.Common.{
  ℕ, suc, ◌-◌, Text, Bool, true, false, not, ◌&&◌, Option, none, some, [], leb, ◌∷◌, ◌++◌, ◌==◌,
  length, take, all, ◌≡◌, refl, ap, arith, inl, inr, Bool-cases, length-append,
}
use phala_cloud.Env.{
  is_quote, escaped, next_quote, split_assignment, find_comment, cut_comment, substring, last_unit,
  outer_quote, unquote,
}

-- A unit of a key that neither quotes nor ends it.
abbrev pub is_plain_unit : ℕ → Bool
is_plain_unit c = not (is_quote c) && not (c == b'=') && not (c == b'#')

pub split_assignment-plain :
    (prev : Option ℕ) (key value : Text)
    → all is_plain_unit key ≡ true
    → split_assignment prev none (key ++ b'=' ∷ value) ≡ some (key, value)
unfolding split_assignment is_quote
split_assignment-plain prev [] value h = refl
split_assignment-plain prev (c ∷ key) value h =
    let q : is_quote c ≡ false = ground arith in
    let e : (c == b'=') ≡ false = ground arith in
    let s : (c == b'#') ≡ false = ground arith in
    let rest = split_assignment-plain (some c) key value (ground arith) in rw (q, e, s, rest) refl

-- Within quotes there is no comment.
find_comment-quoted :
    (q i : ℕ) (prev : Option ℕ) (value : Text)
    → is_quote q ≡ true
    → all (λ c. not (c == q)) value ≡ true
    → find_comment i prev (some q) (value ++ q ∷ []) ≡ none
unfolding find_comment
find_comment-quoted q i prev [] h n = ground arith
find_comment-quoted q i prev (c ∷ value) h n =
    let other : (c == q) ≡ false = ground arith in
    let rest = find_comment-quoted q (suc i) (some c) value h (ground arith) in
    elim (Bool-cases (is_quote c && not (escaped prev))) [
      | inl e ↦ rw (e, other) rest
      | inr e ↦ elim (Bool-cases (c == b'#')) [ inl f ↦ rw (e, f) rest | inr f ↦ rw (e, f) rest ]
    ]

last_unit-append_last : (s : Text) (c : ℕ) → last_unit (s ++ c ∷ []) ≡ some c
unfolding last_unit
last_unit-append_last [] c = refl
last_unit-append_last (d ∷ []) c = refl
last_unit-append_last (d ∷ e ∷ s) c = last_unit-append_last (e ∷ s) c

take-append : (s t : Text) → take (length s) (s ++ t) ≡ s
take-append [] t = refl
take-append (c ∷ s) t = ap (λ r. c ∷ r) (take-append s t)

outer_quote-quoted :
    (q : ℕ) (value : Text) → is_quote q ≡ true → outer_quote (q ∷ (value ++ q ∷ [])) ≡ some q
unfolding outer_quote
outer_quote-quoted q value h =
    let same : (q == q) ≡ true = ground arith in
    rw (last_unit-append_last (q ∷ value) q, outer_quote, h, same) refl

inner :
    (q : ℕ) (value : Text)
    → substring 1 (length (q ∷ (value ++ q ∷ [])) - 1) (q ∷ (value ++ q ∷ [])) ≡ value
unfolding substring
inner q value =
    let l = length-append value (q ∷ []) in
    let size : length (q ∷ (value ++ q ∷ [])) - 1 ≡ suc (length value) = omega arith in
    let order : leb 1 (suc (length value)) ≡ true = ground arith in
    let less : suc (length value) - 1 ≡ length value = omega arith in
    rw size (rw (order, less) (take-append value (q ∷ [])))

pub unquote-quoted :
    (q : ℕ) (value : Text)
    → is_quote q ≡ true
    → (q == b'"') ≡ false
    → unquote (q ∷ (value ++ q ∷ [])) ≡ value
unfolding unquote
unquote-quoted q value h d = rw (outer_quote-quoted q value h, unquote) (rw d (inner q value))

pub cut_comment-quoted :
    (q : ℕ) (value : Text)
    → is_quote q ≡ true
    → all (λ c. not (c == q)) value ≡ true
    → cut_comment (q ∷ (value ++ q ∷ [])) ≡ q ∷ (value ++ q ∷ [])
unfolding cut_comment find_comment escaped next_quote
cut_comment-quoted q value h n =
    rw (h, find_comment-quoted q 1 (some q) value h n, cut_comment) refl
