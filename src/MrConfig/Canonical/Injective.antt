-- ===== src/MrConfig/Canonical/Injective.antt =====
-- Where the text of a member's value ends.
use phala_cloud.Common.{
  ℕ, Text, lit, Bool, true, false, List, [], ◌∷◌, ◌++◌, map, all, All, ◌≡◌, ◌≢◌, refl, sym, ap, ◌∙◌,
  append_assoc, if◌then◌else◌, ◌==◌, arith,
}
use phala_cloud.Compose.Print.{quote, is_unescaped, quote-plain}
use phala_cloud.MrConfig.Canonical.{Value, number, text, texts, join, value_text}

pub cons_injective : (c d : ℕ) (s t : Text) → c ∷ s ≡ d ∷ t → (c ≡ d) × (s ≡ t)
cons_injective c d s t h = (cc h, cc h)

cons_path {ℓ} : {A : Type ℓ} {a b : A} {s t : List A} → a ≡ b → s ≡ t → (a ∷ s) ≡ (b ∷ t)
cons_path h k = λ i. h i ∷ k i

pub append_cancel : (p x y : Text) → p ++ x ≡ p ++ y → x ≡ y
append_cancel [] x y h = h
append_cancel (c ∷ p) x y h = append_cancel p x y (cons_injective c c (p ++ x) (p ++ y) h).1

-- Two texts that differ at a place that both have.
unfoldable pub diverge : Text → Text → Bool
diverge [] q = false
diverge (c ∷ p) [] = false
diverge (c ∷ p) (d ∷ q) = let rest = diverge p q in if c == d then rest else true

pub diverge-ne : (p q x y : Text) → diverge p q ≡ true → (p ++ x) ≢ (q ++ y)
unfolding diverge
diverge-ne [] q x y h e = cc h
diverge-ne (c ∷ p) [] x y h e = cc h
diverge-ne (c ∷ p) (d ∷ q) x y h e =
    let (same, rest) = cons_injective c d (p ++ x) (q ++ y) e in
    let on : diverge p q ≡ true = ground arith in diverge-ne p q x y on rest

-- A plain text ends at the first quote.
split_quote :
    (s t x y : Text)
    → all is_unescaped s ≡ true
    → all is_unescaped t ≡ true
    → s ++ (b'"' ∷ x) ≡ t ++ (b'"' ∷ y)
    → (s ≡ t) × (x ≡ y)
split_quote [] [] x y h k e = (refl, (cons_injective b'"' b'"' x y e).1)
split_quote [] (d ∷ t) x y h k e =
    let same = (cons_injective b'"' d x (t ++ (b'"' ∷ y)) e).0 in absurd (ground (arith, same, k))
split_quote (c ∷ s) [] x y h k e =
    let same = (cons_injective c b'"' (s ++ (b'"' ∷ x)) y e).0 in absurd (ground (arith, same, h))
split_quote (c ∷ s) (d ∷ t) x y h k e =
    let (same, rest) = cons_injective c d (s ++ (b'"' ∷ x)) (t ++ (b'"' ∷ y)) e in
    let (st, xy) = split_quote s t x y (ground arith) (ground arith) rest in (cons_path same st, xy)

-- A quoted plain text, with what is behind it.
quote-append : (s x : Text) → all is_unescaped s ≡ true → quote s ++ x ≡ b'"' ∷ (s ++ (b'"' ∷ x))
quote-append s x h =
    ap (λ (t : Text). t ++ x) (quote-plain s h)
    ∙ ap (λ (t : Text). b'"' ∷ t) (append_assoc s (b'"' ∷ []) x)

quotes_injective :
    (s t x y : Text)
    → all is_unescaped s ≡ true
    → all is_unescaped t ≡ true
    → quote s ++ x ≡ quote t ++ y
    → (s ≡ t) × (x ≡ y)
quotes_injective s t x y h k e =
    let plain = sym (quote-append s x h) ∙ e ∙ quote-append t y k in
    split_quote s t x y h k (cons_injective b'"' b'"' (s ++ (b'"' ∷ x)) (t ++ (b'"' ∷ y)) plain).1

abbrev ArePlain : List Text → Type 0
ArePlain ss = All (λ s. all is_unescaped s ≡ true) ss

-- What follows an item in a list of quoted texts.
list_tail : List Text → Text → Text
list_tail [] x = b']' ∷ x
list_tail (t ∷ ts) x = b',' ∷ (quote t ++ list_tail ts x)

join-list_tail :
    (s : Text) (ss : List Text) (x : Text)
    → join (map quote (s ∷ ss)) ++ (b']' ∷ x) ≡ quote s ++ list_tail ss x
unfolding join list_tail
join-list_tail s [] x = refl
join-list_tail s (t ∷ ts) x =
    append_assoc (quote s) (b',' ∷ join (map quote (t ∷ ts))) (b']' ∷ x)
    ∙ ap (λ (z : Text). quote s ++ (b',' ∷ z)) (join-list_tail t ts x)

item_injective :
    (s t x y : Text)
    → all is_unescaped s ≡ true
    → all is_unescaped t ≡ true
    → b',' ∷ (quote s ++ x) ≡ b',' ∷ (quote t ++ y)
    → (s ≡ t) × (x ≡ y)
item_injective s t x y h k e =
    quotes_injective s t x y h k (cons_injective b',' b',' (quote s ++ x) (quote t ++ y) e).1

list_tail_ne : (t : Text) (ts : List Text) (x y : Text) → list_tail [] x ≢ list_tail (t ∷ ts) y
unfolding list_tail
list_tail_ne t ts x y e =
    let bad = (cons_injective b']' b',' x (quote t ++ list_tail ts y) e).0 in cc bad

first_then_rest {ℓ} :
    {A : Type ℓ} {a b : A} {s t : List A} {m n x y : Text}
    → (a ≡ b) × (m ≡ n)
    → (m ≡ n → (s ≡ t) × (x ≡ y))
    → ((a ∷ s) ≡ (b ∷ t)) × (x ≡ y)
first_then_rest first rest = (cons_path first.0 (rest first.1).0, (rest first.1).1)

list_tail_injective :
    (ss ts : List Text) (x y : Text)
    → ArePlain ss
    → ArePlain ts
    → list_tail ss x ≡ list_tail ts y
    → (ss ≡ ts) × (x ≡ y)
unfolding list_tail
list_tail_injective [] [] x y h k e = (refl, (cons_injective b']' b']' x y e).1)
list_tail_injective [] (t ∷ ts) x y h k e = absurd (list_tail_ne t ts x y e)
list_tail_injective (s ∷ ss) [] x y h k e = absurd (list_tail_ne s ss y x (sym e))
list_tail_injective (s ∷ ss) (t ∷ ts) x y h k e =
    first_then_rest (item_injective s t (list_tail ss x) (list_tail ts y) h.0 k.0 e)
      (λ rest. list_tail_injective ss ts x y h.1 k.1 rest)

bracket_ne : (t x y : Text) → (b']' ∷ x) ≢ (b'"' ∷ (t ++ (b'"' ∷ y)))
bracket_ne t x y e = let bad = (cons_injective b']' b'"' x (t ++ (b'"' ∷ y)) e).0 in cc bad

list_ne :
    (t : Text) (ts : List Text) (x y : Text)
    → all is_unescaped t ≡ true
    → (b']' ∷ x) ≢ (join (map quote (t ∷ ts)) ++ (b']' ∷ y))
list_ne t ts x y h e =
    bracket_ne t x (list_tail ts y) (e ∙ join-list_tail t ts y ∙ quote-append t (list_tail ts y) h)

-- A list of quoted plain texts ends at the first bracket behind it.
list_injective :
    (ss ts : List Text) (x y : Text)
    → ArePlain ss
    → ArePlain ts
    → join (map quote ss) ++ (b']' ∷ x) ≡ join (map quote ts) ++ (b']' ∷ y)
    → (ss ≡ ts) × (x ≡ y)
unfolding join
list_injective [] [] x y h k e = (refl, (cons_injective b']' b']' x y e).1)
list_injective [] (t ∷ ts) x y h k e = absurd (list_ne t ts x y k.0 e)
list_injective (s ∷ ss) [] x y h k e = absurd (list_ne s ss y x h.0 (sym e))
list_injective (s ∷ ss) (t ∷ ts) x y h k e =
    first_then_rest
      (quotes_injective s t (list_tail ss x) (list_tail ts y) h.0 k.0
        (sym (join-list_tail s ss x) ∙ e ∙ join-list_tail t ts y))
      (list_tail_injective ss ts x y h.1 k.1)

-- A text or a list whose quoted texts stand for themselves.
abbrev pub IsClean : Value → Type 0
IsClean (number n) = ⊥
IsClean (text s) = all is_unescaped s ≡ true
IsClean (texts ss) = ArePlain ss

text_ne_texts :
    (s : Text) (ss : List Text) (x y : Text)
    → all is_unescaped s ≡ true
    → (value_text (text s) ++ x) ≢ (value_text (texts ss) ++ y)
unfolding value_text
text_ne_texts s ss x y h e =
    let bad =
      (cons_injective b'"' b'[' (s ++ (b'"' ∷ x)) ((join (map quote ss) ++ lit "]") ++ y)
        (sym (quote-append s x h) ∙ e)).0 in
    absurd (cc bad)

-- The text of a clean value shows where it ends.
pub value_text_injective :
    (v w : Value) (x y : Text)
    → IsClean v
    → IsClean w
    → value_text v ++ x ≡ value_text w ++ y
    → (v ≡ w) × (x ≡ y)
unfolding value_text
value_text_injective (number n) w x y h k e = absurd h
value_text_injective (text s) (number n) x y h k e = absurd k
value_text_injective (texts ss) (number n) x y h k e = absurd k
value_text_injective (text s) (text t) x y h k e =
    let (st, xy) = quotes_injective s t x y h k e in (ap text st, xy)
value_text_injective (text s) (texts ts) x y h k e = absurd (text_ne_texts s ts x y h e)
value_text_injective (texts ss) (text t) x y h k e = absurd (text_ne_texts t ss y x k (sym e))
value_text_injective (texts ss) (texts ts) x y h k e =
    let inner =
      (cons_injective b'[' b'[' ((join (map quote ss) ++ lit "]") ++ x)
        ((join (map quote ts) ++ lit "]") ++ y) e).1 in
    let (st, xy) = list_injective ss ts x y h k (
      sym (append_assoc (join (map quote ss)) (lit "]") x)
      ∙ inner
      ∙ append_assoc (join (map quote ts)) (lit "]") y) in
    (ap texts st, xy)
