-- ===== src/MrConfig/Canonical/Chain.antt =====
-- That the values of a chain of members can be read off its text.
use phala_cloud.Common.{
  Text, lit, Bool, true, false, ◌&&◌, Option, none, some, List, [], ◌∷◌, ◌++◌, map, All, ◌≡◌, ◌≢◌,
  refl, sym, ap, ◌∙◌, append_assoc,
}
use phala_cloud.Compose.Print.{quote}
use phala_cloud.MrConfig.Canonical.{Value, number, value_text, member_text}
use phala_cloud.MrConfig.Canonical.Order.{chain, behind}
use phala_cloud.MrConfig.Canonical.Injective.{
  cons_injective, append_cancel, diverge, diverge-ne, IsClean, value_text_injective,
}

abbrev pub Member : Type 0
Member = Text × Option Value

-- A member's text up to its value.
abbrev head : Text → Text
head key = quote key ++ lit ":"

member_text-append :
    (key : Text) (v : Value) (x : Text) → member_text key v ++ x ≡ head key ++ (value_text v ++ x)
unfolding member_text
member_text-append key v x =
    append_assoc (quote key) (b':' ∷ value_text v) x
    ∙ sym (append_assoc (quote key) (lit ":") (value_text v ++ x))

-- No later member can be taken for one of this key.
unfoldable pub apart : Text → List Member → Bool
unfolding diverge quote
apart key [] = diverge (head (lit "version")) (head key)
apart key (m ∷ ms) = let rest = apart key ms in diverge (head m.0) (head key) && rest

member_text-ne :
    (k key : Text) (v : Value) (x z : Text)
    → diverge (head k) (head key) ≡ true
    → (member_text k v ++ x) ≢ (head key ++ z)
member_text-ne k key v x z h e =
    diverge-ne (head k) (head key) (value_text v ++ x) z h (sym (member_text-append k v x) ∙ e)

pub both : (p q : Bool) → (p && q) ≡ true → (p ≡ true) × (q ≡ true)
both true q h = (refl, h)
both false q h = absurd (cc h)

chain-apart :
    (key z : Text) (ms : List Member) → apart key ms ≡ true → chain ms behind ≢ (head key ++ z)
unfolding apart chain
chain-apart key z [] h e = member_text-ne (lit "version") key (number 3) (lit "}") z h e
chain-apart key z ((k, none) ∷ ms) h e =
    chain-apart key z ms (both (diverge (head k) (head key)) (apart key ms) h).1 e
chain-apart key z ((k, some v) ∷ ms) h e =
    member_text-ne k key v (b',' ∷ chain ms behind) z
      (both (diverge (head k) (head key)) (apart key ms) h).0 e

-- Two values of each key.
abbrev pub Pair : Type 0
Pair = Text × (Option Value × Option Value)

abbrev pub left : List Pair → List Member
left ps = map (λ (p : Pair). (p.0, p.1.0)) ps

abbrev pub right : List Pair → List Member
right ps = map (λ (p : Pair). (p.0, p.1.1)) ps

unfoldable pub AreApart : List Pair → Type 0
AreApart [] = Unit
AreApart (p ∷ ps) = ((apart p.0 (left ps) ≡ true) × (apart p.0 (right ps) ≡ true)) × AreApart ps

abbrev pub IsCleanField : Option Value → Type 0
IsCleanField none = Unit
IsCleanField (some v) = IsClean v

abbrev pub IsCleanPair : Pair → Type 0
IsCleanPair p = IsCleanField p.1.0 × IsCleanField p.1.1

abbrev pub IsSame : Pair → Type 0
IsSame p = p.1.0 ≡ p.1.1

pub chain_injective :
    (ps : List Pair)
    → AreApart ps
    → All IsCleanPair ps
    → chain (left ps) behind ≡ chain (right ps) behind
    → All IsSame ps
unfolding AreApart chain
chain_injective [] a c e = tt
chain_injective ((key, (none, none)) ∷ ps) a c e = (refl, chain_injective ps a.1 c.1 e)
chain_injective ((key, (none, some w)) ∷ ps) a c e = absurd (
    chain-apart key (value_text w ++ (b',' ∷ chain (right ps) behind)) (left ps) a.0.0
      (e ∙ member_text-append key w (b',' ∷ chain (right ps) behind)))
chain_injective ((key, (some v, none)) ∷ ps) a c e = absurd (
    chain-apart key (value_text v ++ (b',' ∷ chain (left ps) behind)) (right ps) a.0.1
      (sym e ∙ member_text-append key v (b',' ∷ chain (left ps) behind)))
chain_injective ((key, (some v, some w)) ∷ ps) a c e =
    let l = chain (left ps) behind in
    let r = chain (right ps) behind in
    let values =
      append_cancel (head key) (value_text v ++ (b',' ∷ l)) (value_text w ++ (b',' ∷ r))
        (sym (member_text-append key v (b',' ∷ l)) ∙ e ∙ member_text-append key w (b',' ∷ r)) in
    let (vw, rest) = value_text_injective v w (b',' ∷ l) (b',' ∷ r) c.0.0 c.0.1 values in
    (ap some vw, chain_injective ps a.1 c.1 (cons_injective b',' b',' l r rest).1)
