-- ===== src/MrConfig/Canonical/Ascii.antt =====
-- That the canonical text of a document is ASCII.
use phala_cloud.Common.{
  ℕ, Text, lit, Bool, true, Option, none, some, List, [], ◌∷◌, ◌++◌, map, all, All, ◌≡◌, refl, sym,
  ap, ◌∙◌, arith, ltb, subst, decimal,
}
use phala_cloud.Compose.Print.{quote, is_unescaped, quote-plain}
use phala_cloud.MrConfig.{
  KeyProviderKind, no_provider, local, kms, tpm, MrConfigDocument, is_lower_hex,
}
use phala_cloud.MrConfig.Laws.{IsBytes, IsField, AreScripts, IsDocument}
use phala_cloud.MrConfig.Canonical.{
  Value, number, text, texts, kind_text, text_or_undefined, texts_or_undefined, join, value_text,
  member_text, canonicalize,
}
use phala_cloud.MrConfig.Canonical.Order.{front, chain, behind, canonicalize-chain}
use phala_cloud.MrConfig.Canonical.Chain.{both}

abbrev pub is_ascii : ℕ → Bool
is_ascii c = ltb c 128

append-ascii :
    (s t : Text) → all is_ascii s ≡ true → all is_ascii t ≡ true → all is_ascii (s ++ t) ≡ true
append-ascii [] t h k = k
append-ascii (c ∷ s) t h k =
    let parts = both (is_ascii c) (all is_ascii s) h in rw parts.0 (append-ascii s t parts.1 k)

-- A text that stands for itself in JSON, and is ASCII.
record IsPlain (s : Text) : Type 0 where
  unescaped : all is_unescaped s ≡ true
  ascii : all is_ascii s ≡ true

quote-ascii : (s : Text) → IsPlain s → all is_ascii (quote s) ≡ true
quote-ascii s p =
    subst (λ t. all is_ascii t ≡ true) (sym (quote-plain s p.unescaped))
      (append-ascii s (b'"' ∷ []) p.ascii refl)

join-ascii : (ss : List Text) → All IsPlain ss → all is_ascii (join (map quote ss)) ≡ true
unfolding join
join-ascii [] h = refl
join-ascii (s ∷ []) h = quote-ascii s h.0
join-ascii (s ∷ t ∷ ss) h =
    append-ascii (quote s) (b',' ∷ join (map quote (t ∷ ss))) (quote-ascii s h.0)
      (join-ascii (t ∷ ss) h.1)

abbrev IsPlainValue : Value → Type 0
IsPlainValue (number n) = ⊥
IsPlainValue (text s) = IsPlain s
IsPlainValue (texts ss) = All IsPlain ss

value_text-ascii : (v : Value) → IsPlainValue v → all is_ascii (value_text v) ≡ true
unfolding value_text
value_text-ascii (number n) h = absurd h
value_text-ascii (text s) h = quote-ascii s h
value_text-ascii (texts ss) h = append-ascii (join (map quote ss)) (lit "]") (join-ascii ss h) refl

abbrev IsPlainMember : Text × Option Value → Type 0
IsPlainMember (key, none) = Unit
IsPlainMember (key, some v) = IsPlain key × IsPlainValue v

chain-ascii :
    (ms : List (Text × Option Value)) (t : Text)
    → All IsPlainMember ms
    → all is_ascii t ≡ true
    → all is_ascii (chain ms t) ≡ true
unfolding chain member_text
chain-ascii [] t h k = k
chain-ascii ((key, none) ∷ ms) t h k = chain-ascii ms t h.1 k
chain-ascii ((key, some v) ∷ ms) t h k =
    append-ascii (quote key ++ (b':' ∷ value_text v)) (b',' ∷ chain ms t)
      (append-ascii (quote key) (b':' ∷ value_text v) (quote-ascii key h.0.0)
        (value_text-ascii v h.0.1))
      (chain-ascii ms t h.1 k)

hex-IsPlain : (s : Text) → all is_lower_hex s ≡ true → IsPlain s
hex-IsPlain [] h = record { unescaped = refl; ascii = refl }
hex-IsPlain (c ∷ s) h =
    let parts = both (is_lower_hex c) (all is_lower_hex s) h in
    let one : is_lower_hex c ≡ true = parts.0 in
    let rest = hex-IsPlain s parts.1 in
    let unescaped : is_unescaped c ≡ true = ground arith in
    let ascii : is_ascii c ≡ true = ground arith in
    record { unescaped = rw unescaped rest.unescaped; ascii = rw ascii rest.ascii }

field-IsPlain :
    (key : Text) (bytes : Option ℕ) (o : Option Text)
    → IsPlain key
    → IsField bytes o
    → IsPlainMember (key, text_or_undefined o)
field-IsPlain key bytes none p h = tt
field-IsPlain key bytes (some s) p h = (p, hex-IsPlain s h.hex)

hashes-IsPlain : (hs : List Text) → All (IsBytes (some 32)) hs → All IsPlain hs
hashes-IsPlain [] h = tt
hashes-IsPlain (s ∷ hs) h = (hex-IsPlain s h.0.hex, hashes-IsPlain hs h.1)

scripts-IsPlain :
    (key : Text) (o : Option (List Text))
    → IsPlain key
    → AreScripts o
    → IsPlainMember (key, texts_or_undefined o)
scripts-IsPlain key none p h = tt
scripts-IsPlain key (some hs) p h = (p, hashes-IsPlain hs h.1)

kind_text-IsPlain : (k : KeyProviderKind) → IsPlain (kind_text k)
kind_text-IsPlain no_provider = record { unescaped = refl; ascii = refl }
kind_text-IsPlain local = record { unescaped = refl; ascii = refl }
kind_text-IsPlain kms = record { unescaped = refl; ascii = refl }
kind_text-IsPlain tpm = record { unescaped = refl; ascii = refl }

front-IsPlain : (d : MrConfigDocument) → IsDocument d → All IsPlainMember (front d)
front-IsPlain d h = (
  field-IsPlain (lit "app_id") _ d.app_id (record { unescaped = refl; ascii = refl }) h.app_id,
  (
    (record { unescaped = refl; ascii = refl }, hex-IsPlain d.compose_hash h.compose_hash.hex),
    (
      field-IsPlain (lit "gpu_policy_hash") _ d.gpu_policy_hash
          (record { unescaped = refl; ascii = refl }) h.gpu_policy_hash,
      (
        scripts-IsPlain (lit "init_script_hashes") d.init_script_hashes
            (record { unescaped = refl; ascii = refl }) h.init_script_hashes,
        (
          field-IsPlain (lit "instance_id") _ d.instance_id
              (record { unescaped = refl; ascii = refl }) h.instance_id,
          (
            (record { unescaped = refl; ascii = refl }, kind_text-IsPlain d.key_provider),
            (
              field-IsPlain (lit "key_provider_id") _ d.key_provider_id
                  (record { unescaped = refl; ascii = refl }) h.key_provider_id,
              tt,
            ),
          ),
        ),
      ),
    ),
  ),
)

behind-ascii : all is_ascii behind ≡ true
unfolding member_text value_text decimal quote
behind-ascii = refl

pub canonicalize-ascii :
    (d : MrConfigDocument) → IsDocument d → all is_ascii (canonicalize d) ≡ true
canonicalize-ascii d h =
    ap (all is_ascii) (canonicalize-chain d)
    ∙ chain-ascii (front d) behind (front-IsPlain d h) behind-ascii
