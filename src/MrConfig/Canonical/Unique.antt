-- ===== src/MrConfig/Canonical/Unique.antt =====
-- That two documents with one canonical text are one document.
use phala_cloud.Common.{
  ℕ, Text, lit, true, Option, none, some, List, [], ◌∷◌, all, All, ◌≡◌, refl, sym, ap, ◌∙◌, arith,
  if◌then◌else◌, text_eq,
}
use phala_cloud.Compose.Print.{quote, is_unescaped}
use phala_cloud.MrConfig.{
  KeyProviderKind, no_provider, local, kms, tpm, MrConfigDocument, is_lower_hex,
}
use phala_cloud.MrConfig.Laws.{IsBytes, IsField, AreScripts, IsDocument}
use phala_cloud.MrConfig.Canonical.{
  text, kind_text, text_or_undefined, texts_or_undefined, canonicalize,
}
use phala_cloud.MrConfig.Canonical.Order.{front, chain, behind, canonicalize-chain}
use phala_cloud.MrConfig.Canonical.Injective.{cons_injective, diverge}
use phala_cloud.MrConfig.Canonical.Chain.{
  Pair, left, right, both, apart, AreApart, IsCleanField, IsCleanPair, IsSame, chain_injective,
}

pairs : MrConfigDocument → MrConfigDocument → List Pair
pairs d e =
    (lit "app_id", (text_or_undefined d.app_id, text_or_undefined e.app_id))
    ∷ (lit "compose_hash", (some (text d.compose_hash), some (text e.compose_hash)))
    ∷ (
      lit "gpu_policy_hash",
      (text_or_undefined d.gpu_policy_hash, text_or_undefined e.gpu_policy_hash),
    )
    ∷ (
      lit "init_script_hashes",
      (texts_or_undefined d.init_script_hashes, texts_or_undefined e.init_script_hashes),
    )
    ∷ (lit "instance_id", (text_or_undefined d.instance_id, text_or_undefined e.instance_id))
    ∷ (
      lit "key_provider",
      (some (text (kind_text d.key_provider)), some (text (kind_text e.key_provider))),
    )
    ∷ (
      lit "key_provider_id",
      (text_or_undefined d.key_provider_id, text_or_undefined e.key_provider_id),
    )
    ∷ []

pairs-AreApart : (d e : MrConfigDocument) → AreApart (pairs d e)
unfolding pairs AreApart apart diverge quote
pairs-AreApart d e = (
  (refl, refl),
  (
    (refl, refl),
    ((refl, refl), ((refl, refl), ((refl, refl), ((refl, refl), ((refl, refl), tt))))),
  ),
)

is_lower_hex-is_unescaped : (s : Text) → all is_lower_hex s ≡ true → all is_unescaped s ≡ true
is_lower_hex-is_unescaped [] h = refl
is_lower_hex-is_unescaped (c ∷ s) h =
    let parts = both (is_lower_hex c) (all is_lower_hex s) h in
    let one : is_lower_hex c ≡ true = parts.0 in
    let plain : is_unescaped c ≡ true = ground arith in
    rw plain (is_lower_hex-is_unescaped s parts.1)

IsField-clean :
    (bytes : Option ℕ) (o : Option Text) → IsField bytes o → IsCleanField (text_or_undefined o)
IsField-clean bytes none h = tt
IsField-clean bytes (some s) h = is_lower_hex-is_unescaped s h.hex

scripts-clean :
    (hs : List Text) → All (IsBytes (some 32)) hs → All (λ s. all is_unescaped s ≡ true) hs
scripts-clean [] h = tt
scripts-clean (s ∷ hs) h = (is_lower_hex-is_unescaped s h.0.hex, scripts-clean hs h.1)

AreScripts-clean : (o : Option (List Text)) → AreScripts o → IsCleanField (texts_or_undefined o)
AreScripts-clean none h = tt
AreScripts-clean (some hs) h = scripts-clean hs h.1

kind_text-clean : (k : KeyProviderKind) → all is_unescaped (kind_text k) ≡ true
kind_text-clean no_provider = refl
kind_text-clean local = refl
kind_text-clean kms = refl
kind_text-clean tpm = refl

pairs-clean : (d e : MrConfigDocument) → IsDocument d → IsDocument e → All IsCleanPair (pairs d e)
unfolding pairs
pairs-clean d e h k = (
  (IsField-clean _ d.app_id h.app_id, IsField-clean _ e.app_id k.app_id),
  (
    (
      is_lower_hex-is_unescaped d.compose_hash h.compose_hash.hex,
      is_lower_hex-is_unescaped e.compose_hash k.compose_hash.hex,
    ),
    (
      (
        IsField-clean _ d.gpu_policy_hash h.gpu_policy_hash,
        IsField-clean _ e.gpu_policy_hash k.gpu_policy_hash,
      ),
      (
        (
          AreScripts-clean d.init_script_hashes h.init_script_hashes,
          AreScripts-clean e.init_script_hashes k.init_script_hashes,
        ),
        (
          (
            IsField-clean _ d.instance_id h.instance_id,
            IsField-clean _ e.instance_id k.instance_id,
          ),
          (
            (kind_text-clean d.key_provider, kind_text-clean e.key_provider),
            (
              (
                IsField-clean _ d.key_provider_id h.key_provider_id,
                IsField-clean _ e.key_provider_id k.key_provider_id,
              ),
              tt,
            ),
          ),
        ),
      ),
    ),
  ),
)

text_or_undefined_injective :
    (o p : Option Text) → text_or_undefined o ≡ text_or_undefined p → o ≡ p
text_or_undefined_injective none none h = refl
text_or_undefined_injective none (some s) h = absurd (cc h)
text_or_undefined_injective (some s) none h = absurd (cc h)
text_or_undefined_injective (some s) (some t) h = cc h

texts_or_undefined_injective :
    (o p : Option (List Text)) → texts_or_undefined o ≡ texts_or_undefined p → o ≡ p
texts_or_undefined_injective none none h = refl
texts_or_undefined_injective none (some s) h = absurd (cc h)
texts_or_undefined_injective (some s) none h = absurd (cc h)
texts_or_undefined_injective (some s) (some t) h = cc h

-- The kind that a text names.
text_kind : Text → KeyProviderKind
unfolding text_eq
text_kind s =
    if text_eq s (lit "none")
    then no_provider
    else if text_eq s (lit "local")
    then local
    else if text_eq s (lit "kms")
    then kms
    else tpm

text_kind-kind_text : (k : KeyProviderKind) → text_kind (kind_text k) ≡ k
unfolding text_kind text_eq
text_kind-kind_text no_provider = refl
text_kind-kind_text local = refl
text_kind-kind_text kms = refl
text_kind-kind_text tpm = refl

some_text_injective : (s t : Text) → some (text s) ≡ some (text t) → s ≡ t
some_text_injective s t h = cc h

kind_text_injective :
    (k l : KeyProviderKind) → some (text (kind_text k)) ≡ some (text (kind_text l)) → k ≡ l
kind_text_injective k l h =
    sym (text_kind-kind_text k)
    ∙ ap text_kind (some_text_injective (kind_text k) (kind_text l) h)
    ∙ text_kind-kind_text l

pairs-same : (d e : MrConfigDocument) → All IsSame (pairs d e) → d ≡ e
unfolding pairs
pairs-same d e h = λ i. record {
  app_id = text_or_undefined_injective d.app_id e.app_id h.0 i;
  compose_hash = some_text_injective d.compose_hash e.compose_hash h.1.0 i;
  gpu_policy_hash = text_or_undefined_injective d.gpu_policy_hash e.gpu_policy_hash h.1.1.0 i;
  init_script_hashes =
      texts_or_undefined_injective d.init_script_hashes e.init_script_hashes h.1.1.1.0 i;
  instance_id = text_or_undefined_injective d.instance_id e.instance_id h.1.1.1.1.0 i;
  key_provider = kind_text_injective d.key_provider e.key_provider h.1.1.1.1.1.0 i;
  key_provider_id =
      text_or_undefined_injective d.key_provider_id e.key_provider_id h.1.1.1.1.1.1.0 i;
}

front-left : (d e : MrConfigDocument) → left (pairs d e) ≡ front d
unfolding pairs
front-left d e = refl

front-right : (d e : MrConfigDocument) → right (pairs d e) ≡ front e
unfolding pairs
front-right d e = refl

-- Two documents with fields as buildMrConfigV3Document leaves them, whose canonical texts are
-- one, are one document.
pub canonicalize_injective :
    (d e : MrConfigDocument) → IsDocument d → IsDocument e → canonicalize d ≡ canonicalize e → d ≡ e
canonicalize_injective d e h k same =
    let texts_same =
      (cons_injective b'{' b'{' (chain (front d) behind) (chain (front e) behind)
        (sym (canonicalize-chain d) ∙ same ∙ canonicalize-chain e)).1 in
    pairs-same d e (
      chain_injective (pairs d e) (pairs-AreApart d e) (pairs-clean d e h k) (
        ap (λ ms. chain ms behind) (front-left d e)
        ∙ texts_same
        ∙ ap (λ ms. chain ms behind) (sym (front-right d e))))
