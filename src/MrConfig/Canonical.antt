-- ===== src/MrConfig/Canonical.antt =====
-- js/src/utils/get_mr_config_id.ts: the canonical JSON of a MrConfigV3 document.
pub mod Order
pub mod Injective
pub mod Chain
pub mod Unique
pub mod Ascii
use phala_cloud.Common.{
  ℕ, Text, lit, Bool, Option, none, some, List, [], ◌∷◌, ◌++◌, map, if◌then◌else◌, decimal,
}
use phala_cloud.Compose.{text_leb}
use phala_cloud.Compose.Print.{quote}
use phala_cloud.MrConfig.{KeyProviderKind, no_provider, local, kms, tpm, MrConfigDocument}

-- The value of a member.
pub data Value : Type 0 where
  number : ℕ → Value
  text : Text → Value
  texts : List Text → Value

abbrev pub kind_text : KeyProviderKind → Text
kind_text no_provider = lit "none"
kind_text local = lit "local"
kind_text kms = lit "kms"
kind_text tpm = lit "tpm"

abbrev pub text_or_undefined : Option Text → Option Value
text_or_undefined none = none
text_or_undefined (some s) = some (text s)

abbrev pub texts_or_undefined : Option (List Text) → Option Value
texts_or_undefined none = none
texts_or_undefined (some hs) = some (texts hs)

-- The members as buildMrConfigV3Document sets them; `none` for one that is undefined.
abbrev pub members : MrConfigDocument → List (Text × Option Value)
members d =
    (lit "version", some (number 3))
    ∷ (lit "compose_hash", some (text d.compose_hash))
    ∷ (lit "key_provider", some (text (kind_text d.key_provider)))
    ∷ (lit "app_id", text_or_undefined d.app_id)
    ∷ (lit "gpu_policy_hash", text_or_undefined d.gpu_policy_hash)
    ∷ (lit "key_provider_id", text_or_undefined d.key_provider_id)
    ∷ (lit "instance_id", text_or_undefined d.instance_id)
    ∷ (lit "init_script_hashes", texts_or_undefined d.init_script_hashes)
    ∷ []

unfoldable pub insert_member :
    Text × Option Value → List (Text × Option Value) → List (Text × Option Value)
unfolding text_leb
insert_member m [] = m ∷ []
insert_member m (n ∷ ns) = if text_leb m.0 n.0 then m ∷ n ∷ ns else n ∷ insert_member m ns

-- Object.keys(document).sort(), with the values
unfoldable pub sort_members : List (Text × Option Value) → List (Text × Option Value)
unfolding insert_member
sort_members [] = []
sort_members (m ∷ ms) = insert_member m (sort_members ms)

-- join(",")
unfoldable pub join : List Text → Text
join [] = []
join (s ∷ []) = s
join (s ∷ t ∷ ss) = s ++ (b',' ∷ join (t ∷ ss))

unfoldable pub value_text : Value → Text
unfolding quote decimal join
value_text (number n) = decimal n
value_text (text s) = quote s
value_text (texts ss) = b'[' ∷ (join (map quote ss) ++ lit "]")

-- JSON.stringify(key), ":" and the value
unfoldable pub member_text : Text → Value → Text
unfolding value_text quote
member_text key v = quote key ++ (b':' ∷ value_text v)

-- The loop over the members; one that is undefined is skipped.
unfoldable pub member_texts : List (Text × Option Value) → List Text
unfolding member_text
member_texts [] = []
member_texts ((key, none) ∷ ms) = member_texts ms
member_texts ((key, some v) ∷ ms) = member_text key v ∷ member_texts ms

-- canonicalizeMrConfigV3Document
unfoldable pub canonicalize : MrConfigDocument → Text
unfolding sort_members member_texts join
canonicalize d = b'{' ∷ (join (member_texts (sort_members (members d))) ++ lit "}")
