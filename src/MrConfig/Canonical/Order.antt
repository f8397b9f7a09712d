-- ===== src/MrConfig/Canonical/Order.antt =====
-- The canonical text, member by member in the order of the keys.
use phala_cloud.Common.{
  Text, lit, Option, none, some, List, [], ◌∷◌, ◌++◌, ◌≡◌, ◌≢◌, refl, ap, ◌∙◌, append_assoc,
}
use phala_cloud.Compose.{text_leb}
use phala_cloud.MrConfig.{MrConfigDocument}
use phala_cloud.MrConfig.Canonical.{
  Value, number, text, kind_text, text_or_undefined, texts_or_undefined, members, insert_member,
  sort_members, join, member_text, member_texts, canonicalize,
}

-- The members before the last, in the order of their keys.
abbrev pub front : MrConfigDocument → List (Text × Option Value)
front d =
    (lit "app_id", text_or_undefined d.app_id)
    ∷ (lit "compose_hash", some (text d.compose_hash))
    ∷ (lit "gpu_policy_hash", text_or_undefined d.gpu_policy_hash)
    ∷ (lit "init_script_hashes", texts_or_undefined d.init_script_hashes)
    ∷ (lit "instance_id", text_or_undefined d.instance_id)
    ∷ (lit "key_provider", some (text (kind_text d.key_provider)))
    ∷ (lit "key_provider_id", text_or_undefined d.key_provider_id)
    ∷ []

abbrev pub version : Text × Option Value
version = (lit "version", some (number 3))

sort_members-members : (d : MrConfigDocument) → sort_members (members d) ≡ front d ++ (version ∷ [])
unfolding sort_members insert_member text_leb
sort_members-members d = refl

-- The members with a comma behind each, and a text behind them.
unfoldable pub chain : List (Text × Option Value) → Text → Text
chain [] t = t
chain ((key, none) ∷ ms) t = chain ms t
chain ((key, some v) ∷ ms) t = member_text key v ++ (b',' ∷ chain ms t)

join-cons : (s : Text) (ss : List Text) → ss ≢ [] → join (s ∷ ss) ≡ s ++ (b',' ∷ join ss)
unfolding join
join-cons s [] n = absurd (n refl)
join-cons s (t ∷ ss) n = refl

member_texts_ne_nil :
    (ms : List (Text × Option Value)) (key : Text) (v : Value)
    → member_texts (ms ++ ((key, some v) ∷ [])) ≢ []
unfolding member_texts
member_texts_ne_nil [] key v e = cc e
member_texts_ne_nil ((k, none) ∷ ms) key v e = member_texts_ne_nil ms key v e
member_texts_ne_nil ((k, some w) ∷ ms) key v e = cc e

join-member_texts :
    (ms : List (Text × Option Value)) (key : Text) (v : Value) (u : Text)
    → join (member_texts (ms ++ ((key, some v) ∷ []))) ++ u ≡ chain ms (member_text key v ++ u)
unfolding member_texts chain join
join-member_texts [] key v u = refl
join-member_texts ((k, none) ∷ ms) key v u = join-member_texts ms key v u
join-member_texts ((k, some w) ∷ ms) key v u =
    ap (λ (t : Text). t ++ u) (join-cons (member_text k w) _ (member_texts_ne_nil ms key v))
    ∙ append_assoc (member_text k w) (b',' ∷ join (member_texts (ms ++ ((key, some v) ∷ [])))) u
    ∙ ap (λ (t : Text). member_text k w ++ (b',' ∷ t)) (join-member_texts ms key v u)

-- What stands behind the members with a comma.
abbrev pub behind : Text
behind = member_text (lit "version") (number 3) ++ lit "}"

pub canonicalize-chain : (d : MrConfigDocument) → canonicalize d ≡ b'{' ∷ chain (front d) behind
unfolding canonicalize
canonicalize-chain d =
    ap (λ ms. b'{' ∷ (join (member_texts ms) ++ lit "}")) (sort_members-members d)
    ∙ ap (λ (t : Text). b'{' ∷ t) (join-member_texts (front d) (lit "version") (number 3) (lit "}"))
