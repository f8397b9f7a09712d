-- ===== src/MrConfig/Id/Accepts.antt =====
-- That verifyMrConfigId accepts the identifier that is computed for its inputs.
use phala_cloud.Common.{
  ℕ, ◌*◌, Text, true, false, not, Option, none, some, ◌∷◌, ◌++◌, if◌then◌else◌, ◌==◌, length,
  replicate, take, text_eq, text_eq_refl, ◌≡◌, refl, ap, ◌∙◌, arith, ◌-◌,
}
use phala_cloud.MrConfig.Id.{
  Bytes, Viem, VerifyInput, Layout, v1, v2, v3, layout_of, expected, bare_of, compare_expected,
  verify_mr_config_id,
}
use phala_cloud.MrConfig.Id.Bytes.{hex_text, length-hex_text, IsViem}
use phala_cloud.MrConfig.Id.Computed.{version_byte, expected-IsIdOf}

layout_of-hex_text :
    (layout : Layout) (rest : Bytes)
    → layout_of (take 2 (hex_text (version_byte layout ∷ rest))) ≡ some layout
unfolding layout_of hex_text text_eq
layout_of-hex_text v1 rest = refl
layout_of-hex_text v2 rest = refl
layout_of-hex_text v3 rest = refl

compare_expected-text_eq :
    (viem : Viem) (to_lower : Text → Text) (layout : Option Layout) (l : Layout) (i : VerifyInput)
    (id : Text)
    → layout ≡ some l
    → expected viem to_lower l i ≡ some id
    → compare_expected viem to_lower (bare_of to_lower id) layout i ≡ some true
unfolding compare_expected
compare_expected-text_eq viem to_lower none l i id h k = absurd (cc h)
compare_expected-text_eq viem to_lower (some m) l i id h k =
    let same : m ≡ l = cc h in rw same (rw k (ap some (text_eq_refl (bare_of to_lower id))))

-- What is behind a length test that holds.
pub after_length {ℓ} :
    {A : Type ℓ} (n m : ℕ) (a b : A) → n ≡ m → (if not (n == m) then a else b) ≡ b
after_length n m a b h = let same : (n == m) ≡ true = ground arith in rw same refl

-- Where viem keeps to its documentation, verifyMrConfigId accepts, for its inputs, the identifier
-- that each of the three layouts computes from them.
pub verify_mr_config_id-expected :
    (viem : Viem) (to_lower : Text → Text)
    → IsViem viem to_lower
    → (layout : Layout) (i : VerifyInput) (id : Text) → expected viem to_lower layout i ≡ some id
    → verify_mr_config_id viem to_lower id i ≡ some true
unfolding verify_mr_config_id
verify_mr_config_id-expected viem to_lower laws layout i id h =
    let found = expected-IsIdOf viem to_lower laws layout i id h in
    let of = found.1 in
    let bare = of.printed in
    let size : length (bare_of to_lower id) ≡ 96 =
      ap length bare ∙ length-hex_text of.result ∙ ap (λ (n : ℕ). n * 2) of.fixed.size in
    let tag =
      ap (λ (t : Text). layout_of (take 2 t)) (bare ∙ ap hex_text of.fixed.is)
      ∙ layout_of-hex_text layout (found.0 ++ replicate (47 - length found.0) 0) in
    after_length (length (bare_of to_lower id)) 96 (some false) _ size
    ∙ compare_expected-text_eq viem to_lower (layout_of (take 2 (bare_of to_lower id))) layout i id
        tag h
