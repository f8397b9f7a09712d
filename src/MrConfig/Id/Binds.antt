-- ===== src/MrConfig/Id/Binds.antt =====
-- That an identifier in the third layout fixes the document, as far as SHA-256 does.
use phala_cloud.Common.{
  ℕ, ◌-◌, Text, lit, true, Option, none, some, [], ◌∷◌, ◌++◌, ◌==◌, length, replicate, take,
  text_eq, text_eq_iff, ◌≡◌, ◌≢◌, refl, sym, ap, ◌∙◌, arith, inl, inr, Bool-cases, ◌⊎◌,
}
use phala_cloud.MrConfig.{MrConfigDocument, ok, build_document}
use phala_cloud.MrConfig.Laws.{IsDocument, build_document-IsDocument}
use phala_cloud.MrConfig.Canonical.{canonicalize}
use phala_cloud.MrConfig.Canonical.Ascii.{canonicalize-ascii}
use phala_cloud.MrConfig.Canonical.Injective.{append_cancel}
use phala_cloud.MrConfig.Canonical.Unique.{canonicalize_injective}
use phala_cloud.MrConfig.Id.{
  Bytes, Viem, VerifyInput, Layout, v3, if_ok, layout_of, hash_document, document_input, expected,
  bare_of, compare_expected, verify_mr_config_id,
}
use phala_cloud.MrConfig.Id.Bytes.{hex_text, hex_text_injective, IsViem, IsHashing, sha256-printed}
use phala_cloud.MrConfig.Id.Computed.{IsIdOf, v3-IsIdOf, if_ok-eq-some}

append_same_length : (xs ys us vs : Bytes) → length xs ≡ length ys → xs ++ us ≡ ys ++ vs → xs ≡ ys
append_same_length [] [] us vs h e = refl
append_same_length [] (y ∷ ys) us vs h e = absurd (omega (arith, h))
append_same_length (x ∷ xs) [] us vs h e = absurd (omega (arith, h))
append_same_length (x ∷ xs) (y ∷ ys) us vs h e =
    let first : x ≡ y = cc e in
    let rest = append_same_length xs ys us vs (omega (arith, h)) (cc e) in λ i. first i ∷ rest i

tail_same : (c d : ℕ) (s t : Bytes) → c ∷ s ≡ d ∷ t → s ≡ t
tail_same c d s t h = cc h

-- The bytes that a document is hashed as: "dstack-mr-config-v3:", a zero and its canonical text.
abbrev pub framed : Viem → MrConfigDocument → Bytes
framed viem d =
    viem.string_to_bytes (lit "dstack-mr-config-v3:") ++ (0 ∷ viem.string_to_bytes (canonicalize d))

-- Two different byte strings with one SHA-256: those of two documents.
pub record IsCollision (viem : Viem) (d e : MrConfigDocument) : Type 0 where
  pub differ : framed viem d ≢ framed viem e
  pub same_hash : viem.sha256 (framed viem d) ≡ viem.sha256 (framed viem e)

-- The documents of two inputs are one, or their bytes are a collision of SHA-256.
pub record AreBound (viem : Viem) (to_lower : Text → Text) (i j : VerifyInput) : Type 0 where
  pub left_document : MrConfigDocument
  pub right_document : MrConfigDocument
  pub left : build_document to_lower (document_input i) ≡ ok left_document
  pub right : build_document to_lower (document_input j) ≡ ok right_document
  pub bound : (left_document ≡ right_document) ⊎ IsCollision viem left_document right_document

some-true : (s t : Text) → some (text_eq s t) ≡ some true → s ≡ t
some-true s t h = (text_eq_iff s t).0 (cc h)

compare-expected_id :
    (viem : Viem) (to_lower : Text → Text) (bare : Text) (layout : Option Layout) (i : VerifyInput)
    → layout ≡ some v3
    → compare_expected viem to_lower bare layout i ≡ some true
    → (id : Text) × (expected viem to_lower v3 i ≡ some id) × (bare_of to_lower id ≡ bare)
unfolding compare_expected
compare-expected_id viem to_lower bare none i h k = absurd (cc h)
compare-expected_id viem to_lower bare (some m) i h k =
    let same : m ≡ v3 = cc h in
    let at : if_ok (expected viem to_lower v3 i) (λ id. some (text_eq (bare_of to_lower id) bare))
        ≡ some true =
      (let g = rw same at k in g) in
    let found = if_ok-eq-some (expected viem to_lower v3 i) _ true at in
    (found.0, found.1, some-true (bare_of to_lower found.0) bare found.2)

verify-compare :
    (viem : Viem) (to_lower : Text → Text) (id : Text) (i : VerifyInput)
    → verify_mr_config_id viem to_lower id i ≡ some true
    → compare_expected viem to_lower
        (bare_of to_lower id)
        (layout_of (take 2 (bare_of to_lower id)))
        i
      ≡ some true
unfolding verify_mr_config_id
verify-compare viem to_lower id i h = elim (Bool-cases (length (bare_of to_lower id) == 96)) [
  | inl e ↦ let g = rw e at h in g
  | inr e ↦ let bad = rw e at h in absurd (cc bad)
]

sha256-framed :
    (viem : Viem) (hashing : IsHashing viem) (d : MrConfigDocument) (h : Bytes)
    → hash_document viem d ≡ some h
    → viem.sha256 (framed viem d) ≡ lit "0x" ++ hex_text h
unfolding hash_document
sha256-framed viem hashing d h e = sha256-printed hashing (framed viem d) h e

framed_injective :
    (viem : Viem) (hashing : IsHashing viem) (d e : MrConfigDocument)
    → IsDocument d
    → IsDocument e
    → framed viem d ≡ framed viem e
    → canonicalize d ≡ canonicalize e
framed_injective viem hashing d e p q same =
    let domain = viem.string_to_bytes (lit "dstack-mr-config-v3:") in
    let x = viem.string_to_bytes (canonicalize d) in
    let y = viem.string_to_bytes (canonicalize e) in
    sym (hashing.string_to_bytes-ascii (canonicalize d) (canonicalize-ascii d p))
    ∙ tail_same 0 0 x y (append_cancel domain (0 ∷ x) (0 ∷ y) same)
    ∙ hashing.string_to_bytes-ascii (canonicalize e) (canonicalize-ascii e q)

bound-documents :
    (viem : Viem) (to_lower : Text → Text) (hashing : IsHashing viem) (i j : VerifyInput)
    (d e : MrConfigDocument)
    → build_document to_lower (document_input i) ≡ ok d
    → build_document to_lower (document_input j) ≡ ok e
    → viem.sha256 (framed viem d) ≡ viem.sha256 (framed viem e)
    → AreBound viem to_lower i j
bound-documents viem to_lower hashing i j d e left right hash =
    let p = build_document-IsDocument to_lower (document_input i) d left in
    let q = build_document-IsDocument to_lower (document_input j) e right in
    elim (Bool-cases (text_eq (canonicalize d) (canonicalize e))) [
      | inl same ↦ record {
        left_document = d;
        right_document = e;
        left = left;
        right = right;
        bound = inl (
            canonicalize_injective d e p q
              ((text_eq_iff (canonicalize d) (canonicalize e)).0 same));
      }
      | inr apart ↦
          let differ : framed viem d ≢ framed viem e = λ same.
            let one = framed_injective viem hashing d e p q same in
            let bad = sym ((text_eq_iff (canonicalize d) (canonicalize e)).1 one) ∙ apart in
            cc bad in
          record {
            left_document = d;
            right_document = e;
            left = left;
            right = right;
            bound = inr (record { differ = differ; same_hash = hash });
          }
    ]

hashes-same :
    (viem : Viem) (to_lower : Text → Text) (laws : IsViem viem to_lower) (h k : Bytes) (a b : Text)
    → length h ≡ 32
    → length k ≡ 32
    → IsIdOf viem to_lower laws 3 h a
    → IsIdOf viem to_lower laws 3 k b
    → bare_of to_lower a ≡ bare_of to_lower b
    → h ≡ k
hashes-same viem to_lower laws h k a b hl kl of_a of_b bare =
    let results =
      hex_text_injective of_a.result of_b.result of_a.are_bytes of_b.are_bytes
        (sym of_a.printed ∙ bare ∙ of_b.printed) in
    append_same_length h k (replicate (47 - length h) 0) (replicate (47 - length k) 0) (hl ∙ sym kl)
      (tail_same 3 3 (h ++ replicate (47 - length h) 0) (k ++ replicate (47 - length k) 0)
        (sym of_a.fixed.is ∙ results ∙ of_b.fixed.is))

-- Where viem keeps to its documentation and verifyMrConfigId accepts one identifier in the third
-- layout for two inputs, both inputs build a document, and the documents are one or the bytes that
-- they are hashed as, the domain, a zero and the canonical text, are two different byte strings with one
-- SHA-256.
pub verify_mr_config_id-binds :
    (viem : Viem) (to_lower : Text → Text)
    → IsViem viem to_lower
    → IsHashing viem
    → (id : Text) (i j : VerifyInput) → layout_of (take 2 (bare_of to_lower id)) ≡ some v3
    → verify_mr_config_id viem to_lower id i ≡ some true
    → verify_mr_config_id viem to_lower id j ≡ some true
    → AreBound viem to_lower i j
verify_mr_config_id-binds viem to_lower laws hashing id i j tag at_i at_j =
    let bare = bare_of to_lower id in
    let first =
      compare-expected_id viem to_lower bare (layout_of (take 2 bare)) i tag
        (verify-compare viem to_lower id i at_i) in
    let second =
      compare-expected_id viem to_lower bare (layout_of (take 2 bare)) j tag
        (verify-compare viem to_lower id j at_j) in
    let built = v3-IsIdOf viem to_lower laws i first.0 first.1 in
    let again = v3-IsIdOf viem to_lower laws j second.0 second.1 in
    let same =
      hashes-same viem to_lower laws built.1 again.1 first.0 second.0 built.4 again.4 built.5
        again.5 (first.2 ∙ sym second.2) in
    bound-documents viem to_lower hashing i j built.0 again.0 built.2 again.2 (
      sha256-framed viem hashing built.0 built.1 built.3
      ∙ ap (λ (b : Bytes). lit "0x" ++ hex_text b) same
      ∙ sym (sha256-framed viem hashing again.0 again.1 again.3))
