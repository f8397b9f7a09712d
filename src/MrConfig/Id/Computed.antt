-- ===== src/MrConfig/Id/Computed.antt =====
-- The bytes of an identifier that is computed.
use phala_cloud.Common.{
  ℕ, zero, suc, ◌-◌, ◌<◌, ◌≤◌, Text, Option, none, some, ◌∷◌, ◌++◌, ltb, length, replicate, All,
  All-append, length-append, length-replicate, ◌≡◌, refl, sym, ap, ◌∙◌, subst, arith, inl, inr,
  Bool-cases,
}
use phala_cloud.MrConfig.{MrConfigDocument, Result, ok, threw, build_document}
use phala_cloud.MrConfig.Id.{
  Bytes, Viem, VerifyInput, Layout, v1, v2, v3, if_ok, value_if_ok, with_version_byte, hex_of,
  document_input, get_mr_config_id_v1, get_mr_config_id, hash_document, get_mr_config_id_v3,
  key_provider_id_bytes, expected, bare_of,
}
use phala_cloud.MrConfig.Id.Bytes.{IsByte, hex_text, IsViem, bare_of-to_hex}

pub if_ok-eq-some {ℓ κ} :
    {A : Type ℓ} {B : Type κ} (o : Option A) (k : A → Option B) (b : B)
    → if_ok o k ≡ some b
    → (a : A) × (o ≡ some a) × (k a ≡ some b)
if_ok-eq-some none k b h = absurd (cc h)
if_ok-eq-some (some a) k b h = (a, refl, h)

abbrev pub version_byte : Layout → ℕ
version_byte v1 = 1
version_byte v2 = 2
version_byte v3 = 3

zeros-are-bytes : (n : ℕ) → All IsByte (replicate n 0)
zeros-are-bytes zero = tt
zeros-are-bytes (suc n) = (omega arith, zeros-are-bytes n)

-- A version byte and 47 bytes behind it.
pub record IsVersioned (version : ℕ) (bytes result : Bytes) : Type 0 where
  pub fits : length bytes ≤ 47
  pub is : result ≡ version ∷ (bytes ++ replicate (47 - length bytes) 0)
  pub size : length result ≡ 48

pub with_version_byte-IsVersioned :
    (version : ℕ) (bytes result : Bytes)
    → with_version_byte version bytes ≡ some result
    → IsVersioned version bytes result
unfolding with_version_byte
with_version_byte-IsVersioned version bytes result h =
    elim (Bool-cases (ltb 48 (suc (length bytes)))) [
      | inl e ↦ let bad = rw e at h in absurd (cc bad)
      | inr e ↦
          let fits : length bytes ≤ 47 = ground arith in
          let is : (version ∷ (bytes ++ replicate (48 - suc (length bytes)) 0)) ≡ result =
            (let g = rw e at h in cc g) in
          let pad : 48 - suc (length bytes) ≡ 47 - length bytes = omega arith in
          let size : length (version ∷ (bytes ++ replicate (48 - suc (length bytes)) 0)) ≡ 48 =
            omega (
              arith,
              length-append bytes (replicate (48 - suc (length bytes)) 0),
              length-replicate {A = ℕ} (48 - suc (length bytes)) 0,
            ) in
          record {
            fits = fits;
            is = sym is ∙ ap (λ (n : ℕ). version ∷ (bytes ++ replicate n 0)) pad;
            size = ap length (sym is) ∙ size;
          }
    ]

value_if_ok-eq-some {ℓ} : {A : Type ℓ} (r : Result A) (a : A) → value_if_ok r ≡ some a → r ≡ ok a
value_if_ok-eq-some (ok b) a h = cc h
value_if_ok-eq-some (threw e) a h = absurd (cc h)

module _ (viem : Viem) (to_lower : Text → Text) (laws : IsViem viem to_lower) where
  -- The bytes behind the version, and the identifier that is their hexadecimal text.
  pub record IsIdOf (version : ℕ) (bytes : Bytes) (id : Text) : Type 0 where
    pub result : Bytes
    pub fixed : IsVersioned version bytes result
    pub are_bytes : All IsByte result
    pub printed : bare_of to_lower id ≡ hex_text result

  pub hex_of-IsIdOf :
      (version : ℕ) (bytes : Bytes) (id : Text)
      → version < 256
      → All IsByte bytes
      → hex_of viem version bytes ≡ some id
      → IsIdOf version bytes id
  hex_of-IsIdOf version bytes id small are h =
      let found =
        if_ok-eq-some (with_version_byte version bytes) (λ r. some (viem.to_hex r)) id h in
      let result = found.0 in
      let fixed = with_version_byte-IsVersioned version bytes result found.1 in
      let are_result : All IsByte result = subst (All IsByte) (sym fixed.is) (
        small,
        All-append IsByte bytes (replicate (47 - length bytes) 0) are
            (zeros-are-bytes (47 - length bytes)),
      ) in
      let same : viem.to_hex result ≡ id = (let g = found.2 in cc g) in
      record {
        result = result;
        fixed = fixed;
        are_bytes = are_result;
        printed = ap (bare_of to_lower) (sym same) ∙ bare_of-to_hex laws result are_result;
      }

  hash-length :
      (d : MrConfigDocument) (hash : Bytes) → hash_document viem d ≡ some hash → length hash ≡ 32
  unfolding hash_document
  hash-length d hash h = laws.sha256-length _ hash h

  hash-bytes :
      (d : MrConfigDocument) (hash : Bytes) → hash_document viem d ≡ some hash → All IsByte hash
  unfolding hash_document
  hash-bytes d hash h = laws.to_bytes-byte _ hash h

  pub v3-IsIdOf :
      (i : VerifyInput) (id : Text)
      → expected viem to_lower v3 i ≡ some id
      → (d : MrConfigDocument) × (hash : Bytes) × (build_document to_lower (document_input i)
          ≡ ok d)
        × (hash_document viem d ≡ some hash)
        × (length hash ≡ 32)
        × IsIdOf 3 hash id
  unfolding expected get_mr_config_id_v3
  v3-IsIdOf i id h =
      let built =
        if_ok-eq-some (value_if_ok (build_document to_lower (document_input i)))
          (λ d. get_mr_config_id_v3 viem d) id h in
      let hashed =
        if_ok-eq-some (hash_document viem built.0) (λ hash. hex_of viem 3 hash) id built.2 in
      (
        built.0,
        hashed.0,
        value_if_ok-eq-some _ built.0 built.1,
        hashed.1,
        hash-length built.0 hashed.0 hashed.1,
        hex_of-IsIdOf 3 hashed.0 id (omega arith) (hash-bytes built.0 hashed.0 hashed.1) hashed.2,
      )

  v1-IsIdOf :
      (i : VerifyInput) (id : Text)
      → expected viem to_lower v1 i ≡ some id
      → (bytes : Bytes) × IsIdOf 1 bytes id
  unfolding expected get_mr_config_id_v1
  v1-IsIdOf i id h =
      let read = if_ok-eq-some (viem.to_bytes i.compose_hash) (λ bytes. hex_of viem 1 bytes) id h in
      (
        read.0,
        hex_of-IsIdOf 1 read.0 id (omega arith) (laws.to_bytes-byte i.compose_hash read.0 read.1)
            read.2,
      )

  v2_hash :
      (payload : Bytes) (id : Text)
      → if_ok (viem.to_bytes (viem.keccak256 payload)) (λ hash. hex_of viem 2 hash) ≡ some id
      → (bytes : Bytes) × IsIdOf 2 bytes id
  v2_hash payload id h =
      let read =
        if_ok-eq-some (viem.to_bytes (viem.keccak256 payload)) (λ hash. hex_of viem 2 hash) id h in
      (
        read.0,
        hex_of-IsIdOf 2 read.0 id (omega arith)
            (laws.to_bytes-byte (viem.keccak256 payload) read.0 read.1) read.2,
      )

  v2-IsIdOf :
      (i : VerifyInput) (id : Text)
      → expected viem to_lower v2 i ≡ some id
      → (bytes : Bytes) × IsIdOf 2 bytes id
  unfolding expected get_mr_config_id
  v2-IsIdOf i id h =
      let compose_hash = if_ok-eq-some (viem.to_bytes i.compose_hash) _ id h in
      let app_id = if_ok-eq-some (viem.to_bytes i.app_id) _ id compose_hash.2 in
      let key_provider =
        if_ok-eq-some (key_provider_id_bytes viem i.key_provider_id) _ id app_id.2 in
      v2_hash _ id key_provider.2

  pub expected-IsIdOf :
      (layout : Layout) (i : VerifyInput) (id : Text)
      → expected viem to_lower layout i ≡ some id
      → (bytes : Bytes) × IsIdOf (version_byte layout) bytes id
  expected-IsIdOf v1 i id h = v1-IsIdOf i id h
  expected-IsIdOf v2 i id h = v2-IsIdOf i id h
  expected-IsIdOf v3 i id h = let found = v3-IsIdOf i id h in (found.1, found.5)
