-- ===== src/MrConfig/Laws.antt =====
-- What a document that is built looks like, and that building it again gives it.
use phala_cloud.Common.{
  ℕ, suc, ◌*◌, ◌%◌, ◌≤◌, Text, lit, true, false, ◌&&◌, ◌||◌, Option, none, some, List, [], ◌∷◌, ◌≡◌,
  refl, sym, ap, subst, ◌==◌, ltb, is_empty, length, all, All, arith, inl, inr, Bool-cases,
}
use phala_cloud.MrConfig.{
  MrConfigInput, MrConfigDocument, Result, ok, threw, and_then, strip_0x, is_lower_hex,
  expect_byte_length, normalize_hex, required_bytes, expect_length, keep_some, set_bare,
  optional_bytes, item_name, script_hashes, some_list, init_scripts, build_document,
  max_init_scripts,
}

and_then-eq-ok {ℓ κ} :
    {A : Type ℓ} {B : Type κ} (r : Result A) (k : A → Result B) (b : B)
    → and_then r k ≡ ok b
    → (a : A) × (r ≡ ok a) × (k a ≡ ok b)
and_then-eq-ok (ok a) k b h = (a, refl, h)
and_then-eq-ok (threw e) k b h = absurd (cc h)

ok_injective {ℓ} : {A : Type ℓ} {a b : A} → ok a ≡ ok b → a ≡ b
ok_injective h = cc h

abbrev pub HasLength : Option ℕ → Text → Type 0
HasLength none s = Unit
HasLength (some bytes) s = length s ≡ bytes * 2

-- Whole bytes in lower-case hexadecimal digits, one at least, as many as the field has.
pub record IsBytes (bytes : Option ℕ) (s : Text) : Type 0 where
  pub hex : all is_lower_hex s ≡ true
  pub even : (length s % 2 == 0) ≡ true
  pub size : HasLength bytes s
  pub some_byte : is_empty s ≡ false

abbrev pub IsField : Option ℕ → Option Text → Type 0
IsField bytes none = Unit
IsField bytes (some s) = IsBytes bytes s

abbrev pub AreScripts : Option (List Text) → Type 0
AreScripts none = Unit
AreScripts (some hs) = (length hs ≤ max_init_scripts) × All (IsBytes (some 32)) hs

pub record IsDocument (d : MrConfigDocument) : Type 0 where
  pub compose_hash : IsBytes (some 32) d.compose_hash
  pub app_id : IsField (some 20) d.app_id
  pub gpu_policy_hash : IsField (some 32) d.gpu_policy_hash
  pub key_provider_id : IsField none d.key_provider_id
  pub instance_id : IsField (some 20) d.instance_id
  pub init_script_hashes : AreScripts d.init_script_hashes

-- The document, given as inputs again.
abbrev pub as_input : MrConfigDocument → MrConfigInput
as_input d = record {
  app_id = d.app_id;
  compose_hash = d.compose_hash;
  gpu_policy_hash = d.gpu_policy_hash;
  key_provider = d.key_provider;
  key_provider_id = d.key_provider_id;
  instance_id = d.instance_id;
  init_script_hashes = d.init_script_hashes;
}

expect_byte_length-eq-ok :
    (s : Text) (bytes : ℕ) (field t : Text)
    → expect_byte_length s bytes field ≡ ok t
    → (s ≡ t) × (length s ≡ bytes * 2)
unfolding expect_byte_length
expect_byte_length-eq-ok s bytes field t h = elim (Bool-cases (length s == bytes * 2)) [
  | inl e ↦ let same = rw e at h in (cc same, ground arith)
  | inr e ↦ let bad = rw e at h in absurd (cc bad)
]

pub expect_byte_length-ok :
    (s : Text) (bytes : ℕ) (field : Text)
    → length s ≡ bytes * 2
    → expect_byte_length s bytes field ≡ ok s
unfolding expect_byte_length
expect_byte_length-ok s bytes field e =
    let same : (length s == bytes * 2) ≡ true = ground arith in rw same refl

pub strip_0x-hex : (s : Text) → all is_lower_hex s ≡ true → strip_0x s ≡ s
unfolding strip_0x
strip_0x-hex [] h = refl
strip_0x-hex (c ∷ []) h = refl
strip_0x-hex (c ∷ d ∷ s) h =
    let solid : (c == b'0' && (d == b'x' || d == b'X')) ≡ false = ground arith in rw solid refl

module _ (to_lower : Text → Text) where
  normalize_hex-eq-ok :
      (value field s : Text)
      → normalize_hex to_lower value field ≡ ok s
      → (all is_lower_hex s ≡ true) × ((length s % 2 == 0) ≡ true)
  unfolding normalize_hex
  normalize_hex-eq-ok value field s h =
      let bare : Text = to_lower (strip_0x value) in
      elim (Bool-cases (all is_lower_hex bare)) [
        | inr e ↦ let bad = rw e at h in absurd (cc bad)
        | inl e ↦
            let h1 = rw e at h in
            elim (Bool-cases (length bare % 2 == 0)) [
              | inr l ↦ let bad = rw l at h1 in absurd (cc bad)
              | inl l ↦
                  let found = rw l at h1 in
                  let same : bare ≡ s = cc found in (rw (← same) e, rw (← same) l)
            ]
      ]

  size-IsBytes :
      (bytes : ℕ) (s : Text)
      → all is_lower_hex s ≡ true
      → (length s % 2 == 0) ≡ true
      → length s ≡ suc bytes * 2
      → IsBytes (some (suc bytes)) s
  size-IsBytes bytes [] h e l = absurd (omega arith)
  size-IsBytes bytes (c ∷ s) h e l = record { hex = h; even = e; size = l; some_byte = refl }

  required_bytes-eq-ok :
      (bytes : ℕ) (field value s : Text)
      → required_bytes to_lower (suc bytes) field value ≡ ok s
      → IsBytes (some (suc bytes)) s
  unfolding required_bytes
  required_bytes-eq-ok bytes field value s h =
      let (bare, n, e) =
        and_then-eq-ok (normalize_hex to_lower value field)
          (λ b. expect_byte_length b (suc bytes) field) s h in
      let (same, l) = expect_byte_length-eq-ok bare (suc bytes) field s e in
      let (hex, even) = normalize_hex-eq-ok value field bare n in
      rw (← same) (size-IsBytes bytes bare hex even l)

  expect_length-eq-ok :
      (bytes : Option ℕ) (field bare s : Text)
      → expect_length bytes field bare ≡ ok s
      → (bare ≡ s) × HasLength bytes bare
  expect_length-eq-ok none field bare s h = (cc h, tt)
  expect_length-eq-ok (some n) field bare s h = expect_byte_length-eq-ok bare n field s h

  keep_some-eq-ok :
      (r : Result Text) (o : Option Text)
      → keep_some r ≡ ok o
      → (s : Text) × (r ≡ ok s) × (o ≡ some s)
  keep_some-eq-ok (ok s) o h = (s, refl, sym (cc h))
  keep_some-eq-ok (threw e) o h = absurd (cc h)

  set_bare-eq-ok :
      (bytes : Option ℕ) (field bare : Text) (o : Option Text)
      → all is_lower_hex bare ≡ true
      → (length bare % 2 == 0) ≡ true
      → set_bare bytes field bare ≡ ok o
      → IsField bytes o
  unfolding set_bare
  set_bare-eq-ok bytes field bare o hex even h = elim (Bool-cases (is_empty bare)) [
    | inl e ↦ let found = rw e at h in let same : none ≡ o = cc found in rw (← same) tt
    | inr e ↦
        let (s, x, same) = keep_some-eq-ok (expect_length bytes field bare) o (rw e at h) in
        let (kept, l) = expect_length-eq-ok bytes field bare s x in
        rw same (rw (← kept) (record { hex = hex; even = even; size = l; some_byte = e }))
  ]

  optional_bytes-eq-ok :
      (bytes : Option ℕ) (field : Text) (value o : Option Text)
      → optional_bytes to_lower bytes field value ≡ ok o
      → IsField bytes o
  unfolding optional_bytes
  optional_bytes-eq-ok bytes field none o h = let same : none ≡ o = cc h in rw (← same) tt
  optional_bytes-eq-ok bytes field (some value) o h = elim (Bool-cases (is_empty value)) [
    | inl e ↦ let found = rw e at h in let same : none ≡ o = cc found in rw (← same) tt
    | inr e ↦
        let (bare, n, x) =
          and_then-eq-ok (normalize_hex to_lower value field) (set_bare bytes field) o
            (rw e at h) in
        let (hex, even) = normalize_hex-eq-ok value field bare n in
        set_bare-eq-ok bytes field bare o hex even x
  ]

  script_hashes-eq-ok :
      (index : ℕ) (hashes hs : List Text)
      → script_hashes to_lower index hashes ≡ ok hs
      → (length hs ≡ length hashes) × All (IsBytes (some 32)) hs
  unfolding script_hashes
  script_hashes-eq-ok index [] hs h = let same : [] ≡ hs = cc h in rw (← same) (refl, tt)
  script_hashes-eq-ok index (hash ∷ hashes) hs h =
      let (x, r, k) = and_then-eq-ok (required_bytes to_lower 32 (item_name index) hash) _ hs h in
      let (xs, rs, e) = and_then-eq-ok (script_hashes to_lower (suc index) hashes) _ hs k in
      let (l, bs) = script_hashes-eq-ok (suc index) hashes xs rs in
      let same : x ∷ xs ≡ hs = cc e in
      rw (← same) (ap suc l, (required_bytes-eq-ok 31 (item_name index) hash x r, bs))

  some_list-eq-ok :
      (r : Result (List Text)) (o : Option (List Text))
      → some_list r ≡ ok o
      → (hs : List Text) × (r ≡ ok hs) × (o ≡ some hs)
  some_list-eq-ok (ok hs) o h = (hs, refl, sym (cc h))
  some_list-eq-ok (threw e) o h = absurd (cc h)

  init_scripts-eq-ok :
      (hashes o : Option (List Text)) → init_scripts to_lower hashes ≡ ok o → AreScripts o
  unfolding init_scripts
  init_scripts-eq-ok none o h = let same : none ≡ o = cc h in rw (← same) tt
  init_scripts-eq-ok (some hashes) o h = elim (Bool-cases (ltb max_init_scripts (length hashes))) [
    | inl e ↦ let bad = rw e at h in absurd (cc bad)
    | inr e ↦
        let (hs, r, same) = some_list-eq-ok (script_hashes to_lower 0 hashes) o (rw e at h) in
        let (l, bs) = script_hashes-eq-ok 0 hashes hs r in rw same (ground (arith, l), bs)
  ]

  -- A document that buildMrConfigV3Document returns has a compose hash of 32 bytes, each other field
  -- absent or with its number of bytes, one at least, in lower-case digits, and five script hashes of
  -- 32 bytes at most.
  pub build_document-IsDocument :
      (i : MrConfigInput) (d : MrConfigDocument) → build_document to_lower i ≡ ok d → IsDocument d
  unfolding build_document
  build_document-IsDocument i d h =
      let (c, c_ok, h1) =
        and_then-eq-ok (required_bytes to_lower 32 (lit "compose_hash") i.compose_hash) _ d h in
      let (a, a_ok, h2) =
        and_then-eq-ok (optional_bytes to_lower (some 20) (lit "app_id") i.app_id) _ d h1 in
      let (g, g_ok, h3) =
        and_then-eq-ok (optional_bytes to_lower (some 32) (lit "gpu_policy_hash") i.gpu_policy_hash)
          _ d h2 in
      let (k, k_ok, h4) =
        and_then-eq-ok (optional_bytes to_lower none (lit "key_provider_id") i.key_provider_id) _ d
          h3 in
      let (n, n_ok, h5) =
        and_then-eq-ok (optional_bytes to_lower (some 20) (lit "instance_id") i.instance_id) _ d
          h4 in
      let (s, s_ok, h6) = and_then-eq-ok (init_scripts to_lower i.init_script_hashes) _ d h5 in
      subst IsDocument (ok_injective h6) (record {
        compose_hash = required_bytes-eq-ok 31 (lit "compose_hash") i.compose_hash c c_ok;
        app_id = optional_bytes-eq-ok (some 20) (lit "app_id") i.app_id a a_ok;
        gpu_policy_hash =
            optional_bytes-eq-ok (some 32) (lit "gpu_policy_hash") i.gpu_policy_hash g g_ok;
        key_provider_id =
            optional_bytes-eq-ok none (lit "key_provider_id") i.key_provider_id k k_ok;
        instance_id = optional_bytes-eq-ok (some 20) (lit "instance_id") i.instance_id n n_ok;
        init_script_hashes = init_scripts-eq-ok i.init_script_hashes s s_ok;
      })
