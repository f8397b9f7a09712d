-- ===== src/MrConfig/Again.antt =====
-- That a document, given as inputs again, is built as it is.
use phala_cloud.Common.{
  ℕ, suc, ◌%◌, Text, lit, true, false, Option, none, some, List, [], ◌∷◌, ◌≡◌, refl, ◌==◌, ltb,
  length, all, All, arith,
}
use phala_cloud.MrConfig.{
  MrConfigDocument, ok, is_lower_hex, normalize_hex, required_bytes, expect_length, set_bare,
  optional_bytes, item_name, script_hashes, init_scripts, build_document, max_init_scripts,
}
use phala_cloud.MrConfig.Laws.{
  HasLength, IsBytes, IsField, AreScripts, IsDocument, as_input, expect_byte_length-ok,
  strip_0x-hex,
}

module _ (to_lower : Text → Text)
    (keeps : (s : Text) → all is_lower_hex s ≡ true → to_lower s ≡ s) where
  normalize_hex-ok :
      (s field : Text)
      → all is_lower_hex s ≡ true
      → (length s % 2 == 0) ≡ true
      → normalize_hex to_lower s field ≡ ok s
  unfolding normalize_hex
  normalize_hex-ok s field hex even =
      rw (strip_0x-hex s hex) (rw (keeps s hex) (rw (hex, even) refl))

  required_bytes-ok :
      (bytes : ℕ) (field s : Text)
      → IsBytes (some bytes) s
      → required_bytes to_lower bytes field s ≡ ok s
  unfolding required_bytes
  required_bytes-ok bytes field s b =
      rw (normalize_hex-ok s field b.hex b.even) (expect_byte_length-ok s bytes field b.size)

  expect_length-ok :
      (bytes : Option ℕ) (field s : Text) → HasLength bytes s → expect_length bytes field s ≡ ok s
  expect_length-ok none field s l = refl
  expect_length-ok (some n) field s l = expect_byte_length-ok s n field l

  optional_bytes-ok :
      (bytes : Option ℕ) (field : Text) (o : Option Text)
      → IsField bytes o
      → optional_bytes to_lower bytes field o ≡ ok o
  unfolding optional_bytes set_bare
  optional_bytes-ok bytes field none b = refl
  optional_bytes-ok bytes field (some s) b = rw b.some_byte (
      rw (normalize_hex-ok s field b.hex b.even)
        (rw b.some_byte (rw (expect_length-ok bytes field s b.size) refl)))

  script_hashes-ok :
      (index : ℕ) (hs : List Text)
      → All (IsBytes (some 32)) hs
      → script_hashes to_lower index hs ≡ ok hs
  unfolding script_hashes
  script_hashes-ok index [] b = refl
  script_hashes-ok index (h ∷ hs) (b, bs) =
      rw (required_bytes-ok 32 (item_name index) h b) (rw (script_hashes-ok (suc index) hs bs) refl)

  init_scripts-ok : (o : Option (List Text)) → AreScripts o → init_scripts to_lower o ≡ ok o
  unfolding init_scripts
  init_scripts-ok none b = refl
  init_scripts-ok (some hs) (few, bs) =
      let fits : ltb max_init_scripts (length hs) ≡ false = ground (arith, few) in
      rw fits (rw (script_hashes-ok 0 hs bs) refl)

  -- Where the lower case keeps text in lower-case hexadecimal digits, buildMrConfigV3Document gives
  -- each document of well-formed fields back when it gets that document's fields.
  pub build_document-as_input :
      (d : MrConfigDocument) → IsDocument d → build_document to_lower (as_input d) ≡ ok d
  unfolding build_document
  build_document-as_input d w =
      rw (required_bytes-ok 32 (lit "compose_hash") d.compose_hash w.compose_hash) (
        rw (optional_bytes-ok (some 20) (lit "app_id") d.app_id w.app_id) (
          rw
            (optional_bytes-ok (some 32) (lit "gpu_policy_hash") d.gpu_policy_hash
              w.gpu_policy_hash)
            (rw (optional_bytes-ok none (lit "key_provider_id") d.key_provider_id w.key_provider_id)
              (rw (optional_bytes-ok (some 20) (lit "instance_id") d.instance_id w.instance_id)
                (rw (init_scripts-ok d.init_script_hashes w.init_script_hashes) refl)))))
