-- ===== src/MrConfig/Id/Bytes.antt =====
-- Bytes as two hexadecimal digits each, and what the code relies on of viem.
use phala_cloud.Common.{
  ℕ, ◌+◌, ◌-◌, ◌*◌, ◌/◌, ◌%◌, ◌<◌, Text, lit, true, some, [], ◌∷◌, ◌++◌, if◌then◌else◌, ltb, length,
  all, All, ◌≡◌, sym, refl, ap, ◌∙◌, arith,
}
use phala_cloud.MrConfig.{strip_0x, is_lower_hex}
use phala_cloud.MrConfig.Canonical.Ascii.{is_ascii}
use phala_cloud.MrConfig.Id.{Bytes, Viem, bare_of}

abbrev pub IsByte : ℕ → Type 0
IsByte b = b < 256

abbrev pub hex_digit : ℕ → ℕ
hex_digit n = if ltb n 10 then b'0' + n else b'a' + (n - 10)

-- Two lower-case digits for each byte.
unfoldable pub hex_text : Bytes → Text
hex_text [] = []
hex_text (b ∷ bs) = hex_digit (b / 16) ∷ hex_digit (b % 16) ∷ hex_text bs

pub length-hex_text : (bs : Bytes) → length (hex_text bs) ≡ length bs * 2
unfolding hex_text
length-hex_text [] = refl
length-hex_text (b ∷ bs) = omega (arith, length-hex_text bs)

is_lower_hex-hex_digit : (n : ℕ) → n < 16 → is_lower_hex (hex_digit n) ≡ true
is_lower_hex-hex_digit n h = ground arith

hex_digit_injective : (m n : ℕ) → m < 16 → n < 16 → hex_digit m ≡ hex_digit n → m ≡ n
hex_digit_injective m n h k e = ground arith

pub is_lower_hex-hex_text : (bs : Bytes) → All IsByte bs → all is_lower_hex (hex_text bs) ≡ true
unfolding hex_text
is_lower_hex-hex_text [] h = refl
is_lower_hex-hex_text (b ∷ bs) h =
    let high = is_lower_hex-hex_digit (b / 16) (omega arith) in
    let low = is_lower_hex-hex_digit (b % 16) (omega arith) in
    rw high (rw low (is_lower_hex-hex_text bs h.1))

byte_injective : (a b : ℕ) → a / 16 ≡ b / 16 → a % 16 ≡ b % 16 → a ≡ b
byte_injective a b h k = omega arith

first_two : (c d e f : ℕ) (s t : Text) → c ∷ d ∷ s ≡ e ∷ f ∷ t → (c ≡ e) × (d ≡ f) × (s ≡ t)
first_two c d e f s t h = (cc h, cc h, cc h)

byte-hex_digit :
    (a b : ℕ)
    → a < 256
    → b < 256
    → hex_digit (a / 16) ≡ hex_digit (b / 16)
    → hex_digit (a % 16) ≡ hex_digit (b % 16)
    → a ≡ b
byte-hex_digit a b h k high low =
    byte_injective a b (hex_digit_injective (a / 16) (b / 16) (omega arith) (omega arith) high)
      (hex_digit_injective (a % 16) (b % 16) (omega arith) (omega arith) low)

pub hex_text_injective :
    (cs bs : Bytes) → All IsByte cs → All IsByte bs → hex_text cs ≡ hex_text bs → cs ≡ bs
unfolding hex_text
hex_text_injective [] [] h k e = refl
hex_text_injective [] (b ∷ bs) h k e = absurd (cc e)
hex_text_injective (a ∷ cs) [] h k e = absurd (cc e)
hex_text_injective (a ∷ cs) (b ∷ bs) h k e =
    let digits =
      first_two (hex_digit (a / 16)) (hex_digit (a % 16)) (hex_digit (b / 16)) (hex_digit (b % 16))
        (hex_text cs) (hex_text bs) e in
    λ i.
      byte-hex_digit a b h.0 k.0 digits.0 digits.1 i ∷ hex_text_injective cs bs h.1 k.1 digits.2 i

-- The hash of a payload: 32 bytes, printed as 0x and their digits.
pub record IsDigest (viem : Viem) (payload : Bytes) : Type 0 where
  pub digest : Bytes
  pub are_bytes : All IsByte digest
  pub size : length digest ≡ 32
  pub printed : viem.sha256 payload ≡ lit "0x" ++ hex_text digest

-- What the code relies on: toHex prints two lower-case digits for a byte behind 0x, toBytes gives
-- bytes, a SHA-256 has 32 of them, and lower case leaves lower-case digits alone.
pub record IsViem (viem : Viem) (to_lower : Text → Text) : Type 0 where
  pub to_bytes-byte : (s : Text) (bs : Bytes) → viem.to_bytes s ≡ some bs → All IsByte bs
  pub to_hex-digits : (bs : Bytes) → All IsByte bs → viem.to_hex bs ≡ lit "0x" ++ hex_text bs
  pub sha256-length :
      (payload bs : Bytes) → viem.to_bytes (viem.sha256 payload) ≡ some bs → length bs ≡ 32
  pub lower_hex : (s : Text) → all is_lower_hex s ≡ true → to_lower s ≡ s

-- What it relies on besides, where a hash is to tell documents apart: toBytes reads such digits, a
-- SHA-256 is printed in them, and text in ASCII is encoded as it is.
pub record IsHashing (viem : Viem) : Type 0 where
  pub to_bytes-digits :
      (bs : Bytes) → All IsByte bs → viem.to_bytes (lit "0x" ++ hex_text bs) ≡ some bs
  pub sha256-digest : (payload : Bytes) → IsDigest viem payload
  pub string_to_bytes-ascii : (s : Text) → all is_ascii s ≡ true → viem.string_to_bytes s ≡ s

-- A hash that toBytes reads is printed as the digits of its bytes.
pub sha256-printed :
    {viem : Viem} (laws : IsHashing viem) (payload bs : Bytes)
    → viem.to_bytes (viem.sha256 payload) ≡ some bs
    → viem.sha256 payload ≡ lit "0x" ++ hex_text bs
sha256-printed {viem} laws payload bs h =
    let d = laws.sha256-digest payload in
    let read : some d.digest ≡ some bs =
      sym (ap viem.to_bytes d.printed ∙ laws.to_bytes-digits d.digest d.are_bytes) ∙ h in
    let same : d.digest ≡ bs = cc read in
    d.printed ∙ ap (λ (b : Bytes). lit "0x" ++ hex_text b) same

strip_0x-lit : (s : Text) → strip_0x (lit "0x" ++ s) ≡ s
unfolding strip_0x
strip_0x-lit s = refl

pub bare_of-to_hex :
    {viem : Viem} {to_lower : Text → Text} (laws : IsViem viem to_lower) (bs : Bytes)
    → All IsByte bs
    → bare_of to_lower (viem.to_hex bs) ≡ hex_text bs
unfolding bare_of
bare_of-to_hex {viem} {to_lower} laws bs h =
    ap (λ (t : Text). to_lower (strip_0x t)) (laws.to_hex-digits bs h)
    ∙ ap to_lower (strip_0x-lit (hex_text bs))
    ∙ laws.lower_hex (hex_text bs) (is_lower_hex-hex_text bs h)
