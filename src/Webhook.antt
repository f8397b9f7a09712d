-- ===== src/Webhook.antt =====
-- js/src/utils/verify-webhook.ts: the signature of a webhook and the reading of its event.
pub mod Laws
mod Tests
use phala_cloud.Common.{
  ℕ, zero, ◌+◌, ◌-◌, ◌*◌, Text, lit, Bool, true, false, not, ◌&&◌, ◌||◌, Option, none, some, List,
  [], ◌∷◌, ◌++◌, if◌then◌else◌, ◌==◌, leb, ltb, is_empty, length, trim_start, text_eq,
}
use phala_cloud.Common.JsMap.{get, set}

-- A whole number with its sign: `below` for one under zero.
pub record Whole : Type 0 where
  pub below : Bool
  pub size : ℕ

-- The leading digits of a text, behind those read so far.
abbrev digits_on : Option ℕ → Text → Option ℕ
digits_on so_far [] = so_far
digits_on so_far (c ∷ s) =
    let n : ℕ = elim so_far [ none ↦ zero | some n ↦ n ] in
    let rest = digits_on (some (n * 10 + (c - b'0'))) s in
    if leb b'0' c && leb c b'9' then rest else so_far

signed : Bool → Option ℕ → Option Whole
signed below none = none
signed below (some n) = some (record { below = below; size = n })

sign_and_digits : Text → Option Whole
unfolding signed
sign_and_digits [] = none
sign_and_digits (c ∷ s) =
    if c == b'-'
    then signed true (digits_on none s)
    else if c == b'+'
    then signed false (digits_on none s)
    else signed false (digits_on none (c ∷ s))

-- Number.parseInt(text, 10); `none` is NaN
unfoldable pub parse_int : Text → Option Whole
unfolding sign_and_digits
parse_int s = sign_and_digits (trim_start s)

-- Math.abs(now - ts)
unfoldable pub distance : ℕ → Whole → ℕ
distance now ts =
    if ts.below then now + ts.size else if leb ts.size now then now - ts.size else ts.size - now

pub data HeaderValue : Type 0 where
  one : Text → HeaderValue
  many : List Text → HeaderValue
  undefined : HeaderValue

pub data Reading {ℓ} (A : Type ℓ) : Type ℓ where
  event : A → Reading A
  missing_headers invalid_signature syntax_error : Reading A

-- Array.isArray(value) ? value[0] : value
abbrev pub resolved : HeaderValue → Option Text
resolved (one s) = some s
resolved (many []) = none
resolved (many (s ∷ ss)) = some s
resolved undefined = none

-- The two tests on the time.
unfoldable pub is_fresh : ℕ → ℕ → Text → Bool
unfolding parse_int distance
is_fresh now tolerance timestamp = elim (parse_int timestamp) [
  | none ↦ false
  | some ts ↦ not (ltb tolerance (distance now ts))
]

-- toleranceSeconds = 300
abbrev pub or_300 : Option ℕ → ℕ
or_300 none = 300
or_300 (some tolerance) = tolerance

-- The lengths compared, then timingSafeEqual, on two buffers.
unfoldable pub same_bytes : List ℕ → List ℕ → Bool
same_bytes expected actual =
    if not (length expected == length actual) then false else text_eq expected actual

abbrev pub set_resolved : Text → Option Text → List (Text × Text) → List (Text × Text)
set_resolved key none m = m
set_resolved key (some s) m = set key s m

-- The loop over the headers; the lower case of text is a parameter.
unfoldable pub normalised :
    (Text → Text) → List (Text × HeaderValue) → List (Text × Text) → List (Text × Text)
unfolding set
normalised to_lower [] m = m
normalised to_lower ((key, value) ∷ headers) m =
    normalised to_lower headers (set_resolved (to_lower key) (resolved value) m)

-- What the signature has to be; the digest is a parameter.
abbrev pub expected_signature : (Text → Text → Text) → Text → Text → Text → Text
expected_signature hmac secret timestamp body =
    lit "sha256=" ++ hmac secret (timestamp ++ (b'.' ∷ body))

-- JSON.parse returns or throws.
abbrev parsed_body {ℓ} : {A : Type ℓ} → Option A → Reading A
parsed_body none = syntax_error
parsed_body (some a) = event a

-- The encoding of text and HMAC-SHA256 in hexadecimal digits are Node's.
module _ (utf8 : Text → List ℕ) (hmac : Text → Text → Text) where
  -- verifyWebhookSignature; `now` is the time in whole seconds
  unfoldable pub verify_webhook_signature : ℕ → ℕ → Text → Text → Text → Text → Bool
  unfolding same_bytes is_fresh
  verify_webhook_signature now tolerance secret timestamp body signature =
      if not (is_fresh now tolerance timestamp)
      then false
      else same_bytes (utf8 (expected_signature hmac secret timestamp body)) (utf8 signature)

  -- JSON.parse is a parameter too.
  module _ {ℓ} {A : Type ℓ} (parse_json : Text → Option A) where
    -- What is read where both headers are there.
    unfoldable pub checked : ℕ → ℕ → Text → Text → Text → Text → Reading A
    unfolding verify_webhook_signature
    checked now tolerance secret body timestamp signature =
        if is_empty timestamp || is_empty signature
        then missing_headers
        else if not (verify_webhook_signature now tolerance secret timestamp body signature)
        then invalid_signature
        else parsed_body (parse_json body)

    unfoldable pub with_headers : ℕ → ℕ → Text → Text → Option Text → Option Text → Reading A
    unfolding checked
    with_headers now tolerance secret body (some timestamp) (some signature) =
        checked now tolerance secret body timestamp signature
    with_headers now tolerance secret body none signature = missing_headers
    with_headers now tolerance secret body (some timestamp) none = missing_headers

    -- parseWebhookEvent
    unfoldable pub parse_webhook_event :
        (Text → Text) → ℕ → Option ℕ → Text → List (Text × HeaderValue) → Text → Reading A
    unfolding with_headers normalised get
    parse_webhook_event to_lower now tolerance secret headers body =
        let m = normalised to_lower headers [] in
        with_headers now (or_300 tolerance) secret body (get (lit "x-webhook-timestamp") m)
          (get (lit "x-webhook-signature") m)
