-- ===== src/Webhook/Tests.antt =====
-- Webhooks at small inputs, and each theorem at one.
use phala_cloud.Common.{
  ℕ, Text, lit, true, Option, none, some, List, [], ◌∷◌, ◌++◌, ◌≡◌, ◌↔◌, refl, text_eq, trim_start,
  is_space, map, ◌+◌, ◌&&◌, leb, if◌then◌else◌, Bool-cases, inl, inr,
}
use phala_cloud.Common.JsMap.{get, set}
use phala_cloud.Webhook.{
  signed, sign_and_digits, parse_int, distance, HeaderValue, one, many, undefined, Reading, event,
  missing_headers, invalid_signature, syntax_error, is_fresh, same_bytes, verify_webhook_signature,
  normalised, checked, with_headers, parse_webhook_event,
}
use phala_cloud.Webhook.Laws.{
  is_ascii, IsFresh, IsSigned, verify_webhook_signature_iff, parse_webhook_event_iff,
}

runs : Unit {0}
unfolding signed sign_and_digits parse_int distance is_fresh same_bytes verify_webhook_signature
    normalised checked with_headers parse_webhook_event get set text_eq trim_start is_space
runs = tt

abbrev small : Text → Text
small s = map (λ c. if leb b'A' c && leb c b'Z' then c + 32 else c) s

-- A digest of the first unit of the message.
abbrev digest : Text → Text → Text
digest secret [] = lit "00"
digest secret (c ∷ s) = if leb b'2' c then lit "0b" else lit "0a"

abbrev bytes : Text → List ℕ
bytes s = s

abbrev parsed : Text → Option Text
parsed [] = none
parsed (c ∷ s) = some s

abbrev headers : List (Text × HeaderValue)
headers =
    (lit "x-webhook-timestamp", one (lit "5"))
    ∷ (lit "X-Webhook-Signature", many (lit "sha256=0a" ∷ lit "other" ∷ []))
    ∷ (lit "X-Webhook-Timestamp", one (lit "1000"))
    ∷ (lit "X-WEBHOOK-TIMESTAMP", undefined)
    ∷ []

abbrev answer : ℕ → Text → Reading Text
answer now body = parse_webhook_event bytes digest parsed small now none (lit "key") headers body

in_time : answer 1300 (lit "{}") ≡ event (lit "}")
unfolding runs
in_time = refl

too_late : answer 1301 (lit "{}") ≡ invalid_signature
unfolding runs
too_late = refl

too_early : answer 699 (lit "{}") ≡ invalid_signature
unfolding runs
too_early = refl

no_json : answer 1000 [] ≡ syntax_error
unfolding runs
no_json = refl

no_signature :
    parse_webhook_event bytes digest parsed small 1000 none
      (lit "key")
      ((lit "x-webhook-timestamp", one (lit "1000")) ∷ [])
      (lit "{}")
    ≡ missing_headers
unfolding runs
no_signature = refl

number_prefix : parse_int (lit " -12ab") ≡ some (record { below = true; size = 12 })
unfolding runs
number_prefix = refl

no_number : parse_int (lit "-") ≡ none
unfolding runs
no_number = refl

same_text : (s t : Text) → is_ascii s ≡ true → bytes s ≡ bytes t → s ≡ t
same_text s t a e = e

is_ascii-digest : (secret message : Text) → is_ascii (digest secret message) ≡ true
is_ascii-digest secret [] = refl
is_ascii-digest secret (c ∷ s) = elim (Bool-cases (leb b'2' c)) [
  | inl e ↦ rw e refl
  | inr e ↦ rw e refl
]

verify_webhook_signature_iff_example :
    (verify_webhook_signature bytes digest 1000 300
        (lit "key")
        (lit "1000")
        (lit "{}")
        (lit "sha256=0a")
      ≡ true)
    ↔ (IsFresh 1000 300 (lit "1000")
        × (lit "sha256=0a" ≡ lit "sha256=" ++ digest (lit "key") (lit "1000" ++ (b'.' ∷ lit "{}"))))
verify_webhook_signature_iff_example =
    verify_webhook_signature_iff bytes digest same_text is_ascii-digest 1000 300 (lit "key")
      (lit "1000") (lit "{}") (lit "sha256=0a")

parse_webhook_event_iff_example :
    (answer 1000 (lit "{}") ≡ event (lit "}"))
    ↔ IsSigned bytes digest parsed small 1000 none (lit "key") headers (lit "{}") (lit "}")
parse_webhook_event_iff_example =
    parse_webhook_event_iff bytes digest parsed small 1000 none (lit "key") headers (lit "{}")
      (lit "}")
