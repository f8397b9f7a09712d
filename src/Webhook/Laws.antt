-- ===== src/Webhook/Laws.antt =====
-- What a webhook that is let through has.
use phala_cloud.Common.{
  ℕ, Text, lit, Bool, true, false, ◌||◌, Option, none, some, List, [], ◌∷◌, ◌++◌, ◌≡◌, ◌≤◌, ◌↔◌,
  refl, sym, ap, ◌∙◌, if◌then◌else◌, ◌==◌, ltb, is_empty, length, text_eq, text_eq_iff,
  text_eq_refl, all, is_some, arith, inl, inr, Bool-cases, Option-cases,
}
use phala_cloud.Common.JsMap.{get, get-set}
use phala_cloud.Webhook.{
  Whole, parse_int, distance, HeaderValue, event, resolved, expected_signature, same_bytes,
  is_fresh, verify_webhook_signature, set_resolved, normalised, checked, with_headers,
  parse_webhook_event, or_300,
}

abbrev pub is_ascii : Text → Bool
is_ascii s = all (λ c. ltb c 128) s

-- A time that is a number, no farther from now than the tolerance.
pub record IsFresh (now tolerance : ℕ) (timestamp : Text) : Type 0 where
  pub time : Whole
  pub read : parse_int timestamp ≡ some time
  pub near : distance now time ≤ tolerance

same_bytes_iff : (s t : List ℕ) → (same_bytes s t ≡ true) ↔ (s ≡ t)
unfolding same_bytes
same_bytes_iff s t = (
  λ e. (text_eq_iff s t).0 (elim (Bool-cases (length s == length t)) [
    | inl l ↦ rw l at e
    | inr l ↦ let bad = rw l at e in cc
  ]),
  λ e. rw e (ground (arith, text_eq_refl t)),
)

is_fresh_to :
    (now tolerance : ℕ) (timestamp : Text)
    → is_fresh now tolerance timestamp ≡ true
    → IsFresh now tolerance timestamp
unfolding is_fresh
is_fresh_to now tolerance timestamp h = elim (Option-cases (parse_int timestamp)) [
  | inl e ↦ let bad = rw (e, is_fresh) at h in cc
  | inr (ts, e) ↦
      let close = rw (e, is_fresh) at h in record { time = ts; read = e; near = ground arith }
]

is_fresh_of :
    (now tolerance : ℕ) (timestamp : Text)
    → IsFresh now tolerance timestamp
    → is_fresh now tolerance timestamp ≡ true
unfolding is_fresh
is_fresh_of now tolerance timestamp f = rw (f.read, is_fresh) (let near = f.near in ground arith)

module _ (utf8 : Text → List ℕ) (hmac : Text → Text → Text) where
  verify_to :
      (now tolerance : ℕ) (secret timestamp body signature : Text)
      → verify_webhook_signature utf8 hmac now tolerance secret timestamp body signature ≡ true
      → IsFresh now tolerance timestamp
        × (utf8 (expected_signature hmac secret timestamp body) ≡ utf8 signature)
  unfolding verify_webhook_signature
  verify_to now tolerance secret timestamp body signature h =
      elim (Bool-cases (is_fresh now tolerance timestamp)) [
        | inl e ↦
            let same = rw e at h in
            (
              is_fresh_to now tolerance timestamp e,
              (same_bytes_iff (utf8 (expected_signature hmac secret timestamp body))
                    (utf8 signature)).0
                  same,
            )
        | inr e ↦ let bad = rw e at h in cc
      ]

  verify_of :
      (now tolerance : ℕ) (secret timestamp body signature : Text)
      → IsFresh now tolerance timestamp
      → signature ≡ expected_signature hmac secret timestamp body
      → verify_webhook_signature utf8 hmac now tolerance secret timestamp body signature ≡ true
  unfolding verify_webhook_signature
  verify_of now tolerance secret timestamp body signature f e =
      rw (is_fresh_of now tolerance timestamp f) (
        (same_bytes_iff (utf8 (expected_signature hmac secret timestamp body)) (utf8 signature)).1
          (ap utf8 (sym e)))

  -- verifyWebhookSignature lets a signature through exactly when the time is a number no farther from
  -- now than the tolerance and the signature is "sha256=" and the digest of the time, "." and the body,
  -- where a digest is ASCII text and no other text is encoded as a text in ASCII is.
  pub verify_webhook_signature_iff :
      ((s t : Text) → is_ascii s ≡ true → utf8 s ≡ utf8 t → s ≡ t)
      → ((secret message : Text) → is_ascii (hmac secret message) ≡ true)
      → (now tolerance : ℕ) (secret timestamp body signature : Text)
      → (verify_webhook_signature utf8 hmac now tolerance secret timestamp body signature ≡ true)
        ↔ (IsFresh now tolerance timestamp
            × (signature ≡ lit "sha256=" ++ hmac secret (timestamp ++ (b'.' ∷ body))))
  verify_webhook_signature_iff faithful hex now tolerance secret timestamp body signature = (
    λ h.
        let (fresh, same) = verify_to now tolerance secret timestamp body signature h in
        (
          fresh,
          sym (
              faithful (expected_signature hmac secret timestamp body) signature
                (hex secret (timestamp ++ (b'.' ∷ body))) same),
        ),
    λ p. verify_of now tolerance secret timestamp body signature p.0 p.1,
  )

-- The value of the last header of a name, in any case, that has a value.
abbrev pub last_header : (Text → Text) → Text → List (Text × HeaderValue) → Option Text
last_header to_lower name [] = none
last_header to_lower name ((key, value) ∷ headers) =
    let rest = last_header to_lower name headers in
    if is_some rest then rest else if text_eq (to_lower key) name then resolved value else none

abbrev or_else : Option Text → Option Text → Option Text
or_else none o = o
or_else (some s) o = some s

get-set_resolved :
    (name key : Text) (o : Option Text) (m : List (Text × Text))
    → get name (set_resolved key o m) ≡ or_else (if text_eq key name then o else none) (get name m)
get-set_resolved name key none m = elim (Bool-cases (text_eq key name)) [
  | inl e ↦ rw e refl
  | inr e ↦ rw e refl
]
get-set_resolved name key (some s) m =
    get-set key name s m
    ∙ elim (Bool-cases (text_eq key name)) [ inl e ↦ rw e refl | inr e ↦ rw e refl ]

or_else_assoc :
    (r x g : Option Text) → or_else r (or_else x g) ≡ or_else (if is_some r then r else x) g
or_else_assoc none x g = refl
or_else_assoc (some s) x g = refl

or_else-none : (o : Option Text) → or_else o none ≡ o
or_else-none none = refl
or_else-none (some s) = refl

get-normalised :
    (to_lower : Text → Text) (name : Text) (headers : List (Text × HeaderValue))
    (m : List (Text × Text))
    → get name (normalised to_lower headers m)
      ≡ or_else (last_header to_lower name headers) (get name m)
unfolding normalised
get-normalised to_lower name [] m = refl
get-normalised to_lower name ((key, value) ∷ headers) m =
    let rest =
      get-normalised to_lower name headers (set_resolved (to_lower key) (resolved value) m) in
    let here = get-set_resolved name (to_lower key) (resolved value) m in
    rest
    ∙ ap (or_else (last_header to_lower name headers)) here
    ∙ or_else_assoc (last_header to_lower name headers) _ (get name m)

get-normalised-nil :
    (to_lower : Text → Text) (name : Text) (headers : List (Text × HeaderValue))
    → get name (normalised to_lower headers []) ≡ last_header to_lower name headers
unfolding get
get-normalised-nil to_lower name headers =
    get-normalised to_lower name headers [] ∙ or_else-none (last_header to_lower name headers)

module _ {ℓ} {A : Type ℓ} (utf8 : Text → List ℕ) (hmac : Text → Text → Text)
    (parse_json : Text → Option A) (to_lower : Text → Text) where
  -- What parseWebhookEvent asks of the headers and the body of an event.
  pub record IsSigned (now : ℕ) (tolerance : Option ℕ) (secret : Text)
      (headers : List (Text × HeaderValue)) (body : Text) (a : A) : Type ℓ where
    pub timestamp : Text
    pub signature : Text
    pub timed : last_header to_lower (lit "x-webhook-timestamp") headers ≡ some timestamp
    pub signed : last_header to_lower (lit "x-webhook-signature") headers ≡ some signature
    pub some_time : is_empty timestamp ≡ false
    pub some_signature : is_empty signature ≡ false
    pub verified :
        verify_webhook_signature utf8 hmac now (or_300 tolerance) secret timestamp body signature
        ≡ true
    pub parsed : parse_json body ≡ some a

  checked_to :
      (now tolerance : ℕ) (secret body timestamp signature : Text) (a : A)
      → checked utf8 hmac parse_json now tolerance secret body timestamp signature ≡ event a
      → (is_empty timestamp ≡ false)
        × (is_empty signature ≡ false)
        × (verify_webhook_signature utf8 hmac now tolerance secret timestamp body signature ≡ true)
        × (parse_json body ≡ some a)
  unfolding checked
  checked_to now tolerance secret body timestamp signature a h =
      elim (Bool-cases (is_empty timestamp || is_empty signature)) [
        | inl e ↦ let bad = rw e at h in absurd (cc bad)
        | inr e ↦
            let h1 = rw e at h in
            elim (Bool-cases
              (verify_webhook_signature utf8 hmac now tolerance secret timestamp body signature)) [
                | inr v ↦ let bad = rw v at h1 in absurd (cc bad)
                | inl v ↦
                    let h2 = rw v at h1 in
                    elim (Option-cases (parse_json body)) [
                      | inl p ↦ let bad = rw p at h2 in absurd (cc bad)
                      | inr (b, p) ↦
                          let same = rw p at h2 in
                          (ground (arith, e), ground (arith, e), v, p ∙ cc same)
                    ]
              ]
      ]

  checked_of :
      (now tolerance : ℕ) (secret body timestamp signature : Text) (a : A)
      → is_empty timestamp ≡ false
      → is_empty signature ≡ false
      → verify_webhook_signature utf8 hmac now tolerance secret timestamp body signature ≡ true
      → parse_json body ≡ some a
      → checked utf8 hmac parse_json now tolerance secret body timestamp signature ≡ event a
  unfolding checked
  checked_of now tolerance secret body timestamp signature a t s v p = rw (t, s, v, p) refl

  parse_webhook_event_lem :
      (now : ℕ) (tolerance : Option ℕ) (secret : Text) (headers : List (Text × HeaderValue))
      (body : Text)
      → parse_webhook_event utf8 hmac parse_json to_lower now tolerance secret headers body
        ≡ with_headers utf8 hmac parse_json now
            (or_300 tolerance)
            secret
            body
            (last_header to_lower (lit "x-webhook-timestamp") headers)
            (last_header to_lower (lit "x-webhook-signature") headers)
  unfolding parse_webhook_event
  parse_webhook_event_lem now tolerance secret headers body =
      ap
        (λ o.
          with_headers utf8 hmac parse_json now (or_300 tolerance) secret body o
            (get (lit "x-webhook-signature") (normalised to_lower headers [])))
        (get-normalised-nil to_lower (lit "x-webhook-timestamp") headers)
      ∙ ap
          (with_headers utf8 hmac parse_json now (or_300 tolerance) secret body
            (last_header to_lower (lit "x-webhook-timestamp") headers))
          (get-normalised-nil to_lower (lit "x-webhook-signature") headers)

  with_headers_to :
      (now tolerance : ℕ) (secret body : Text) (time sign : Option Text) (a : A)
      → with_headers utf8 hmac parse_json now tolerance secret body time sign ≡ event a
      → (t : Text) × (s : Text) × (time ≡ some t)
        × (sign ≡ some s)
        × (checked utf8 hmac parse_json now tolerance secret body t s ≡ event a)
  unfolding with_headers
  with_headers_to now tolerance secret body none sign a h = absurd (cc h)
  with_headers_to now tolerance secret body (some t) none a h = absurd (cc h)
  with_headers_to now tolerance secret body (some t) (some s) a h = (t, s, refl, refl, h)

  with_headers-some :
      (now tolerance : ℕ) (secret body t s : Text)
      → with_headers utf8 hmac parse_json now tolerance secret body (some t) (some s)
        ≡ checked utf8 hmac parse_json now tolerance secret body t s
  unfolding with_headers
  with_headers-some now tolerance secret body t s = refl

  -- parseWebhookEvent returns an event exactly when the last headers for the time and the signature,
  -- in any case, are there and not empty, verifyWebhookSignature lets them through, and the body
  -- parses as the event.
  pub parse_webhook_event_iff :
      (now : ℕ) (tolerance : Option ℕ) (secret : Text) (headers : List (Text × HeaderValue))
      (body : Text) (a : A)
      → (parse_webhook_event utf8 hmac parse_json to_lower now tolerance secret headers body
          ≡ event a)
        ↔ IsSigned now tolerance secret headers body a
  parse_webhook_event_iff now tolerance secret headers body a = (
    λ h.
        let (t, s, timed, signed, c) =
          with_headers_to now (or_300 tolerance) secret body _ _ a
            (sym (parse_webhook_event_lem now tolerance secret headers body) ∙ h) in
        let (time, sign, v, p) = checked_to now (or_300 tolerance) secret body t s a c in
        record {
          timestamp = t;
          signature = s;
          timed = timed;
          signed = signed;
          some_time = time;
          some_signature = sign;
          verified = v;
          parsed = p;
        },
    λ i.
        parse_webhook_event_lem now tolerance secret headers body
        ∙ rw (i.timed, i.signed)
            (with_headers-some now (or_300 tolerance) secret body i.timestamp i.signature
              ∙ checked_of now (or_300 tolerance) secret body i.timestamp i.signature a i.some_time
                  i.some_signature i.verified i.parsed),
  )
