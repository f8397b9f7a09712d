-- ===== src/Compose/Print.antt =====
-- `JSON.stringify` without indentation, as `dumpAppCompose` calls it.
use phala_cloud.Common.{
  ℕ, ◌+◌, ◌-◌, ◌/◌, ◌%◌, Text, lit, Bool, true, false, ◌&&◌, ◌||◌, [], ◌∷◌, ◌++◌, if◌then◌else◌,
  ◌==◌, leb, ltb, all, not, ◌≡◌, refl, ap, arith,
}
use phala_cloud.Common.Json.{
  Json, null, bool, num, str, arr, obj, Items, nil, cons, Fields, end, field,
}

hex_digit : ℕ → ℕ
hex_digit n = if ltb n 10 then b'0' + n else b'a' + (n - 10)

unicode_escape : ℕ → Text
unfolding hex_digit
unicode_escape c =
    lit "\\u"
    ++ (hex_digit (c / 4096 % 16)
        ∷ hex_digit (c / 256 % 16)
        ∷ hex_digit (c / 16 % 16)
        ∷ hex_digit (c % 16)
        ∷ [])

is_high : ℕ → Bool
is_high c = leb 0xd800 c && leb c 0xdbff

is_low : ℕ → Bool
is_low c = leb 0xdc00 c && leb c 0xdfff

-- A code unit that is not half of a pair of surrogates.
escape_unit : ℕ → Text
unfolding unicode_escape is_high is_low
escape_unit c =
    if c == b'"'
    then lit "\\\""
    else if c == b'\\'
    then lit "\\\\"
    else if c == 8
    then lit "\\b"
    else if c == 12
    then lit "\\f"
    else if c == 10
    then lit "\\n"
    else if c == 13
    then lit "\\r"
    else if c == 9
    then lit "\\t"
    else if ltb c 32 || is_high c || is_low c
    then unicode_escape c
    else c ∷ []

escape : Text → Text
unfolding escape_unit is_high is_low
escape [] = []
escape (c ∷ []) = escape_unit c
escape (c ∷ d ∷ s) = elim (is_high c && is_low d) [
  | true ↦ c ∷ d ∷ escape s
  | false ↦ escape_unit c ++ escape (d ∷ s)
]

unfoldable pub quote : Text → Text
unfolding escape
quote s = b'"' ∷ (escape s ++ b'"' ∷ [])

-- A unit that stands for itself.
abbrev pub is_unescaped : ℕ → Bool
is_unescaped c = leb 32 c && ltb c 0xd800 && not (c == b'"') && not (c == b'\\')

escape_unit-plain : (c : ℕ) → is_unescaped c ≡ true → escape_unit c ≡ c ∷ []
unfolding escape_unit is_high is_low
escape_unit-plain c h = ground arith

is_high-plain : (c : ℕ) → is_unescaped c ≡ true → is_high c ≡ false
unfolding is_high
is_high-plain c h = ground arith

escape-plain : (s : Text) → all is_unescaped s ≡ true → escape s ≡ s
unfolding escape
escape-plain [] h = refl
escape-plain (c ∷ []) h = escape_unit-plain c (ground arith)
escape-plain (c ∷ d ∷ s) h =
    let one : is_unescaped c ≡ true = ground arith in
    let rest = escape-plain (d ∷ s) (ground arith) in
    rw (is_high-plain c one, escape) (rw (escape_unit-plain c one) (ap (λ (t : Text). c ∷ t) rest))

pub quote-plain : (s : Text) → all is_unescaped s ≡ true → quote s ≡ b'"' ∷ (s ++ b'"' ∷ [])
unfolding quote
quote-plain s h = ap (λ (t : Text). b'"' ∷ (t ++ b'"' ∷ [])) (escape-plain s h)

unfoldable mutual
  unfolding quote

  pub stringify : Json → Text
  stringify null = lit "null"
  stringify (bool true) = lit "true"
  stringify (bool false) = lit "false"
  stringify (num t) = t
  stringify (str s) = quote s
  stringify (arr nil) = lit "[]"
  stringify (arr (cons j js)) = b'[' ∷ (stringify j ++ (stringify_items js ++ b']' ∷ []))
  stringify (obj end) = lit "{}"
  stringify (obj (field k v fs)) =
      b'{' ∷ (quote k ++ b':' ∷ (stringify v ++ (stringify_fields fs ++ b'}' ∷ [])))

  pub stringify_items : Items → Text
  stringify_items nil = []
  stringify_items (cons j js) = b',' ∷ (stringify j ++ stringify_items js)

  pub stringify_fields : Fields → Text
  stringify_fields end = []
  stringify_fields (field k v fs) = b',' ∷ (quote k ++ b':' ∷ (stringify v ++ stringify_fields fs))
