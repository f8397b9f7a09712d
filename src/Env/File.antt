-- ===== src/Env/File.antt =====
-- That a file of quoted settings sets each key to its value.
use phala_cloud.Common.{
  ℕ, Text, lit, Bool, true, false, not, ◌&&◌, ◌||◌, none, some, List, [], ◌∷◌, ◌++◌, ◌==◌, is_empty,
  starts_with, trim, trim_start, trim_end, is_space, all, ◌≡◌, refl, ap, ◌∙◌, arith, inl, inr,
  Bool-cases, All, text_eq,
}
use phala_cloud.Common.Dict.{Dict, put}
use phala_cloud.Common.Blank.{trim_end-cons}
use phala_cloud.Env.{
  is_quote, split_assignment, assigned, parse_line, set_env, parse_lines, split_newlines,
  add_direct, parse_env,
}
use phala_cloud.Env.Quoted.{
  is_plain_unit, split_assignment-plain, unquote-quoted, cut_comment-quoted,
}

pub record Setting : Type 0 where
  pub key : Text
  pub quote : ℕ
  pub value : Text

abbrev is_key_unit : ℕ → Bool
is_key_unit c = is_plain_unit c && not (is_space c)

-- A key of units that are no quotes, "=", "#" or spaces; single quotes or backticks, which the value
-- does not hold; a value on one line.
pub record IsSetting (s : Setting) : Type 0 where
  pub named : is_empty s.key ≡ false
  pub usual : text_eq s.key (lit "__proto__") ≡ false
  pub units : all is_key_unit s.key ≡ true
  pub quotes : is_quote s.quote ≡ true
  pub not_double : (s.quote == b'"') ≡ false
  pub unquoted : all (λ c. not (c == s.quote)) s.value ≡ true
  pub one_line : all (λ c. not (c == 10)) s.value ≡ true

abbrev pub line_of : Setting → Text
line_of s = s.key ++ b'=' ∷ s.quote ∷ (s.value ++ s.quote ∷ [])

-- The settings, each with a line feed behind it.
abbrev pub render : List Setting → Text
render [] = []
render (s ∷ ss) = line_of s ++ 10 ∷ render ss

abbrev pub set_all : List Setting → Dict Text → Dict Text
set_all [] vars = vars
set_all (s ∷ ss) vars = set_all ss (put s.key s.value vars)

plain_of : (key : Text) → all is_key_unit key ≡ true → all is_plain_unit key ≡ true
plain_of [] h = refl
plain_of (c ∷ key) h = let rest = plain_of key (ground arith) in ground arith

trim_end_of_key : (key : Text) → all is_key_unit key ≡ true → trim_end key ≡ key
trim_end_of_key [] h = unfold trim_end trim_start in refl
trim_end_of_key (c ∷ key) h =
    let n : is_space c ≡ false = ground arith in
    trim_end-cons c key n ∙ ap (λ r. c ∷ r) (trim_end_of_key key (ground arith))

trim_start-solid : (c : ℕ) (s : Text) → is_space c ≡ false → trim_start (c ∷ s) ≡ c ∷ s
unfolding trim_start
trim_start-solid c s n = rw (n, trim_start) refl

trim-solid : (c : ℕ) (s : Text) → is_space c ≡ false → trim (c ∷ s) ≡ c ∷ trim_end s
unfolding trim
trim-solid c s n = ap trim_end (trim_start-solid c s n) ∙ trim_end-cons c s n

trim_of_key : (key : Text) → all is_key_unit key ≡ true → trim key ≡ key
trim_of_key [] h = unfold trim trim_start trim_end in refl
trim_of_key (c ∷ key) h =
    let n : is_space c ≡ false = ground arith in
    trim-solid c key n ∙ ap (λ r. c ∷ r) (trim_end_of_key key (ground arith))

-- A text that starts with a unit of a key is neither blank nor a comment.
starts_line :
    (c : ℕ) (s : Text)
    → is_key_unit c ≡ true
    → (is_empty (trim (c ∷ s)) || starts_with (lit "#") (trim (c ∷ s))) ≡ false
unfolding starts_with
starts_line c s h =
    let n : is_space c ≡ false = ground arith in
    let d : (b'#' == c) ≡ false = ground arith in rw (trim-solid c s n, d) refl

parse_line_of :
    (line : Text)
    → (is_empty (trim line) || starts_with (lit "#") (trim line)) ≡ false
    → parse_line line ≡ assigned (split_assignment none none line)
unfolding parse_line
parse_line_of line h = rw h refl

starts_setting :
    (key rest : Text)
    → is_empty key ≡ false
    → all is_key_unit key ≡ true
    → (is_empty (trim (key ++ rest)) || starts_with (lit "#") (trim (key ++ rest))) ≡ false
starts_setting [] rest e h = cc
starts_setting (c ∷ key) rest e h = starts_line c (key ++ rest) (ground arith)

-- A line with a key and a value in single quotes or backticks sets the key to exactly the value
-- between the quotes, with its spaces, "=" and "#", where the value does not hold the quote.
pub parse_line-line_of :
    (s : Setting) → IsSetting s → parse_line (line_of s) ≡ some (s.key, s.value)
unfolding assigned
parse_line-line_of s h =
    let quoted = s.quote ∷ (s.value ++ s.quote ∷ []) in
    parse_line_of (line_of s) (starts_setting s.key (b'=' ∷ quoted) h.named h.units)
    ∙ ap assigned (split_assignment-plain none s.key quoted (plain_of s.key h.units))
    ∙ rw (trim_of_key s.key h.units, h.named)
        (rw
          (
            cut_comment-quoted s.quote s.value h.quotes h.unquoted,
            unquote-quoted s.quote s.value h.quotes h.not_double,
          )
          refl)

split_newlines-append :
    (line rest : Text)
    → all (λ c. not (c == 10)) line ≡ true
    → split_newlines (line ++ 10 ∷ rest) ≡ line ∷ split_newlines rest
unfolding split_newlines
split_newlines-append [] rest h = refl
split_newlines-append (c ∷ line) rest h =
    let n : (c == 10) ≡ false = ground arith in
    let tail = split_newlines-append line rest (ground arith) in rw (n, tail) refl

all-append : (p : ℕ → Bool) (s t : Text) → all p s ≡ true → all p t ≡ true → all p (s ++ t) ≡ true
all-append p [] t h g = g
all-append p (c ∷ s) t h g = let rest = all-append p s t (ground arith) g in ground arith

feed_is_space : is_space 10 ≡ true
unfolding is_space
feed_is_space = refl

solid_is_no_feed : (c : ℕ) → is_space c ≡ false → not (c == 10) ≡ true
solid_is_no_feed c n = elim (Bool-cases (c == 10)) [
  | inl e ↦
      let same : c ≡ 10 = ground arith in let bad = ap is_space same in absurd (cc feed_is_space)
  | inr e ↦ ground arith
]

no_newline_in_key : (key : Text) → all is_key_unit key ≡ true → all (λ c. not (c == 10)) key ≡ true
no_newline_in_key [] h = refl
no_newline_in_key (c ∷ key) h =
    let rest = no_newline_in_key key (ground arith) in
    let n : is_space c ≡ false = ground arith in rw (solid_is_no_feed c n) rest

no_newline : (s : Setting) → IsSetting s → all (λ c. not (c == 10)) (line_of s) ≡ true
unfolding is_quote
no_newline s h =
    let q : not (s.quote == 10) ≡ true = ground (arith, h.quotes) in
    let last : all (λ c. not (c == 10)) (s.quote ∷ []) ≡ true = rw q refl in
    all-append (λ c. not (c == 10)) s.key (b'=' ∷ s.quote ∷ (s.value ++ s.quote ∷ []))
      (no_newline_in_key s.key h.units)
      (rw q (all-append (λ c. not (c == 10)) s.value (s.quote ∷ []) h.one_line last))

set_env_of :
    (s : Setting) (vars : Dict Text)
    → IsSetting s
    → set_env (parse_line (line_of s)) vars ≡ put s.key s.value vars
unfolding set_env
set_env_of s vars h = rw (parse_line-line_of s h, set_env) (rw h.usual refl)

parse_lines-render :
    (ss : List Setting) (vars : Dict Text)
    → All IsSetting ss
    → parse_lines (split_newlines (render ss)) vars ≡ set_all ss vars
unfolding parse_lines
parse_lines-render [] vars h =
    unfold split_newlines set_env parse_line trim trim_end trim_start in refl
parse_lines-render (s ∷ ss) vars (h, hs) =
    ap (λ lines. parse_lines lines vars)
      (split_newlines-append (line_of s) (render ss) (no_newline s h))
    ∙ ap (parse_lines (split_newlines (render ss))) (set_env_of s vars h)
    ∙ parse_lines-render ss (put s.key s.value vars) hs

-- A file of lines, each with a key, "=" and a value in single quotes or backticks, sets the keys to the
-- values in their order, after the variables given directly, where each key is not empty and not
-- "__proto__" and holds no quotes, "=", "#" or spaces, and each value is on one line and does not hold
-- its quote.
pub parse_env-render :
    (envs : List Text) (ss : List Setting)
    → All IsSetting ss
    → parse_env envs (some (render ss)) ≡ set_all ss (add_direct envs [])
unfolding parse_env
parse_env-render envs ss h = parse_lines-render ss (add_direct envs []) h
