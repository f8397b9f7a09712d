-- ===== src/Env.antt =====
-- cli/src/utils/secrets.ts: `parseEnv`. The content of the file is a parameter, since it is read from
-- the disk.
pub mod Quoted
pub mod File
mod Tests
use phala_cloud.Common.{
  ℕ, zero, suc, ◌+◌, ◌-◌, Text, lit, Bool, true, false, not, ◌&&◌, ◌||◌, Option, none, some, List,
  [], ◌∷◌, ◌++◌, if◌then◌else◌, ◌==◌, leb, is_empty, is_some, starts_with, trim, text_eq, length,
  take, drop,
}
use phala_cloud.Common.Dict.{Dict, get, put}

unfoldable pub is_quote : ℕ → Bool
is_quote c = c == b'"' || c == b'\'' || c == b'`'

-- Whether the unit before is a backslash, which takes a quote's meaning; there is none at first.
unfoldable pub escaped : Option ℕ → Bool
escaped none = false
escaped (some p) = p == b'\\'

-- A quote closes the quotes that it opened, opens quotes outside of any, and is text in others.
unfoldable pub next_quote : Option ℕ → ℕ → Option ℕ
next_quote none c = some c
next_quote (some q) c = if c == q then none else some q

abbrev longer_key : ℕ → Option (Text × Text) → Option (Text × Text)
longer_key c none = none
longer_key c (some (key, value)) = some (c ∷ key, value)

-- The first loop over a line, with the unit before and the open quote: the texts before and behind the
-- first "=" that is outside of quotes and not behind a "#".
unfoldable pub split_assignment : Option ℕ → Option ℕ → Text → Option (Text × Text)
unfolding is_quote escaped next_quote
split_assignment prev quote [] = none
split_assignment prev quote (c ∷ s) =
    let marks = is_quote c && not (escaped prev) in
    let rest = split_assignment (some c) (if marks then next_quote quote c else quote) s in
    let found = longer_key c rest in
    if not marks && c == b'=' && not (is_some quote)
    then some ([], s)
    else if not marks && c == b'#' && not (is_some quote)
    then none
    else found

-- Where the comment starts that the unit at `i` may begin.
unfoldable pub comment_at : ℕ → Option ℕ → Option ℕ
comment_at i none = some i
comment_at i (some p) = if p == b' ' then some (i - 1) else none

-- The second loop, over the value: where a comment starts, if there is one.
unfoldable pub find_comment : ℕ → Option ℕ → Option ℕ → Text → Option ℕ
unfolding is_quote escaped next_quote comment_at
find_comment i prev quote [] = none
find_comment i prev quote (c ∷ s) =
    let marks = is_quote c && not (escaped prev) in
    let rest = find_comment (suc i) (some c) (if marks then next_quote quote c else quote) s in
    if not marks && c == b'#' && not (is_some quote)
    then elim (comment_at i prev) [ some start ↦ some start | none ↦ rest ]
    else rest

unfoldable pub cut_comment : Text → Text
unfolding find_comment
cut_comment value = elim (find_comment 0 none none value) [
  | none ↦ value
  | some start ↦ take start value
]

-- s.substring(a, b), which exchanges its arguments where a > b
unfoldable pub substring : ℕ → ℕ → Text → Text
substring a b s = if leb a b then take (b - a) (drop a s) else take (a - b) (drop b s)

-- value.replace(/\\\\n/g, "\n"): two backslashes and "n" become a line feed
unfoldable pub expand_newlines : Text → Text
expand_newlines [] = []
expand_newlines (c ∷ []) = c ∷ []
expand_newlines (c ∷ d ∷ []) = c ∷ d ∷ []
expand_newlines (c ∷ d ∷ e ∷ s) = elim (c == b'\\' && d == b'\\' && e == b'n') [
  | true ↦ 10 ∷ expand_newlines s
  | false ↦ c ∷ expand_newlines (d ∷ e ∷ s)
]

abbrev pub first_unit : Text → Option ℕ
first_unit [] = none
first_unit (c ∷ s) = some c

unfoldable pub last_unit : Text → Option ℕ
last_unit [] = none
last_unit (c ∷ []) = some c
last_unit (c ∷ d ∷ s) = last_unit (d ∷ s)

-- The quote that a value starts and ends with.
outer_quote_of : Option ℕ → Option ℕ → Option ℕ
unfolding is_quote
outer_quote_of (some c) (some d) = if is_quote c && c == d then some c else none
outer_quote_of (some c) none = none
outer_quote_of none d = none

unfoldable pub outer_quote : Text → Option ℕ
unfolding last_unit outer_quote_of is_quote
outer_quote value = outer_quote_of (first_unit value) (last_unit value)

unfoldable pub unquote : Text → Text
unfolding outer_quote substring expand_newlines trim
unquote value = elim (outer_quote value) [
  | none ↦ trim value
  | some q ↦
      let inner = substring 1 (length value - 1) value in
      if q == b'"' then expand_newlines inner else inner
]

-- What is assigned to which key by a text of an assignment.
unfoldable pub assigned : Option (Text × Text) → Option (Text × Text)
unfolding cut_comment unquote trim
assigned none = none
assigned (some (key, value)) =
    if is_empty (trim key) then none else some (trim key, unquote (cut_comment value))

-- A round of the loop over the lines of the file: the key and the value that it sets.
unfoldable pub parse_line : Text → Option (Text × Text)
unfolding trim starts_with split_assignment assigned
parse_line line =
    if is_empty (trim line) || starts_with (lit "#") (trim line)
    then none
    else assigned (split_assignment none none line)

-- envVars[key] = value, which for "__proto__" makes no property
unfoldable pub set_env : Option (Text × Text) → Dict Text → Dict Text
unfolding put get text_eq
set_env none vars = vars
set_env (some (key, value)) vars =
    if text_eq key (lit "__proto__") then vars else put key value vars

unfoldable pub parse_lines : List Text → Dict Text → Dict Text
unfolding set_env parse_line
parse_lines [] vars = vars
parse_lines (line ∷ lines) vars = parse_lines lines (set_env (parse_line line) vars)

abbrev cons_first : ℕ → List Text → List Text
cons_first c [] = (c ∷ []) ∷ []
cons_first c (line ∷ lines) = (c ∷ line) ∷ lines

-- content.split("\n")
unfoldable pub split_newlines : Text → List Text
split_newlines [] = [] ∷ []
split_newlines (c ∷ s) =
    let rest = split_newlines s in if c == 10 then [] ∷ rest else cons_first c rest

-- env.split("="), the key and the rest joined again; `none` where there is no "="
unfoldable pub split_direct : Text → Option (Text × Text)
split_direct [] = none
split_direct (c ∷ s) =
    let rest = split_direct s in
    let found = longer_key c rest in if c == b'=' then some ([], s) else found

unfoldable pub parse_direct : Text → Option (Text × Text)
unfolding split_direct
parse_direct env = elim (split_direct env) [
  | none ↦ none
  | some (key, value) ↦ if is_empty key then none else some (key, value)
]

unfoldable pub add_direct : List Text → Dict Text → Dict Text
unfolding set_env parse_direct
add_direct [] vars = vars
add_direct (env ∷ envs) vars = add_direct envs (set_env (parse_direct env) vars)

-- parseEnv, with the content of the file where one is named
unfoldable pub parse_env : List Text → Option Text → Dict Text
unfolding add_direct parse_lines split_newlines
parse_env envs none = add_direct envs []
parse_env envs (some content) = parse_lines (split_newlines content) (add_direct envs [])
