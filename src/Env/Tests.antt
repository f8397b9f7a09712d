-- ===== src/Env/Tests.antt =====
-- Runs on small files, and each theorem at one.
use phala_cloud.Common.{
  lit, some, [], ◌∷◌, ◌≡◌, refl, trim, trim_start, trim_end, is_space, starts_with, text_eq,
}
use phala_cloud.Common.Dict
use phala_cloud.Env.{
  is_quote, escaped, next_quote, split_assignment, comment_at, find_comment, cut_comment, substring,
  expand_newlines, last_unit, outer_quote, unquote, assigned, parse_line, set_env, parse_lines,
  split_newlines, split_direct, parse_direct, add_direct, parse_env,
}
use phala_cloud.Env.File.{Setting, IsSetting, render, set_all, parse_env-render}

runs : Unit {0}
unfolding is_quote escaped next_quote split_assignment comment_at find_comment cut_comment substring
    expand_newlines last_unit outer_quote unquote assigned parse_line set_env parse_lines
    split_newlines split_direct parse_direct add_direct parse_env trim trim_start trim_end is_space
    starts_with text_eq Dict.put Dict.get
runs = tt

file_of_three :
    parse_env (lit "A=1=2" ∷ lit "B" ∷ []) (some (lit "# note\nB = x y # z\nC=\"a # b\"\n"))
    ≡ (lit "A", lit "1=2") ∷ (lit "B", lit "x y") ∷ (lit "C", lit "a # b") ∷ []
unfolding runs
file_of_three = refl

-- A lone quote stays as it is.
lone_quote : parse_line (lit "A=\"") ≡ some (lit "A", lit "\"")
unfolding runs
lone_quote = refl

-- One backslash and "n" in double quotes stay; two become a line feed.
one_backslash : parse_line (lit "A=\"x\\ny\"") ≡ some (lit "A", lit "x\\ny")
unfolding runs
one_backslash = refl

two_backslashes : parse_line (lit "A=\"x\\\\ny\"") ≡ some (lit "A", lit "x\ny")
unfolding runs
two_backslashes = refl

abbrev setting : Setting
setting = record { key = lit "KEY"; quote = b'\''; value = lit " a = \"b\" # c" }

setting-IsSetting : IsSetting setting
unfolding runs
setting-IsSetting = record {
  named = refl;
  usual = refl;
  units = refl;
  quotes = refl;
  not_double = refl;
  unquoted = refl;
  one_line = refl;
}

parse_env-render_example :
    parse_env (lit "A=1" ∷ []) (some (render (setting ∷ [])))
    ≡ set_all (setting ∷ []) (add_direct (lit "A=1" ∷ []) [])
parse_env-render_example = parse_env-render (lit "A=1" ∷ []) (setting ∷ []) (setting-IsSetting, tt)
