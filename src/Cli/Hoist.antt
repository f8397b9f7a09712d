-- ===== src/Cli/Hoist.antt =====
-- cli/src/core/parser.ts: `hoistLeadingGlobalOptions` and `splitAtDoubleDash`, with
-- `collectCommandSegments` of cli/src/core/dispatcher.ts.
pub mod Moves
pub mod Laws
use phala_cloud.Common.{
  ℕ, Text, lit, Bool, true, false, not, ◌&&◌, ◌||◌, Option, none, some, List, [], ◌∷◌, ◌++◌,
  if◌then◌else◌, ◌==◌, text_eq, starts_with, is_some,
}
use phala_cloud.Common.Dict.{get}
use phala_cloud.Common.JsMap
use phala_cloud.Cli.Options.{
  OptionType, boolean, CommandOption, Descriptor, SpecEntry, handler, alias_of, FlagConfig,
  prepare_flag_config, global_command_options,
}

unfoldable pub is_flag : Text → Bool
unfolding starts_with
is_flag token = starts_with (lit "-") token

after_first : ℕ → Text × Option Text → Text × Option Text
after_first c (name, value) = (c ∷ name, value)

-- token.split(/=(.*)/s, 2)
unfoldable pub split_equals : Text → Text × Option Text
unfolding after_first
split_equals [] = ([], none)
split_equals (c ∷ s) =
    let rest = split_equals s in if c == b'=' then ([], some s) else after_first c rest

-- The key that a name in the specification stands for.
canonical : Option SpecEntry → Text → Text
canonical (some (alias_of key)) name = key
canonical _ name = name

takes_value : Descriptor → Bool
takes_value d = elim d.option.type [ boolean ↦ false | _ ↦ true ]

-- What a round of the loop does with its token: it ends the loop, moves the token, or moves it with
-- the next one, which is its value.
pub data Move : Type 0 where
  stop one two : Move

unfoldable pub classify : FlagConfig → Text → Move
unfolding is_flag text_eq split_equals canonical takes_value get JsMap.get
classify cfg token =
    if not (is_flag token) || text_eq token (lit "--")
    then stop
    else let (name, value) = split_equals token in
      if is_some (JsMap.get name cfg.negated_lookup) && not (is_some value)
      then one
      else elim (JsMap.get (canonical (get name cfg.spec) name) cfg.descriptors) [
        | none ↦ stop
        | some d ↦ if takes_value d && not (is_some value) then two else one
      ]

move_one : Text → List Text × List Text → List Text × List Text
move_one t (leading, rest) = (t ∷ leading, rest)

-- The loop of `hoistLeadingGlobalOptions`: what is moved, and the rest of the arguments.
unfoldable pub take_leading : FlagConfig → List Text → List Text × List Text
unfolding move_one
take_leading cfg [] = ([], [])
take_leading cfg (t ∷ []) = elim (classify cfg t) [ one ↦ (t ∷ [], []) | _ ↦ ([], t ∷ []) ]
take_leading cfg (t ∷ v ∷ ts) = elim (classify cfg t) [
  | stop ↦ ([], t ∷ v ∷ ts)
  | one ↦ move_one t (take_leading cfg (v ∷ ts))
  | two ↦ move_one t (move_one v (take_leading cfg ts))
]

-- The tokens up to the first flag, and those from it on.
unfoldable pub split_command : List Text → List Text × List Text
unfolding move_one
split_command [] = ([], [])
split_command (t ∷ ts) =
    let rest = split_command ts in if is_flag t then ([], t ∷ ts) else move_one t rest

unfoldable pub hoist : FlagConfig → List Text → List Text
unfolding take_leading split_command
hoist cfg argv =
    let (leading, rest) = take_leading cfg argv in
    elim leading [
      | [] ↦ argv
      | t ∷ ts ↦ let (command, others) = split_command rest in command ++ (t ∷ (ts ++ others))
    ]

-- hoistLeadingGlobalOptions; the global options have a configuration
unfoldable pub hoist_leading_global_options : List Text → List Text
unfolding hoist prepare_flag_config classify
hoist_leading_global_options argv = elim (prepare_flag_config global_command_options) [
  | none ↦ argv
  | some cfg ↦ hoist cfg argv
]

-- collectCommandSegments
unfoldable pub collect_command_segments : List Text → List Text
collect_command_segments [] = []
collect_command_segments (t ∷ ts) =
    let rest = collect_command_segments ts in if is_flag t then [] else t ∷ rest

-- splitAtDoubleDash
unfoldable pub split_at_double_dash : List Text → List Text × List Text
unfolding move_one text_eq
split_at_double_dash [] = ([], [])
split_at_double_dash (t ∷ ts) =
    let rest = split_at_double_dash ts in if text_eq t (lit "--") then ([], ts) else move_one t rest
