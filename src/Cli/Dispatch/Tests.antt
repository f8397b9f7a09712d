-- ===== src/Cli/Dispatch/Tests.antt =====
-- Runs of the dispatcher, and each theorem at one.
use phala_cloud.Common.{
  Text, lit, true, false, none, List, [], ◌∷◌, ◌++◌, ◌≡◌, refl, text_eq, starts_with, is_space,
}
use phala_cloud.Common.Dict
use phala_cloud.Common.JsMap
use phala_cloud.Cli.Options.{prepare_flag_config, to_camel_case}
use phala_cloud.Cli.Hoist.{
  is_flag, classify, take_leading, split_command, hoist, hoist_leading_global_options,
  collect_command_segments, split_equals,
}
use phala_cloud.Cli.Hoist.Moves.{Leading, none_left, valued, IsWord}
use phala_cloud.Cli.Hoist.Laws.{global_config}
use phala_cloud.Cli.Registry.{
  Definition, create_node, find_child, set_child, get_child, get_node, change_at, register_command,
  walk, resolve_command,
}
use phala_cloud.Cli.Dispatch.{
  Parsed, parsed, runs, unknown_command, handle_global_request, handle_group_request, unresolved,
  resolved_answer, resolve_or_help, after_group, asked_for_group, dispatch_hoisted, dispatch,
  group_of, global_answer, group_answer, leftover,
}
use phala_cloud.Cli.Dispatch.Laws.{dispatch-register_command}
use phala_cloud.Cli.Dispatch.Runs.{IsRun, dispatch-IsRun}

runs_here : Unit {0}
unfolding is_flag classify take_leading split_command hoist hoist_leading_global_options
    collect_command_segments split_equals text_eq starts_with Dict.get Dict.put JsMap.get JsMap.set
    prepare_flag_config to_camel_case is_space find_child set_child get_child get_node change_at
    register_command walk resolve_command handle_global_request handle_group_request unresolved
    resolved_answer resolve_or_help after_group asked_for_group dispatch_hoisted dispatch
    global_answer group_answer leftover
runs_here = tt

-- A parser that takes all arguments for positionals.
abbrev all_words : List Text → Parsed
all_words argv = parsed false false argv

abbrev list_cvms : Definition
list_cvms = record { path = lit "cvms" ∷ lit "list" ∷ []; aliases = []; arguments = [] }

abbrev leading : List Text
leading = lit "--profile" ∷ lit "dev" ∷ []

leading-Leading : Leading global_config leading
unfolding runs_here
leading-Leading = valued refl none_left

cvms-IsWord : IsWord (lit "cvms")
unfolding is_flag starts_with
cvms-IsWord = refl

list-IsWord : IsWord (lit "list")
unfolding is_flag starts_with
list-IsWord = refl

json_flag : is_flag (lit "--json") ≡ true
unfolding is_flag starts_with
json_flag = refl

no_group :
    group_of (get_node (register_command list_cvms create_node) (lit "cvms" ∷ lit "list" ∷ []))
    ≡ none
unfolding runs_here
no_group = refl

abbrev argv : List Text
argv = leading ++ lit "cvms" ∷ lit "list" ∷ lit "--json" ∷ []

dispatched :
    dispatch all_words (register_command list_cvms create_node) argv
    ≡ runs list_cvms (leading ++ lit "--json" ∷ [])
unfolding runs_here
dispatched = refl

unknown_word :
    dispatch all_words (register_command list_cvms create_node) (lit "cvm" ∷ [])
    ≡ unknown_command (lit "cvm" ∷ [])
unfolding runs_here
unknown_word = refl

dispatch-register_command_example :
    dispatch all_words (register_command list_cvms create_node) argv
    ≡ runs list_cvms (leading ++ lit "--json" ∷ [])
dispatch-register_command_example =
    dispatch-register_command all_words list_cvms create_node leading (lit "cvms") (lit "list" ∷ [])
      (lit "--json" ∷ []) refl (cvms-IsWord, (list-IsWord, tt)) leading-Leading json_flag no_group

dispatch-IsRun_example :
    IsRun
      (register_command list_cvms create_node)
      (hoist_leading_global_options argv)
      list_cvms
      (leading ++ lit "--json" ∷ [])
dispatch-IsRun_example =
    dispatch-IsRun all_words (register_command list_cvms create_node) argv list_cvms
      (leading ++ lit "--json" ∷ []) dispatched
