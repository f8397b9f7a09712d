-- ===== src/Cli/Dispatch.antt =====
-- cli/src/core/dispatcher.ts: which command, group or message an invocation comes to. The arg package,
-- which parses the flags, is a parameter; the text of help pages is left out.
pub mod Laws
pub mod Runs
mod Tests
use phala_cloud.Common.{
  ℕ, Text, lit, Bool, true, false, not, ◌&&◌, ◌||◌, Option, none, some, List, [], ◌∷◌, ◌++◌,
  if◌then◌else◌, ltb, is_empty, text_eq, length, drop, is_some, starts_with,
}
use phala_cloud.Cli.Hoist.{is_flag, hoist_leading_global_options, collect_command_segments}
use phala_cloud.Cli.Registry.{Definition, Group, Node, group, get_node, Resolved, resolve_command}

-- What parseCommandArguments gives of the global options: the flags read here and the positionals; or
-- its error, with whether it is one of the arg package.
pub data Parsed : Type 0 where
  parsed : Bool → Bool → List Text → Parsed
  bad_argument : Text → Parsed
  other_error : Text → Parsed

pub data Answer : Type 0 where
  shows_version shows_global_help : Answer
  shows_group_help : List Text → Answer
  unknown_command : List Text → Answer
  unknown_subcommand : List Text → List Text → Answer
  ssh_keys_hint : Text → Answer
  argument_error : Text → Answer
  throws : Text → Answer
  runs : Definition → List Text → Answer

-- The exit code of an invocation that comes to no command.
unfoldable pub exit_code : Answer → Option ℕ
exit_code shows_version = some 0
exit_code shows_global_help = some 0
exit_code (shows_group_help path) = some 0
exit_code (unknown_command words) = some 1
exit_code (unknown_subcommand words path) = some 1
exit_code (ssh_keys_hint word) = some 1
exit_code (argument_error message) = some 1
exit_code (throws message) = none
exit_code (runs d argv) = none

abbrev pub no_words : List Text → Bool
no_words [] = true
no_words (w ∷ ws) = false

abbrev pub group_of : Option Node → Option Group
group_of none = none
group_of (some n) = group n

unfoldable pub global_answer : Parsed → Answer
global_answer (parsed help version words) =
    if version
    then shows_version
    else if help || no_words words
    then shows_global_help
    else unknown_command words
global_answer (bad_argument message) = argument_error message
global_answer (other_error message) = throws message

unfoldable pub group_answer : List Text → Parsed → Answer
group_answer path (parsed help version words) =
    if version
    then shows_version
    else if help || no_words words
    then shows_group_help path
    else unknown_subcommand words path
group_answer path (bad_argument message) = argument_error message
group_answer path (other_error message) = throws message

-- The first of the two tests on a group: it is asked for itself, or the error of the parse.
unfoldable pub asked_for_group : Parsed → Option (Option Text)
asked_for_group (parsed help version words) = if help || no_words words then some none else none
asked_for_group (bad_argument message) = some (some message)
asked_for_group (other_error message) = some (some message)

is_ssh_keys_list : List Text → Bool
unfolding text_eq
is_ssh_keys_list (a ∷ b ∷ []) =
    text_eq a (lit "ssh-keys") && (text_eq b (lit "list") || text_eq b (lit "ls"))
is_ssh_keys_list _ = false

-- The answer to words that a command without arguments does not take.
unfoldable pub leftover : List Text → Text → List Text → Answer
unfolding is_ssh_keys_list is_flag
leftover consumed word words =
    if is_ssh_keys_list consumed && not (is_empty word) && not (is_flag word)
    then ssh_keys_hint word
    else unknown_subcommand (word ∷ words) consumed

module _ (parse : List Text → Parsed) where
  -- handleGlobalRequest
  unfoldable pub handle_global_request : List Text → Answer
  unfolding global_answer
  handle_global_request argv = global_answer (parse argv)

  -- handleGroupRequest
  unfoldable pub handle_group_request : List Text → List Text → Answer
  unfolding group_answer
  handle_group_request argv path = group_answer path (parse (drop (length path) argv))

  -- The answer where no command is found.
  unfoldable pub unresolved : Node → List Text → List Text → Answer
  unfolding handle_global_request handle_group_request
  unresolved root argv (s ∷ t ∷ segments) =
      if is_some (group_of (get_node root (s ∷ [])))
      then handle_group_request argv (s ∷ [])
      else handle_global_request argv
  unresolved root argv segments = handle_global_request argv

  -- The answer where a command is found: unless words are left over, it runs on the other arguments.
  unfoldable pub resolved_answer : List Text → Resolved → Answer
  unfolding leftover
  resolved_answer argv r =
      let run = runs r.definition (drop (length r.consumed) argv) in
      elim r.remaining [
        | [] ↦ run
        | word ∷ words ↦
            if no_words r.definition.arguments then leftover r.consumed word words else run
      ]

  unfoldable pub resolve_or_help : Node → List Text → List Text → Answer
  unfolding unresolved resolved_answer
  resolve_or_help root argv segments = elim (resolve_command root segments) [
    | none ↦ unresolved root argv segments
    | some r ↦ resolved_answer argv r
  ]

  unfoldable pub after_group : Node → List Text → List Text → Option (Option Text) → Answer
  unfolding resolve_or_help handle_group_request
  after_group root argv segments none = resolve_or_help root argv segments
  after_group root argv segments (some none) = handle_group_request argv segments
  after_group root argv segments (some (some message)) = throws message

  abbrev pub node_of : Node → List Text → Option Node
  node_of root [] = none
  node_of root (s ∷ segments) = get_node root (s ∷ segments)

  unfoldable pub dispatch_hoisted : Node → List Text → List Text → Answer
  unfolding after_group asked_for_group resolve_or_help
  dispatch_hoisted root argv segments =
      if is_some (group_of (node_of root segments))
      then after_group root argv segments (asked_for_group (parse (drop (length segments) argv)))
      else resolve_or_help root argv segments

  -- dispatchCommand, up to the run of the command that it finds
  unfoldable pub dispatch : Node → List Text → Answer
  unfolding dispatch_hoisted
  dispatch root argv =
      let hoisted = hoist_leading_global_options argv in
      dispatch_hoisted root hoisted (collect_command_segments hoisted)
