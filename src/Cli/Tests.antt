-- ===== src/Cli/Tests.antt =====
-- Runs of the command line, and each theorem at one.
use phala_cloud.Common.{Text, lit, some, List, [], ◌∷◌, ◌≡◌, refl, text_eq, starts_with, is_space}
use phala_cloud.Common.Dict
use phala_cloud.Common.JsMap
use phala_cloud.Cli.Options.{prepare_flag_config, to_camel_case}
use phala_cloud.Cli.Hoist.{
  is_flag, classify, take_leading, split_command, hoist, hoist_leading_global_options,
  collect_command_segments, split_equals, split_at_double_dash,
}
use phala_cloud.Cli.Hoist.Moves.{Leading, none_left, alone, valued, IsHoisted, IsWord}
use phala_cloud.Cli.Hoist.Laws.{global_config, hoist_leading-IsHoisted}
use phala_cloud.Cli.Registry.{
  Definition, Group, Node, create_node, find_child, set_child, get_child, get_node, change_at,
  register_command, walk, Resolved, resolve_command,
}
use phala_cloud.Cli.Registry.Register.{command_at}
use phala_cloud.Cli.Registry.Longest.{IsLongest, resolve_command-IsLongest}

runs : Unit {0}
unfolding is_flag classify take_leading split_command hoist hoist_leading_global_options
    collect_command_segments split_equals text_eq starts_with Dict.get Dict.put JsMap.get JsMap.set
    prepare_flag_config to_camel_case is_space find_child set_child get_child get_node change_at
    register_command walk resolve_command command_at split_at_double_dash
runs = tt

-- --json --profile dev api /me --profile=x
abbrev argv : List Text
argv = lit "--json" ∷ lit "--profile" ∷ lit "dev" ∷ lit "api" ∷ lit "/me" ∷ lit "--profile=x" ∷ []

hoisted :
    hoist_leading_global_options argv
    ≡ lit "api" ∷ lit "/me" ∷ lit "--json" ∷ lit "--profile" ∷ lit "dev" ∷ lit "--profile=x" ∷ []
unfolding runs
hoisted = refl

camel : to_camel_case (lit "api-token id") ≡ lit "apiTokenId"
unfolding runs
camel = refl

dashes :
    split_at_double_dash (lit "a" ∷ lit "--" ∷ lit "b" ∷ lit "--" ∷ [])
    ≡ (lit "a" ∷ [], lit "b" ∷ lit "--" ∷ [])
unfolding runs
dashes = refl

hoist_leading-IsHoisted_example : IsHoisted global_config argv (hoist_leading_global_options argv)
hoist_leading-IsHoisted_example = hoist_leading-IsHoisted argv

abbrev leading : List Text
leading = lit "--json" ∷ lit "--profile" ∷ lit "dev" ∷ []

leading-Leading : Leading global_config leading
unfolding runs
leading-Leading = alone refl (valued refl none_left)

api-IsWord : IsWord (lit "api")
unfolding runs
api-IsWord = refl

abbrev list_keys : Definition
list_keys = record {
  path = lit "ssh-keys" ∷ lit "list" ∷ [];
  aliases = lit "ls" ∷ [];
  arguments = [];
}

abbrev ssh_keys : Definition
ssh_keys = record { path = lit "ssh-keys" ∷ []; aliases = []; arguments = [] }

abbrev tree : Node
tree = register_command list_keys (register_command ssh_keys create_node)

abbrev words : List Text
words = lit "ssh-keys" ∷ lit "ls" ∷ lit "extra" ∷ []

abbrev found : Resolved
found = record {
  definition = list_keys;
  consumed = lit "ssh-keys" ∷ lit "ls" ∷ [];
  remaining = lit "extra" ∷ [];
}

resolved : resolve_command tree words ≡ some found
unfolding runs
resolved = refl

resolve_command-IsLongest_example : IsLongest tree words found
resolve_command-IsLongest_example = resolve_command-IsLongest tree words found resolved

abbrev ssh_group : Group
ssh_group = record { path = lit "ssh-keys" ∷ []; aliases = lit "keys" ∷ [] }
