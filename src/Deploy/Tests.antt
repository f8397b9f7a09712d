-- ===== src/Deploy/Tests.antt =====
-- Deployments with few variables and options, and each theorem at one.
use phala_cloud.Common.{
  Text, lit, true, false, none, some, List, [], ◌∷◌, ◌≡◌, ◌↔◌, refl, text_eq, trim, trim_start,
  trim_end, is_space, if◌then◌else◌,
}
use phala_cloud.Common.Json.{bool, str, truthy_json}
use phala_cloud.Common.JsMap.{get, set}
use phala_cloud.Deploy.{
  EnvVar, EnvOptions, Loaded, missing, holds, env_file, no_env_file, not_found, ok, threw,
  split_at_equals, is_env_name, is_key, key_is_valid, is_key_value_format, parse_env_inputs,
  set_all, dedupe_env_vars, load_env_file, load_files, load_answer, resolve_env_vars,
}
use phala_cloud.Deploy.Resolved.{IsResolved, resolve_env_vars-IsResolved}
use phala_cloud.Deploy.Options.{
  Options, cannot_be_changed, cannot_be_used_with_app_compose, is_given, is_on, given_flags,
  ignored_flags, validate_pre_launch_script_options, assert_updatable_options,
  assert_create_options, check_options,
}
use phala_cloud.Deploy.Options.Allowed.{AreApart, IsAllowedFor, check_options-none_iff}

env_runs : Unit {0}
unfolding get set text_eq trim trim_start trim_end is_space split_at_equals is_env_name is_key
    key_is_valid is_key_value_format parse_env_inputs set_all dedupe_env_vars load_env_file
    load_files load_answer resolve_env_vars
env_runs = tt

option_runs : Unit {0}
unfolding get text_eq truthy_json is_given is_on given_flags ignored_flags
    validate_pre_launch_script_options assert_updatable_options assert_create_options check_options
option_runs = tt

abbrev var : Text → Text → EnvVar
var key value = record { key = key; value = value }

abbrev files : Text → Loaded
unfolding text_eq
files path =
    if text_eq path (lit "a.env")
    then holds (var (lit "A") (lit "1") ∷ var (lit "B") (lit "2") ∷ [])
    else if text_eq path (lit "old.env")
    then holds (var (lit "C") (lit "0") ∷ [])
    else missing

abbrev given : EnvOptions
given = record {
  env = some (lit "A=3" ∷ lit "a.env" ∷ lit "A=x=4" ∷ []);
  env_file = env_file (lit "old.env");
  interactive = false;
}

abbrev resolved : List EnvVar
resolved = var (lit "C") (lit "0") ∷ var (lit "A") (lit "x=4") ∷ var (lit "B") (lit "2") ∷ []

given_resolved : resolve_env_vars files given [] ≡ ok (some resolved)
unfolding env_runs files
given_resolved = refl

with_separator :
    resolve_env_vars files (record given { env = some (lit "dir/A=3" ∷ []) }) []
    ≡ threw (not_found (lit "dir/A=3"))
unfolding env_runs files
with_separator = refl

from_answer :
    resolve_env_vars files
      (record { env = none; env_file = no_env_file; interactive = true })
      (lit " a.env ")
    ≡ ok (some (var (lit "A") (lit "1") ∷ var (lit "B") (lit "2") ∷ []))
unfolding env_runs files
from_answer = refl

resolve_env_vars-IsResolved_example : IsResolved files given [] resolved
resolve_env_vars-IsResolved_example =
    resolve_env_vars-IsResolved files given [] resolved given_resolved

abbrev whole_compose : Options
whole_compose =
    (lit "appCompose", str (lit "app-compose.json"))
    ∷ (lit "gateway", bool false)
    ∷ (lit "noPreLaunchScript", bool true)
    ∷ []

ignored :
    check_options false whole_compose
    ≡ some (cannot_be_used_with_app_compose (lit "--gateway" ∷ lit "--no-pre-launch-script" ∷ []))
unfolding option_runs
ignored = refl

not_for_update :
    check_options true whole_compose ≡ some (cannot_be_changed (lit "--app-compose" ∷ []))
unfolding option_runs
not_for_update = refl

check_options-none_iff_example : (check_options false whole_compose ≡ none) ↔ (
    AreApart
      (is_on (lit "noPreLaunchScript") whole_compose)
      (is_given (lit "preLaunchScript") whole_compose)
    × IsAllowedFor false whole_compose)
check_options-none_iff_example = check_options-none_iff false whole_compose
