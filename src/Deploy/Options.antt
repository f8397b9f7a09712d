-- ===== src/Deploy/Options.antt =====
-- cli/src/commands/deploy/handler.ts: the checks of the options that runDeploy makes before anything
-- else.
pub mod Allowed
use phala_cloud.Common.{
  Text, lit, Bool, true, false, not, ◌&&◌, Option, none, some, List, [], ◌∷◌, ◌++◌, if◌then◌else◌,
  is_some,
}
use phala_cloud.Common.Json.{Json, truthy_json}
use phala_cloud.Common.JsMap.{get}

-- The options that are not undefined, by name.
abbrev pub Options : Type 0
Options = List (Text × Json)

-- An option's name and its flag.
abbrev pub Flag : Type 0
Flag = Text × Text

-- The messages, with the flags they name.
pub data OptionError : Type 0 where
  both_pre_launch clear_with_init : OptionError
  cannot_be_changed cannot_be_used_with_app_compose : List Text → OptionError
  only_applies_to_update : Text → OptionError

abbrev pub create_only_flags : List Flag
create_only_flags =
    (lit "name", lit "--name")
    ∷ (lit "region", lit "--region")
    ∷ (lit "node", lit "--node")
    ∷ (lit "customAppId", lit "--custom-app-id")
    ∷ (lit "nonce", lit "--nonce")
    ∷ (lit "keyProviderMode", lit "--key-provider-mode")
    ∷ (lit "devOs", lit "--dev-os")
    ∷ (lit "sshPubkey", lit "--ssh-pubkey")
    ∷ (lit "fs", lit "--fs")
    ∷ (lit "skipGateway", lit "--skip-gateway")
    ∷ (lit "kms", lit "--kms")
    ∷ (lit "kmsId", lit "--kms-id")
    ∷ (lit "kmsContract", lit "--kms-contract")
    ∷ (lit "kmsContractId", lit "--kms-contract-id")
    ∷ (lit "experimentalKeyProviderType", lit "--experimental-key-provider-type")
    ∷ (lit "runner", lit "--runner")
    ∷ (lit "appCompose", lit "--app-compose")
    ∷ (lit "launchToken", lit "--launch-token")
    ∷ (lit "generateLaunchToken", lit "--generate-launch-token")
    ∷ []

abbrev pub compose_shaping_flags : List Flag
compose_shaping_flags =
    (lit "compose", lit "--compose")
    ∷ (lit "runner", lit "--runner")
    ∷ (lit "preLaunchScript", lit "--pre-launch-script")
    ∷ (lit "fs", lit "--fs")
    ∷ (lit "secureTime", lit "--secure-time")
    ∷ (lit "publicLogs", lit "--public-logs")
    ∷ (lit "publicSysinfo", lit "--public-sysinfo")
    ∷ (lit "publicTcbinfo", lit "--public-tcbinfo")
    ∷ (lit "eventLogVersion", lit "--event-log-version")
    ∷ (lit "ephemeralDataDisk", lit "--ephemeral-data-disk")
    ∷ (lit "gateway", lit "--gateway")
    ∷ (lit "experimentalKeyProviderType", lit "--experimental-key-provider-type")
    ∷ []

abbrev pub update_only_flags : List Flag
update_only_flags =
    (lit "confirmDataWipe", lit "--confirm-data-wipe")
    ∷ (lit "launchTokenHash", lit "--launch-token-hash")
    ∷ (lit "clearInitScripts", lit "--clear-init-scripts")
    ∷ []

unfoldable pub is_given : Text → Options → Bool
unfolding get
is_given key o = is_some (get key o)

abbrev pub is_truthy_option : Option Json → Bool
unfolding truthy_json
is_truthy_option none = false
is_truthy_option (some j) = truthy_json j

-- Whether an if takes the option for true.
unfoldable pub is_on : Text → Options → Bool
unfolding get is_truthy_option
is_on key o = is_truthy_option (get key o)

-- The flags of a table whose options are given.
unfoldable pub given_flags : List Flag → Options → List Text
unfolding is_given
given_flags [] o = []
given_flags ((key, flag) ∷ flags) o =
    let rest = given_flags flags o in if is_given key o then flag ∷ rest else rest

-- validatePreLaunchScriptOptions
unfoldable pub validate_pre_launch_script_options : Options → Option OptionError
unfolding is_on is_given
validate_pre_launch_script_options o =
    if is_on (lit "noPreLaunchScript") o && is_given (lit "preLaunchScript") o
    then some both_pre_launch
    else none

-- The error that names flags where there are any, else the one that follows.
abbrev pub refuse : (List Text → OptionError) → List Text → Option OptionError → Option OptionError
refuse error [] next = next
refuse error (flag ∷ flags) next = some (error (flag ∷ flags))

-- assertUpdatableOptions
unfoldable pub assert_updatable_options : Options → Option OptionError
unfolding is_on is_given given_flags
assert_updatable_options o = refuse cannot_be_changed (given_flags create_only_flags o) (
    if is_on (lit "clearInitScripts") o && is_given (lit "initScript") o
    then some clear_with_init
    else none)

abbrev pub refuse_first : List Text → Option OptionError → Option OptionError
refuse_first [] next = next
refuse_first (flag ∷ flags) next = some (only_applies_to_update flag)

-- The flags that cannot go with a whole app compose.
unfoldable pub ignored_flags : Options → List Text
unfolding given_flags is_on
ignored_flags o =
    given_flags compose_shaping_flags o
    ++ (if is_on (lit "noPreLaunchScript") o then lit "--no-pre-launch-script" ∷ [] else [])

-- assertCreateOptions
unfoldable pub assert_create_options : Options → Option OptionError
unfolding given_flags is_given ignored_flags
assert_create_options o = refuse_first (given_flags update_only_flags o) (
    if not (is_given (lit "appCompose") o)
    then none
    else refuse cannot_be_used_with_app_compose (ignored_flags o) none)

abbrev pub else_check : Option OptionError → Option OptionError → Option OptionError
else_check none next = next
else_check (some e) next = some e

-- The checks at the start of runDeploy, for an update where there is a CVM.
unfoldable pub check_options : Bool → Options → Option OptionError
unfolding validate_pre_launch_script_options assert_updatable_options assert_create_options
check_options has_cvm o =
    else_check (validate_pre_launch_script_options o)
      (if has_cvm then assert_updatable_options o else assert_create_options o)
