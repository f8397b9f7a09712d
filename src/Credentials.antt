-- ===== src/Credentials.antt =====
-- cli/src/utils/credentials.ts: the credentials file and the operations that change it.
-- A profile is taken to have the declared shape; `Disk` is what stands at the file's path.
pub mod Profiles
pub mod History
pub mod Effects
pub mod Spec
pub mod Refines
pub mod Auth
mod Tests
use phala_cloud.Common.{
  Text, lit, Bool, true, false, not, ◌&&◌, ◌||◌, Option, none, some, List, [], ◌∷◌, ℕ, ◌==◌,
  if◌then◌else◌, is_empty, trim, text_eq, is_some, any,
}
use phala_cloud.Common.Dict.{Dict, get, put, remove, keys}

pub record Workspace : Type 0 where
  pub name : Text
  pub slug : Option Text

pub record User : Type 0 where
  pub username : Text
  pub email : Option Text

pub record Profile : Type 0 where
  pub token : Text
  pub api_prefix : Text
  pub workspace : Workspace
  pub user : User
  pub updated_at : Text

pub record CredentialsFile : Type 0 where
  pub current_profile : Text
  pub profiles : Dict Profile

-- The members that `loadCredentialsFile` looks at; `none` for one that is missing or of another
-- type (`profiles` also when it is falsy).
pub record Document : Type 0 where
  pub schema_version : Option ℕ
  pub current_profile : Option Text
  pub profiles : Option (Dict Profile)

-- No file; a file that cannot be read or parsed; a JSON value that is no object; an object.
pub data Disk : Type 0 where
  missing unreadable no_object : Disk
  stored : Document → Disk

abbrev pub default_api_prefix : Text
default_api_prefix = lit "https://cloud-api.phala.com/api/v1"

-- isNonEmptyString
unfoldable pub is_non_empty_string : Option Text → Bool
is_non_empty_string none = false
is_non_empty_string (some s) = not (is_empty (trim s))

-- normalizeProfileName
unfoldable pub normalize_profile_name : Text → Text
normalize_profile_name name = if is_empty (trim name) then lit "default" else trim name

is_one : Option ℕ → Bool
is_one none = false
is_one (some n) = n == 1

load_document : Option Text → Option (Dict Profile) → Option CredentialsFile
load_document none profiles = none
load_document (some current) none = none
load_document (some current) (some profiles) =
    some (record { current_profile = current; profiles = profiles })

-- loadCredentialsFile
unfoldable pub load_credentials_file : Disk → Option CredentialsFile
unfolding load_document is_one is_non_empty_string
load_credentials_file missing = none
load_credentials_file unreadable = none
load_credentials_file no_object = none
load_credentials_file (stored d) =
    if not (is_one d.schema_version)
    then none
    else if not (is_non_empty_string d.current_profile)
    then none
    else load_document d.current_profile d.profiles

-- saveCredentialsFile: what is on disk afterwards
unfoldable pub save_credentials_file : CredentialsFile → Disk
save_credentials_file f = stored (record {
  schema_version = some 1;
  current_profile = some f.current_profile;
  profiles = some f.profiles;
})

-- The `Error`s that the operations throw.
pub data ProfileError : Type 0 where
  no_credentials_file : ProfileError
  not_found already_exists : Text → ProfileError

-- What an operation does that may throw. `unshaped` is a file that is written with an empty object for
-- a profile, which is none of the declared shape.
pub data Outcome : Type 0 where
  done : Disk → Outcome
  threw : ProfileError → Outcome
  unshaped : Outcome

-- The members that an object has from Object.prototype: functions, and __proto__, an object.
abbrev inherited_names : List Text
inherited_names =
    lit "constructor"
    ∷ lit "hasOwnProperty"
    ∷ lit "isPrototypeOf"
    ∷ lit "propertyIsEnumerable"
    ∷ lit "toLocaleString"
    ∷ lit "toString"
    ∷ lit "valueOf"
    ∷ lit "__defineGetter__"
    ∷ lit "__defineSetter__"
    ∷ lit "__lookupGetter__"
    ∷ lit "__lookupSetter__"
    ∷ lit "__proto__"
    ∷ []

unfoldable pub is_inherited : Text → Bool
unfolding text_eq
is_inherited name = any (text_eq name) inherited_names

-- Whether profiles[name] is truthy: a profile, or a member that is inherited.
unfoldable pub has_profile : Text → Dict Profile → Bool
unfolding is_inherited get
has_profile name profiles = is_some (get name profiles) || is_inherited name

pub record Upsert : Type 0 where
  pub profile_name : Text
  pub token : Text
  pub api_prefix : Option Text
  pub workspace_name : Text
  pub workspace_slug : Option Text
  pub user : User
  pub set_current : Option Bool

-- a || b, on strings
abbrev pub or_text : Option Text → Text → Text
or_text none t = t
or_text (some s) t = if is_empty s then t else s

abbrev pub truthy : Option Text → Bool
truthy none = false
truthy (some s) = not (is_empty s)

abbrev current_of : Option CredentialsFile → Option Text
current_of none = none
current_of (some f) = some f.current_profile

abbrev profiles_of : Option CredentialsFile → Dict Profile
profiles_of none = []
profiles_of (some f) = f.profiles

abbrev should_set : Option Bool → Bool
should_set none = true
should_set (some b) = b

-- The profile that `upsertProfile` writes; `now` is `new Date().toISOString()`.
pub upserted : Upsert → Text → Profile
upserted o now =
    let prefix = trim (or_text o.api_prefix default_api_prefix) in
    record {
      token = o.token;
      api_prefix = if is_empty prefix then default_api_prefix else prefix;
      workspace = record {
        name = o.workspace_name;
        slug = if truthy o.workspace_slug then o.workspace_slug else none;
      };
      user = o.user;
      updated_at = now;
    }

-- upsertProfile
unfoldable pub upsert_profile : Upsert → Text → Disk → Disk
unfolding upserted normalize_profile_name load_credentials_file save_credentials_file
upsert_profile o now disk =
    let name = normalize_profile_name o.profile_name in
    let current = load_credentials_file disk in
    save_credentials_file (record {
      current_profile =
          if should_set o.set_current then name else or_text (current_of current) name;
      profiles = put name (upserted o now) (profiles_of current);
    })

abbrev first_or : List Text → Text → Text
first_or [] t = t
first_or (k ∷ ks) t = k

remove_from : Bool → Text → CredentialsFile → Disk → Disk
remove_from unlinks target f disk = elim (keys (remove target f.profiles)) [
  | [] ↦ if unlinks then missing else disk
  | k ∷ ks ↦ save_credentials_file (record {
    current_profile = if text_eq f.current_profile target then k else f.current_profile;
    profiles = remove target f.profiles;
  })
]

-- removeProfile; `unlinks` says whether `fs.unlinkSync` succeeds (its error is only logged)
unfoldable pub remove_profile : Bool → Option Text → Disk → Disk
unfolding remove_from normalize_profile_name load_credentials_file save_credentials_file
remove_profile unlinks name disk = elim (load_credentials_file disk) [
  | none ↦ disk
  | some f ↦ remove_from unlinks (normalize_profile_name (or_text name f.current_profile)) f disk
]

-- A member that is inherited is copied to the new name: a function is left out of the JSON that is
-- saved, and __proto__ is saved as an empty object.
rename_inherited : Text → Text → CredentialsFile → Outcome
unfolding text_eq
rename_inherited old new f =
    if text_eq old (lit "__proto__")
    then unshaped
    else done (
        save_credentials_file (record f {
          current_profile = if text_eq f.current_profile old then new else f.current_profile;
        }))

rename_in : Text → Text → CredentialsFile → Option Profile → Outcome
unfolding has_profile is_inherited rename_inherited
rename_in old new f none =
    if not (is_inherited old)
    then threw (not_found old)
    else if has_profile new f.profiles
    then threw (already_exists new)
    else rename_inherited old new f
rename_in old new f (some p) =
    if has_profile new f.profiles
    then threw (already_exists new)
    else done (
        save_credentials_file (record {
          current_profile = if text_eq f.current_profile old then new else f.current_profile;
          profiles = remove old (put new p f.profiles);
        }))

-- renameProfile
unfoldable pub rename_profile : Text → Text → Disk → Outcome
unfolding rename_in normalize_profile_name load_credentials_file save_credentials_file
rename_profile old new disk = elim (load_credentials_file disk) [
  | none ↦ threw no_credentials_file
  | some f ↦
      rename_in (normalize_profile_name old) (normalize_profile_name new) f
        (get (normalize_profile_name old) f.profiles)
]

switch_in : Text → CredentialsFile → Disk → Outcome
unfolding has_profile
switch_in name f disk =
    if not (has_profile name f.profiles)
    then threw (not_found name)
    else if text_eq f.current_profile name
    then done disk
    else done (save_credentials_file (record f { current_profile = name }))

-- switchProfile
unfoldable pub switch_profile : Text → Disk → Outcome
unfolding switch_in normalize_profile_name load_credentials_file save_credentials_file
switch_profile name disk = elim (load_credentials_file disk) [
  | none ↦ threw no_credentials_file
  | some f ↦ switch_in (normalize_profile_name name) f disk
]

-- listProfiles
unfoldable pub list_profiles : Disk → List Text
unfolding load_credentials_file
list_profiles disk = keys (profiles_of (load_credentials_file disk))

-- The name with its profile, `none` for a member that is inherited.
named : Text → Option Profile → Option (Text × Option Profile)
unfolding is_inherited
named name none = if is_inherited name then some (name, none) else none
named name (some p) = some (name, some p)

-- getCurrentProfile
unfoldable pub get_current_profile : Disk → Option (Text × Option Profile)
unfolding load_credentials_file named
get_current_profile disk = elim (load_credentials_file disk) [
  | none ↦ none
  | some f ↦ named f.current_profile (get f.current_profile f.profiles)
]

-- saveApiKey
unfoldable pub save_api_key : Text → Text → Disk → Disk
unfolding upsert_profile
save_api_key key now disk =
    upsert_profile
      (record {
        profile_name = lit "default";
        token = key;
        api_prefix = none;
        workspace_name = lit "default";
        workspace_slug = none;
        user = record { username = lit "unknown"; email = none };
        set_current = none;
      })
      now disk

-- removeApiKey
unfoldable pub remove_api_key : Bool → Disk → Disk
unfolding remove_profile
remove_api_key unlinks disk = remove_profile unlinks none disk
