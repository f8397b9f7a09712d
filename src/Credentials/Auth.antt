-- ===== src/Credentials/Auth.antt =====
-- cli/src/utils/credentials.ts: `resolveAuth`, with the credentials file as it loads.
pub mod Laws
pub mod Login
use phala_cloud.Common.{
  Text, lit, Bool, true, false, not, ◌&&◌, ◌||◌, Option, none, some, List, [], ◌∷◌, if◌then◌else◌,
  is_empty, trim, text_eq, is_some,
}
use phala_cloud.Common.Dict.{Dict, get, keys}
use phala_cloud.Credentials.{
  Workspace, Profile, CredentialsFile, Disk, default_api_prefix, is_non_empty_string,
  normalize_profile_name, load_credentials_file, or_text, truthy, has_profile,
}

pub data TokenSource : Type 0 where
  flag env file oidc_env none_found : TokenSource

pub data ApiPrefixSource : Type 0 where
  env file default_prefix : ApiPrefixSource

pub data ProfileSource : Type 0 where
  flag env project current default_name : ProfileSource

-- The members of `process.env` that are read.
pub record Env : Type 0 where
  pub cloud_profile : Option Text
  pub cloud_api_prefix : Option Text
  pub cloud_workspace : Option Text
  pub cloud_api_key : Option Text
  pub oidc_token : Option Text

pub record AuthOptions : Type 0 where
  pub env : Env
  pub api_token : Option Text
  pub profile : Option Text
  pub project_profile : Option Text

pub record ResolvedAuth : Type 0 where
  pub api_key : Option Text
  pub bearer_token : Option Text
  pub workspace : Option Text
  pub base_url : Text
  pub profile_name : Text
  pub profile_source : ProfileSource
  pub token_source : TokenSource
  pub api_prefix_source : ApiPrefixSource

abbrev pub text_of : Option Text → Text
text_of none = []
text_of (some s) = s

abbrev current_profile_of : Option CredentialsFile → Option Text
current_profile_of none = none
current_profile_of (some f) = some f.current_profile

-- The first of the candidates that is not blank, and where it comes from.
pub requested : AuthOptions → Option CredentialsFile → Text × ProfileSource
requested o credentials =
    if is_non_empty_string o.profile
    then (text_of o.profile, flag)
    else if is_non_empty_string o.env.cloud_profile
    then (text_of o.env.cloud_profile, env)
    else if is_non_empty_string o.project_profile
    then (text_of o.project_profile, project)
    else if is_non_empty_string (current_profile_of credentials)
    then (text_of (current_profile_of credentials), current)
    else (lit "default", default_name)

-- Object.entries(profiles).find(…)?.[0]
pub find_key : (Profile → Bool) → Dict Profile → Option Text
find_key p [] = none
find_key p ((k, v) ∷ d) = if p v then some k else find_key p d

pub slug_is : Text → Profile → Bool
slug_is t p = elim p.workspace.slug [ none ↦ false | some s ↦ text_eq s t ]

pub name_is : Text → Profile → Bool
name_is t p = text_eq p.workspace.name t

by_workspace : Text → Option Text → Option Text → Text
by_workspace t (some k) n = k
by_workspace t none (some k) = k
by_workspace t none none = t

-- The profile of that name, else the first whose workspace slug, else the first whose workspace
-- name is that; else the name itself.
select_profile : Text → Option CredentialsFile → Text
unfolding find_key slug_is name_is by_workspace has_profile
select_profile t none = t
select_profile t (some f) =
    if has_profile t f.profiles
    then t
    else by_workspace t (find_key (slug_is t) f.profiles) (find_key (name_is t) f.profiles)

abbrev pub profile_of : Text → Option CredentialsFile → Option Profile
profile_of t none = none
profile_of t (some f) = get t f.profiles

abbrev pub prefix_of : Option Profile → Option Text
prefix_of none = none
prefix_of (some p) = some p.api_prefix

abbrev pub token_of : Option Profile → Option Text
token_of none = none
token_of (some p) = some p.token

base_url_of : Option Text → Option Text → Text
base_url_of from_env from_file =
    if is_non_empty_string from_env
    then text_of from_env
    else if is_non_empty_string from_file
    then text_of from_file
    else default_api_prefix

prefix_source_of : Option Text → Option Text → ApiPrefixSource
prefix_source_of from_env from_file =
    if truthy from_env then env else if truthy from_file then file else default_prefix

pub record Credential : Type 0 where
  pub api_key : Option Text
  pub bearer_token : Option Text
  pub source : TokenSource

-- The chain of early returns on the token.
credential_of : AuthOptions → Option Text → Credential
credential_of o from_file =
    if is_non_empty_string o.api_token
    then record { api_key = o.api_token; bearer_token = none; source = flag }
    else if is_non_empty_string o.env.cloud_api_key
    then record { api_key = o.env.cloud_api_key; bearer_token = none; source = env }
    else if is_non_empty_string from_file
    then record { api_key = from_file; bearer_token = none; source = file }
    else if is_non_empty_string o.env.oidc_token
    then record { api_key = none; bearer_token = o.env.oidc_token; source = oidc_env }
    else record { api_key = none; bearer_token = none; source = none_found }

-- resolveAuth
unfoldable pub resolve_auth : AuthOptions → Disk → ResolvedAuth
unfolding requested select_profile base_url_of prefix_source_of credential_of
resolve_auth o disk =
    let credentials = load_credentials_file disk in
    let (raw, profile_source) = requested o credentials in
    let selected = select_profile (normalize_profile_name raw) credentials in
    let stored = profile_of selected credentials in
    let c = credential_of o (token_of stored) in
    record {
      api_key = c.api_key;
      bearer_token = c.bearer_token;
      workspace =
          if is_non_empty_string o.env.cloud_workspace
          then some (trim (text_of o.env.cloud_workspace))
          else none;
      base_url = base_url_of o.env.cloud_api_prefix (prefix_of stored);
      profile_name = selected;
      profile_source = profile_source;
      token_source = c.source;
      api_prefix_source = prefix_source_of o.env.cloud_api_prefix (prefix_of stored);
    }
