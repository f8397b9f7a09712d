-- ===== src/Credentials/Tests.antt =====
-- Runs of the credentials operations, and each theorem at a concrete disk.
use phala_cloud.Common.{
  Text, lit, true, none, some, List, [], ◌∷◌, ◌≡◌, ◌↔◌, refl, if◌then◌else◌, text_eq, trim,
  is_space, is_some, all, All,
}
use phala_cloud.Common.Dict.{get, put, remove}
use phala_cloud.Credentials.{
  CredentialsFile, Disk, missing, Outcome, done, threw, Upsert, upsert_profile, remove_profile,
  rename_profile, switch_profile, get_current_profile, load_credentials_file,
  normalize_profile_name, already_exists, is_inherited, has_profile, is_non_empty_string,
  list_profiles,
}
use phala_cloud.Credentials.Profiles.{IsSound}
use phala_cloud.Credentials.History.{
  IsOwnNamed, Operation, upsert, remove as remove_op, rename, switch, perform_all, missing-IsSound,
  perform_all-IsSound,
}
use phala_cloud.Credentials.Spec.{view, IsRun}
use phala_cloud.Credentials.Refines.{perform_all-IsRun}
use phala_cloud.Credentials.Auth.{
  TokenSource, ProfileSource, Env, AuthOptions, ResolvedAuth, resolve_auth, none_found, token_of,
}
use phala_cloud.Credentials.Auth.Laws.{first_non_empty, selected_entry, resolve_auth_credential}
use phala_cloud.Credentials.Auth.Login.{IsSilent, resolve_auth-upsert_profile}

abbrev login : Text → Text → Upsert
login name token = record {
  profile_name = name;
  token = token;
  api_prefix = none;
  workspace_name = lit "team";
  workspace_slug = some (lit "team-1");
  user = record { username = lit "ann"; email = none };
  set_current = none;
}

abbrev two_profiles : List Operation
two_profiles =
    upsert (login (lit " dev ") (lit "k1")) (lit "t1")
    ∷ upsert (login (lit "prod") (lit "k2")) (lit "t2")
    ∷ []

abbrev disk : Disk
disk = perform_all two_profiles missing

abbrev file_of : Disk → CredentialsFile
file_of d = elim (load_credentials_file d) [
  | none ↦ record { current_profile = []; profiles = [] }
  | some f ↦ f
]

abbrev profiles_on_disk : List Text
profiles_on_disk = lit "dev" ∷ lit "prod" ∷ []

runs : Unit {0}
unfolding upsert_profile remove_profile rename_profile switch_profile get_current_profile
    list_profiles get put remove text_eq trim is_space resolve_auth load_credentials_file
    is_non_empty_string is_inherited has_profile
runs = tt

listed : list_profiles disk ≡ profiles_on_disk
unfolding runs
listed = refl

loaded : load_credentials_file disk ≡ some (file_of disk)
unfolding runs
loaded = refl

renamed : rename_profile (lit "dev") (lit "prod") disk ≡ threw (already_exists (lit "prod"))
unfolding runs
renamed = refl

perform_all-IsSound_example : IsSound (perform_all two_profiles missing)
perform_all-IsSound_example =
    perform_all-IsSound two_profiles missing (tt, (tt, tt)) missing-IsSound

abbrev changes : List Operation
changes =
    rename (lit "dev") (lit "qa")
    ∷ rename (lit "qa") (lit "prod")
    ∷ switch (lit "prod")
    ∷ remove_op true none
    ∷ switch (lit "prod")
    ∷ remove_op true (some (lit "qa"))
    ∷ []

-- The disk that an operation leaves, `missing` if it throws.
abbrev after : Outcome → Disk
after (done d) = d
after _ = missing

changes-IsOwnNamed : All IsOwnNamed changes
unfolding runs
changes-IsOwnNamed = ((refl, refl), ((refl, refl), (refl, (tt, (refl, (tt, tt))))))

-- A member of Object.prototype is taken for a profile.
switched_to_constructor :
    switch_profile (lit "constructor") disk ≡ done (after (switch_profile (lit "constructor") disk))
unfolding runs
switched_to_constructor = refl

perform_all-IsRun_example : IsRun changes (view disk) (view (perform_all changes disk))
perform_all-IsRun_example =
    perform_all-IsRun changes disk (refl, (refl, (refl, (refl, (refl, (refl, tt))))))
      changes-IsOwnNamed (perform_all-IsSound two_profiles missing (tt, (tt, tt)) missing-IsSound)

rename_done :
    rename_profile (lit "dev") (lit "qa") disk
    ≡ done (after (rename_profile (lit "dev") (lit "qa") disk))
unfolding runs
rename_done = refl

switch_done : switch_profile (lit "dev") disk ≡ done (after (switch_profile (lit "dev") disk))
unfolding runs
switch_done = refl

abbrev bare : Env
bare = record {
  cloud_profile = none;
  cloud_api_prefix = none;
  cloud_workspace = none;
  cloud_api_key = none;
  oidc_token = none;
}

abbrev nothing_given : AuthOptions
nothing_given = record { env = bare; api_token = none; profile = none; project_profile = none }

nothing_given-IsSilent : IsSilent nothing_given
unfolding runs
nothing_given-IsSilent = record {
  no_flag = refl;
  no_env = refl;
  no_project = refl;
  no_token = refl;
  no_key = refl;
}

abbrev resolved : ResolvedAuth
resolved = resolve_auth nothing_given (upsert_profile (login (lit "qa") (lit "k9")) (lit "t9") disk)

token_given : is_non_empty_string (some (lit "k9")) ≡ true
unfolding runs
token_given = refl

resolve_auth-upsert_profile_example :
    (resolved.api_key ≡ some (lit "k9"))
    × (resolved.bearer_token ≡ none)
    × (resolved.profile_name ≡ normalize_profile_name (lit "qa"))
    × (resolved.profile_source ≡ ProfileSource.current)
    × (resolved.token_source ≡ TokenSource.file)
resolve_auth-upsert_profile_example =
    resolve_auth-upsert_profile nothing_given (login (lit "qa") (lit "k9")) (lit "t9") disk
      nothing_given-IsSilent (λ e. cc) token_given

resolve_auth_credential_example :
    ((resolve_auth nothing_given disk).api_key
      ≡ first_non_empty (none ∷ none ∷ token_of (selected_entry nothing_given disk) ∷ []))
    × ((resolve_auth nothing_given disk).bearer_token ≡ (
        if is_some (resolve_auth nothing_given disk).api_key
        then none
        else first_non_empty (none ∷ [])))
    × (((resolve_auth nothing_given disk).token_source ≡ none_found) ↔ (
        ((resolve_auth nothing_given disk).api_key ≡ none)
        × ((resolve_auth nothing_given disk).bearer_token ≡ none)))
resolve_auth_credential_example = resolve_auth_credential nothing_given disk

abbrev blank_prefix : AuthOptions
blank_prefix = record nothing_given { env = record bare { cloud_api_prefix = some (lit " ") } }

is_blank : all is_space (lit " ") ≡ true
unfolding is_space
is_blank = refl
