-- ===== src/Credentials/Auth/Laws.antt =====
-- What `resolveAuth` returns.
use phala_cloud.Common.{
  Text, true, Option, none, some, List, [], ◌∷◌, ◌≡◌, ◌↔◌, refl, if◌then◌else◌, is_some, arith,
}
use phala_cloud.Credentials.{Profile, Disk, is_non_empty_string, load_credentials_file}
use phala_cloud.Credentials.Auth.{
  none_found, AuthOptions, profile_of, token_of, credential_of, resolve_auth,
}

-- The first candidate that is not blank.
pub first_non_empty : List (Option Text) → Option Text
first_non_empty [] = none
first_non_empty (o ∷ os) = if is_non_empty_string o then o else first_non_empty os

-- The profile entry that the resolved name selects.
abbrev pub selected_entry : AuthOptions → Disk → Option Profile
selected_entry o disk = profile_of (resolve_auth o disk).profile_name (load_credentials_file disk)

is_some_of_non_empty : (o : Option Text) → is_non_empty_string o ≡ true → is_some o ≡ true
unfolding is_non_empty_string
is_some_of_non_empty none h = h
is_some_of_non_empty (some s) h = refl

-- The chain of early returns, whatever token the file holds.
credential_of_lem :
    (o : AuthOptions) (t : Option Text)
    → ((credential_of o t).api_key ≡ first_non_empty (o.api_token ∷ o.env.cloud_api_key ∷ t ∷ []))
      × ((credential_of o t).bearer_token ≡ (
          if is_some (credential_of o t).api_key
          then none
          else first_non_empty (o.env.oidc_token ∷ [])))
      × (((credential_of o t).source ≡ none_found)
          ↔ (((credential_of o t).api_key ≡ none) × ((credential_of o t).bearer_token ≡ none)))
unfolding credential_of first_non_empty
credential_of_lem o t = ground (
  arith,
  is_some_of_non_empty o.api_token,
  is_some_of_non_empty o.env.cloud_api_key,
  is_some_of_non_empty t,
  is_some_of_non_empty o.env.oidc_token,
)

-- The API key is the first that is not blank of the flag, the environment variable and the selected
-- profile's token; the OIDC token is the bearer token if it is not blank and there is no API key;
-- the reported source is `none` exactly when there is neither.
pub resolve_auth_credential :
    (o : AuthOptions) (disk : Disk)
    → ((resolve_auth o disk).api_key
        ≡ first_non_empty
            (o.api_token ∷ o.env.cloud_api_key ∷ token_of (selected_entry o disk) ∷ []))
      × ((resolve_auth o disk).bearer_token ≡ (
          if is_some (resolve_auth o disk).api_key
          then none
          else first_non_empty (o.env.oidc_token ∷ [])))
      × (((resolve_auth o disk).token_source ≡ none_found)
          ↔ (((resolve_auth o disk).api_key ≡ none) × ((resolve_auth o disk).bearer_token ≡ none)))
unfolding resolve_auth
resolve_auth_credential o disk = credential_of_lem o (token_of (selected_entry o disk))

-- Settings with the environment's API prefix taken out.
abbrev pub without_env_prefix : AuthOptions → AuthOptions
without_env_prefix o = record o { env = record o.env { cloud_api_prefix = none } }
