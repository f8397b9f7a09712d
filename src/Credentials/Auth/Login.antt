-- ===== src/Credentials/Auth/Login.antt =====
-- A login followed by `resolveAuth`.
use phala_cloud.Common.{
  Text, true, false, none, some, ◌≡◌, ◌≢◌, refl, text_eq_refl, is_some, arith, is_empty, trim,
  Bool-cases, inl, inr, is_space,
}
use phala_cloud.Common.Dict.{get, put, get-put}
use phala_cloud.Credentials.{
  Profile, CredentialsFile, Disk, is_non_empty_string, normalize_profile_name,
  load_credentials_file, save_credentials_file, Upsert, should_set, profiles_of, upserted,
  upsert_profile, has_profile,
}
use phala_cloud.Common.Blank.{trim_idem}
use phala_cloud.Credentials.Profiles.{normalize_profile_name-IsNamed}
use phala_cloud.Credentials.Effects.{load-save_of_IsNamed}
use phala_cloud.Credentials.Auth.{
  AuthOptions, current, file, requested, select_profile, credential_of, resolve_auth,
}

-- Nothing but the credentials file says which profile or token to use.
pub record IsSilent (o : AuthOptions) : Type 0 where
  pub no_flag : is_non_empty_string o.profile ≡ false
  pub no_env : is_non_empty_string o.env.cloud_profile ≡ false
  pub no_project : is_non_empty_string o.project_profile ≡ false
  pub no_token : is_non_empty_string o.api_token ≡ false
  pub no_key : is_non_empty_string o.env.cloud_api_key ≡ false

requested-IsSilent :
    (o : AuthOptions) (f : CredentialsFile)
    → IsSilent o
    → is_non_empty_string (some f.current_profile) ≡ true
    → requested o (some f) ≡ (f.current_profile, current)
unfolding requested
requested-IsSilent o f s n = rw (s.no_flag, s.no_env, s.no_project, n)

-- A name that was normalised is normalised already.
pub normalize_profile_name_idem :
    (name : Text)
    → normalize_profile_name (normalize_profile_name name) ≡ normalize_profile_name name
unfolding normalize_profile_name
normalize_profile_name_idem name = elim (Bool-cases (is_empty (trim name))) [
  | inl e ↦ rw e (unfold trim is_space in refl)
  | inr e ↦ rw e (rw (trim_idem name, e))
]

select_profile_of_bound :
    (t : Text) (f : CredentialsFile)
    → is_some (get t f.profiles) ≡ true
    → select_profile t (some f) ≡ t
unfolding select_profile has_profile
select_profile_of_bound t f e = rw e

credential_of-IsSilent :
    (o : AuthOptions) (t : Text)
    → IsSilent o
    → is_non_empty_string (some t) ≡ true
    → credential_of o (some t) ≡ record { api_key = some t; bearer_token = none; source = file }
unfolding credential_of
credential_of-IsSilent o t s n = rw (s.no_token, s.no_key, n)

-- `resolveAuth` on a file whose current profile exists and has a token.
resolve_auth_of_current :
    (o : AuthOptions) (disk : Disk) (f : CredentialsFile) (p : Profile)
    → IsSilent o
    → load_credentials_file disk ≡ some f
    → is_non_empty_string (some f.current_profile) ≡ true
    → normalize_profile_name f.current_profile ≡ f.current_profile
    → get f.current_profile f.profiles ≡ some p
    → is_non_empty_string (some p.token) ≡ true
    → ((resolve_auth o disk).api_key ≡ some p.token)
      × ((resolve_auth o disk).bearer_token ≡ none)
      × ((resolve_auth o disk).profile_name ≡ f.current_profile)
      × ((resolve_auth o disk).profile_source ≡ current)
      × ((resolve_auth o disk).token_source ≡ file)
unfolding resolve_auth
resolve_auth_of_current o disk f p s loaded named normal found tok =
    rw (loaded, requested-IsSilent o f s named, normal)
      (rw (select_profile_of_bound f.current_profile f (rw found))
        (rw found (rw (credential_of-IsSilent o p.token s tok) (refl, refl, refl, refl, refl))))

-- After a login that is not told to leave the current profile alone, `resolveAuth` returns the new
-- token as the API key, from the file, under the name of the new profile, provided that the token
-- is not blank and that neither flags, environment nor project name a profile or a key.
pub resolve_auth-upsert_profile :
    (o : AuthOptions) (u : Upsert) (now : Text) (disk : Disk)
    → IsSilent o
    → u.set_current ≢ some false
    → is_non_empty_string (some u.token) ≡ true
    → ((resolve_auth o (upsert_profile u now disk)).api_key ≡ some u.token)
      × ((resolve_auth o (upsert_profile u now disk)).bearer_token ≡ none)
      × ((resolve_auth o (upsert_profile u now disk)).profile_name
          ≡ normalize_profile_name u.profile_name)
      × ((resolve_auth o (upsert_profile u now disk)).profile_source ≡ current)
      × ((resolve_auth o (upsert_profile u now disk)).token_source ≡ file)
unfolding upsert_profile
resolve_auth-upsert_profile o u now disk s wanted tok =
    let name = normalize_profile_name u.profile_name in
    let f : CredentialsFile = record {
      current_profile = name;
      profiles = put name (upserted u now) (profiles_of (load_credentials_file disk));
    } in
    let set : should_set u.set_current ≡ true = ground arith in
    let n = normalize_profile_name-IsNamed u.profile_name in
    rw set (
      resolve_auth_of_current o (save_credentials_file f) f (upserted u now) s
        (load-save_of_IsNamed f n) (unfold is_non_empty_string in rw n)
        (normalize_profile_name_idem u.profile_name) (rw (get-put, text_eq_refl)) tok)
