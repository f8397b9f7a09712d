-- ===== src/Credentials/Effects.antt =====
-- What each operation does to the profiles that a later load shows.
use phala_cloud.Common.{
  Text, Bool, true, false, Option, none, some, List, [], ◌∷◌, ◌≡◌, refl, if◌then◌else◌, is_empty,
  text_eq, arith, ap, ◌∙◌, Bool-cases, inl, inr, subst, sym, All,
}
use phala_cloud.Common.Dict.{Dict, get, put, remove, keys, get-put, get-remove}
use phala_cloud.Common.Dict.Keys.{All-keys-remove}
use phala_cloud.Credentials.{
  Profile, CredentialsFile, Disk, missing, stored, normalize_profile_name, load_credentials_file,
  save_credentials_file, Upsert, or_text, should_set, current_of, profiles_of, upserted,
  upsert_profile, remove_from, remove_profile,
}
use phala_cloud.Credentials.Profiles.{
  IsNamed, IsSound, IsWellFormed, normalize_profile_name-IsNamed,
}

abbrev pub profile_at : Text → Disk → Option Profile
profile_at j disk = get j (profiles_of (load_credentials_file disk))

pub load-save_of_IsNamed :
    (f : CredentialsFile)
    → IsNamed f.current_profile
    → load_credentials_file (save_credentials_file f) ≡ some f
unfolding load_credentials_file save_credentials_file
load-save_of_IsNamed f n = rw n

-- A file that loads has a current profile that is not blank.
pub loaded-IsNamed :
    (disk : Disk) (f : CredentialsFile)
    → load_credentials_file disk ≡ some f
    → IsNamed f.current_profile
unfolding load_credentials_file
loaded-IsNamed (stored d) f e = ground arith
loaded-IsNamed _ f e = cc

or_text-IsNamed :
    (o : Option Text) (t : Text)
    → ((s : Text) → o ≡ some s → IsNamed s)
    → IsNamed t
    → IsNamed (or_text o t)
or_text-IsNamed none t h n = n
or_text-IsNamed (some s) t h n = elim (Bool-cases (is_empty s)) [
  | inl e ↦ rw e n
  | inr e ↦ rw e (h s refl)
]

current_of-IsNamed :
    (o : Option CredentialsFile)
    → ((f : CredentialsFile) → o ≡ some f → IsNamed f.current_profile)
    → (s : Text) → current_of o ≡ some s
    → IsNamed s
current_of-IsNamed none h s e = cc
current_of-IsNamed (some f) h s e = let same : f.current_profile ≡ s = cc in rw (← same) (h f refl)

pub if-IsNamed : (b : Bool) (s t : Text) → IsNamed s → IsNamed t → IsNamed (if b then s else t)
if-IsNamed true s t h k = h
if-IsNamed false s t h k = k

-- The file that `upsertProfile` leaves.
pub load-upsert_profile :
    (o : Upsert) (now : Text) (disk : Disk)
    → load_credentials_file (upsert_profile o now disk)
      ≡ some (record {
        current_profile =
            if should_set o.set_current
            then normalize_profile_name o.profile_name
            else or_text
                (current_of (load_credentials_file disk))
                (normalize_profile_name o.profile_name);
        profiles =
            put
              (normalize_profile_name o.profile_name)
              (upserted o now)
              (profiles_of (load_credentials_file disk));
      })
unfolding upsert_profile
load-upsert_profile o now disk =
    let name = normalize_profile_name o.profile_name in
    let n = normalize_profile_name-IsNamed o.profile_name in
    let current = load_credentials_file disk in
    load-save_of_IsNamed
      (record {
        current_profile =
            if should_set o.set_current then name else or_text (current_of current) name;
        profiles = put name (upserted o now) (profiles_of current);
      })
      (if-IsNamed (should_set o.set_current) name _ n
        (or_text-IsNamed _ name (current_of-IsNamed current (loaded-IsNamed disk)) n))

-- After `upsertProfile` the named profile is the one written and every other profile is as before,
-- whether or not the file could be loaded before.
pub profile_at-upsert_profile :
    (o : Upsert) (now j : Text) (disk : Disk)
    → profile_at j (upsert_profile o now disk) ≡ (
        if text_eq (normalize_profile_name o.profile_name) j
        then some (upserted o now)
        else profile_at j disk)
profile_at-upsert_profile o now j disk =
    ap (λ c. get j (profiles_of c)) (load-upsert_profile o now disk)
    ∙ get-put (normalize_profile_name o.profile_name) j (upserted o now)
        (profiles_of (load_credentials_file disk))

pub keys-eq-nil : (d : Dict Profile) (j : Text) → keys d ≡ [] → get j d ≡ none
unfolding get
keys-eq-nil [] j e = refl
keys-eq-nil ((k, p) ∷ d) j e = cc

-- The name that `removeProfile` leaves current is not blank.
kept_current-IsNamed :
    (f : CredentialsFile) (target k : Text) (ks : List Text)
    → IsWellFormed f
    → IsNamed f.current_profile
    → keys (remove target f.profiles) ≡ k ∷ ks
    → IsNamed (if text_eq f.current_profile target then k else f.current_profile)
kept_current-IsNamed f target k ks w n e =
    let names = All-keys-remove IsNamed target f.profiles w.names in
    let first = subst (λ l. All IsNamed l) e names in
    if-IsNamed (text_eq f.current_profile target) k _ first.0 n

abbrev remaining : Text → CredentialsFile → Text → Option Profile
remaining target f j = if text_eq target j then none else get j f.profiles

profile_at-remove_from :
    (target j : Text) (f : CredentialsFile) (disk : Disk)
    → IsWellFormed f
    → IsNamed f.current_profile
    → profile_at j (remove_from true target f disk) ≡ remaining target f j
unfolding remove_from
profile_at-remove_from target j f disk w n = go (keys (remove target f.profiles)) refl
  where
    go :
        (l : List Text)
        → keys (remove target f.profiles) ≡ l
        → profile_at j (elim l [
          | [] ↦ if true then missing else disk
          | k ∷ ks ↦ save_credentials_file (record {
            current_profile = if text_eq f.current_profile target then k else f.current_profile;
            profiles = remove target f.profiles;
          })
        ])
          ≡ remaining target f j
    go [] e =
        unfold load_credentials_file get in
        sym (keys-eq-nil (remove target f.profiles) j e) ∙ get-remove target j f.profiles
    go (k ∷ ks) e =
        ap (λ c. get j (profiles_of c))
          (load-save_of_IsNamed
            (record {
              current_profile = if text_eq f.current_profile target then k else f.current_profile;
              profiles = remove target f.profiles;
            })
            (kept_current-IsNamed f target k ks w n e))
        ∙ get-remove target j f.profiles

-- The profile that `removeProfile` takes out: the one named, or the current one.
abbrev pub target_of : Option Text → CredentialsFile → Text
target_of name f = normalize_profile_name (or_text name f.current_profile)

-- Where the file loads and is well formed and its deletion does not fail, `removeProfile` takes out
-- the named profile (the current one if no name is given) and leaves every other as it was.
pub profile_at-remove_profile :
    (name : Option Text) (j : Text) (disk : Disk) (f : CredentialsFile)
    → IsSound disk
    → load_credentials_file disk ≡ some f
    → profile_at j (remove_profile true name disk)
      ≡ (if text_eq (target_of name f) j then none else profile_at j disk)
unfolding remove_profile
profile_at-remove_profile name j disk f sound e =
    rw (e, remove_profile)
      (profile_at-remove_from (target_of name f) j f disk (sound f e) (loaded-IsNamed disk f e))
