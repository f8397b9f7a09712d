-- ===== src/Credentials/Profiles.antt =====
-- The operations on the credentials file: what they keep, and what they do to the profiles.
use phala_cloud.Common.{
  Text, Bool, true, false, Option, none, some, List, [], ◌∷◌, ◌≡◌, refl, if◌then◌else◌, is_empty,
  trim, text_eq, text_eq_iff, text_eq_refl, is_some, is_space, arith, All, Bool-cases, Option-cases,
  inl, inr, ◌∙◌, subst,
}
use phala_cloud.Common.Dict.{Dict, get, put, remove, keys, get-put, get-remove, get-head}
use phala_cloud.Common.Dict.Keys.{All-keys-put, All-keys-remove, All-keys-get}
use phala_cloud.Common.Blank.{is_empty-trim-trim}
use phala_cloud.Credentials.{
  Profile, CredentialsFile, Disk, missing, normalize_profile_name, load_credentials_file,
  save_credentials_file, Outcome, done, threw, unshaped, is_inherited, has_profile, Upsert, or_text,
  should_set, current_of, profiles_of, upserted, upsert_profile, remove_from, remove_profile,
  rename_in, rename_profile, switch_in, switch_profile,
}

-- A name that is not blank.
abbrev pub IsNamed : Text → Type 0
IsNamed k = is_empty (trim k) ≡ false

pub record IsWellFormed (f : CredentialsFile) : Type 0 where
  pub bound : is_some (get f.current_profile f.profiles) ≡ true
  pub names : All IsNamed (keys f.profiles)

-- What the file holds, if it can be loaded at all, is well formed.
abbrev pub IsSound : Disk → Type 0
IsSound disk = (f : CredentialsFile) → load_credentials_file disk ≡ some f → IsWellFormed f

pub normalize_profile_name-IsNamed : (name : Text) → IsNamed (normalize_profile_name name)
unfolding normalize_profile_name trim is_space
normalize_profile_name-IsNamed name = elim (Bool-cases (is_empty (trim name))) [
  | inl e ↦ rw e refl
  | inr e ↦ rw e (is_empty-trim-trim name ∙ e)
]

current-IsNamed : (f : CredentialsFile) → IsWellFormed f → IsNamed f.current_profile
current-IsNamed f w = All-keys-get IsNamed f.current_profile f.profiles w.names w.bound

-- A well-formed file is read back as it was saved.
pub load-save :
    (f : CredentialsFile)
    → IsWellFormed f
    → load_credentials_file (save_credentials_file f) ≡ some f
unfolding load_credentials_file save_credentials_file
load-save f w = rw (current-IsNamed f w)

save-IsSound : (f : CredentialsFile) → IsWellFormed f → IsSound (save_credentials_file f)
save-IsSound f w g e = let same : f ≡ g = cc (load-save f w) in subst IsWellFormed same w

is_some-get-put :
    (k c : Text) (p : Profile) (d : Dict Profile)
    → is_some (get c d) ≡ true
    → is_some (get c (put k p d)) ≡ true
is_some-get-put k c p d h = ground (arith, get-put k c p d)

is_some-get-put_self :
    (k : Text) (p : Profile) (d : Dict Profile) → is_some (get k (put k p d)) ≡ true
is_some-get-put_self k p d = ground (arith, get-put k k p d, text_eq_refl k)

names_of :
    (disk : Disk) → IsSound disk → All IsNamed (keys (profiles_of (load_credentials_file disk)))
names_of disk sound = elim (Option-cases (load_credentials_file disk)) [
  | inl e ↦ rw e tt
  | inr (f, e) ↦ rw e (sound f e).names
]

-- The name that stays current is bound after the write.
upsert_current :
    (disk : Disk) (b : Option Bool) (k : Text) (p : Profile)
    → IsSound disk
    → is_some (
        get
          (if should_set b then k else or_text (current_of (load_credentials_file disk)) k)
          (put k p (profiles_of (load_credentials_file disk))))
      ≡ true
upsert_current disk b k p sound = elim (Option-cases (load_credentials_file disk)) [
  | inl e ↦ rw e (ground (arith, is_some-get-put_self k p []))
  | inr (f, e) ↦ rw e (
      ground (
        arith,
        is_some-get-put_self k p f.profiles,
        is_some-get-put k f.current_profile p f.profiles (sound f e).bound,
      ))
]

pub upsert_profile-IsSound :
    (o : Upsert) (now : Text) (disk : Disk) → IsSound disk → IsSound (upsert_profile o now disk)
unfolding upsert_profile
upsert_profile-IsSound o now disk sound =
    let name = normalize_profile_name o.profile_name in
    save-IsSound _ (record {
      bound = upsert_current disk o.set_current name (upserted o now) sound;
      names =
          All-keys-put IsNamed name (upserted o now) _
            (normalize_profile_name-IsNamed o.profile_name) (names_of disk sound);
    })

-- The first of the remaining keys is bound.
first_bound :
    (d : Dict Profile) (k : Text) (ks : List Text) → keys d ≡ k ∷ ks → is_some (get k d) ≡ true
first_bound [] k ks e = cc
first_bound ((j, p) ∷ d) k ks e =
    let same : j ≡ k = cc e in rw (← same) (ground (arith, get-head j p d))

unlinked-IsSound :
    (unlinks : Bool) (disk : Disk) → IsSound disk → IsSound (if unlinks then missing else disk)
unfolding load_credentials_file
unlinked-IsSound true disk sound = λ f e. cc
unlinked-IsSound false disk sound = sound

remove_from-IsSound :
    (unlinks : Bool) (target : Text) (f : CredentialsFile) (disk : Disk)
    → IsWellFormed f
    → IsSound disk
    → IsSound (remove_from unlinks target f disk)
unfolding remove_from
remove_from-IsSound unlinks target f disk w sound = go (keys (remove target f.profiles)) refl
  where
    go :
        (ks : List Text)
        → keys (remove target f.profiles) ≡ ks
        → IsSound (elim ks [
          | [] ↦ if unlinks then missing else disk
          | k ∷ ks ↦ save_credentials_file (record {
            current_profile = if text_eq f.current_profile target then k else f.current_profile;
            profiles = remove target f.profiles;
          })
        ])
    go [] e = unlinked-IsSound unlinks disk sound
    go (k ∷ ks) e = save-IsSound _ (record {
      bound = ground (
        arith,
        w.bound,
        first_bound (remove target f.profiles) k ks e,
        get-remove target f.current_profile f.profiles,
        text_eq_iff f.current_profile target,
        text_eq_iff target f.current_profile,
      );
      names = All-keys-remove IsNamed target f.profiles w.names;
    })

pub remove_profile-IsSound :
    (unlinks : Bool) (name : Option Text) (disk : Disk)
    → IsSound disk
    → IsSound (remove_profile unlinks name disk)
unfolding remove_profile
remove_profile-IsSound unlinks name disk sound = elim (Option-cases (load_credentials_file disk)) [
  | inl e ↦ rw (e, remove_profile) sound
  | inr (f, e) ↦ rw (e, remove_profile) (remove_from-IsSound unlinks _ f disk (sound f e) sound)
]

-- A profile is there exactly where it is one of the file, for a name that no object has by itself.
pub has_profile-own :
    (name : Text) (d : Dict Profile)
    → is_inherited name ≡ false
    → has_profile name d ≡ is_some (get name d)
unfolding has_profile
has_profile-own name d h = ground (arith, h)

-- What an operation that may throw leaves on disk. A file with a profile that has not the declared shape
-- is outside of the model, and is taken for one not written.
abbrev pub disk_after : Disk → Outcome → Disk
disk_after disk unshaped = disk
disk_after disk (done disk') = disk'
disk_after disk (threw e) = disk

rename_in-IsSound :
    (old new : Text) (f : CredentialsFile) (o : Option Profile) (disk : Disk)
    → IsNamed new
    → is_inherited old ≡ false
    → is_inherited new ≡ false
    → o ≡ get old f.profiles
    → IsWellFormed f
    → IsSound disk
    → IsSound (disk_after disk (rename_in old new f o))
unfolding rename_in
rename_in-IsSound old new f none disk n io ip e w sound = rw (io, rename_in) sound
rename_in-IsSound old new f (some p) disk n io ip e w sound =
    elim (Bool-cases (is_some (get new f.profiles))) [
      | inl taken ↦ rw (has_profile-own new f.profiles ip, taken, rename_in) sound
      | inr free ↦
          rw (has_profile-own new f.profiles ip, free, rename_in)
            (save-IsSound _ (record {
              bound = ground (
                arith,
                w.bound,
                get-remove old (if text_eq f.current_profile old then new else f.current_profile)
                    (put new p f.profiles),
                get-put new new p f.profiles,
                get-put new f.current_profile p f.profiles,
                text_eq_refl new,
                text_eq_iff f.current_profile old,
                text_eq_iff old f.current_profile,
                text_eq_iff old new,
              );
              names =
                  All-keys-remove IsNamed old (put new p f.profiles)
                    (All-keys-put IsNamed new p f.profiles n w.names);
            }))
    ]

pub rename_profile-IsSound :
    (old new : Text) (disk : Disk)
    → is_inherited (normalize_profile_name old) ≡ false
    → is_inherited (normalize_profile_name new) ≡ false
    → IsSound disk
    → IsSound (disk_after disk (rename_profile old new disk))
unfolding rename_profile
rename_profile-IsSound old new disk io ip sound = elim (Option-cases (load_credentials_file disk)) [
  | inl e ↦ rw (e, rename_profile) sound
  | inr (f, e) ↦
      rw (e, rename_profile)
        (rename_in-IsSound _ _ f _ disk (normalize_profile_name-IsNamed new) io ip refl (sound f e)
          sound)
]

switch_in-IsSound :
    (name : Text) (f : CredentialsFile) (disk : Disk)
    → is_inherited name ≡ false
    → IsWellFormed f
    → IsSound disk
    → IsSound (disk_after disk (switch_in name f disk))
unfolding switch_in
switch_in-IsSound name f disk i w sound = elim (Bool-cases (is_some (get name f.profiles))) [
  | inr absent ↦ rw (has_profile-own name f.profiles i, absent, switch_in) sound
  | inl there ↦ elim (Bool-cases (text_eq f.current_profile name)) [
    | inl same ↦ rw (has_profile-own name f.profiles i, there, same, switch_in) sound
    | inr other ↦
        rw (has_profile-own name f.profiles i, there, other, switch_in)
          (save-IsSound _ (record { bound = there; names = w.names }))
  ]
]

pub switch_profile-IsSound :
    (name : Text) (disk : Disk)
    → is_inherited (normalize_profile_name name) ≡ false
    → IsSound disk
    → IsSound (disk_after disk (switch_profile name disk))
unfolding switch_profile
switch_profile-IsSound name disk i sound = elim (Option-cases (load_credentials_file disk)) [
  | inl e ↦ rw (e, switch_profile) sound
  | inr (f, e) ↦ rw (e, switch_profile) (switch_in-IsSound _ f disk i (sound f e) sound)
]
