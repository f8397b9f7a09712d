-- ===== src/Credentials/Spec.antt =====
-- The credentials file seen as a map from names to profiles with a current name, and what each
-- operation may do to it: an account of credentials.ts without the file, its order or its errors.
use phala_cloud.Common.{
  Text, Bool, true, false, not, ◌&&◌, Option, none, some, List, [], ◌∷◌, ◌≡◌, if◌then◌else◌,
  is_some, text_eq, ◌⊎◌,
}
use phala_cloud.Common.Dict.{get}
use phala_cloud.Credentials.{
  Profile, CredentialsFile, Disk, normalize_profile_name, load_credentials_file, or_text,
  should_set, current_of, profiles_of, upserted,
}
use phala_cloud.Credentials.History.{Operation, upsert, remove, rename, switch}

pub record View : Type 0 where
  pub current : Option Text
  pub profile : Text → Option Profile

abbrev pub seen : Option CredentialsFile → View
seen o = record { current = current_of o; profile = λ j. get j (profiles_of o) }

-- What `loadCredentialsFile` shows of a disk.
abbrev pub view : Disk → View
view disk = seen (load_credentials_file disk)

abbrev pub without : Option Text → Option Text → View → Text → Option Profile
without none name v j = v.profile j
without (some c) name v j =
    if text_eq (normalize_profile_name (or_text name c)) j then none else v.profile j

abbrev pub moved : Text → Text → Option Profile → Bool → View → Text → Option Profile
moved old new none taken v j = v.profile j
moved old new (some p) taken v j =
    if taken
    then v.profile j
    else if text_eq old j
    then none
    else if text_eq new j
    then some p
    else v.profile j

-- The profiles that there are after an operation.
abbrev pub profile_after : Operation → View → Text → Option Profile
profile_after (upsert o now) v j =
    if text_eq (normalize_profile_name o.profile_name) j then some (upserted o now) else v.profile j
profile_after (remove unlinks name) v j = without v.current name v j
profile_after (rename old new) v j =
    moved (normalize_profile_name old) (normalize_profile_name new)
      (v.profile (normalize_profile_name old)) (is_some (v.profile (normalize_profile_name new))) v
      j
profile_after (switch name) v j = v.profile j

abbrev pub or_name : Option Text → Text → Text
or_name none t = t
or_name (some s) t = s

abbrev pub is_target : Option Text → Option Text → Bool
is_target none name = false
is_target (some c) name = text_eq c (normalize_profile_name (or_text name c))

abbrev pub is_name : Option Text → Text → Bool
is_name none t = false
is_name (some s) t = text_eq s t

-- The name that is current after an operation; any may be when the current profile is removed.
abbrev pub IsCurrentAfter : Operation → View → Option Text → Type 0
IsCurrentAfter (upsert o now) v c =
    c
    ≡ some (
        if should_set o.set_current
        then normalize_profile_name o.profile_name
        else or_name v.current (normalize_profile_name o.profile_name))
IsCurrentAfter (remove unlinks name) v c = (is_target v.current name ≡ true) ⊎ (c ≡ v.current)
IsCurrentAfter (rename old new) v c = c ≡ (
    if is_some (v.profile (normalize_profile_name old))
      && not (is_some (v.profile (normalize_profile_name new)))
      && is_name v.current (normalize_profile_name old)
    then some (normalize_profile_name new)
    else v.current)
IsCurrentAfter (switch name) v c = c ≡ (
    if is_some (v.profile (normalize_profile_name name))
    then some (normalize_profile_name name)
    else v.current)

-- What the specification lets an operation do to a view.
pub record IsStep (op : Operation) (v w : View) : Type 0 where
  pub profiles : (j : Text) → w.profile j ≡ profile_after op v j
  pub current : IsCurrentAfter op v w.current

-- The steps of some operations, one after the other.
pub data IsRun : List Operation → View → View → Type 0 where
  stop : {v : View} → IsRun [] v v
  next :
      {op : Operation} {ops : List Operation} {v w x : View}
      → IsStep op v w
      → IsRun ops w x
      → IsRun (op ∷ ops) v x

-- The deletion of the file, where an operation gets to it, succeeds.
abbrev pub unlinks : Operation → Bool
unlinks (remove b name) = b
unlinks _ = true
