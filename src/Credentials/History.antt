-- ===== src/Credentials/History.antt =====
-- Any sequence of the operations on the credentials file, from any sound state of the disk.
use phala_cloud.Common.{Text, Bool, Option, List, [], ◌∷◌, ◌≡◌, false, All}
use phala_cloud.Credentials.{
  Disk, missing, load_credentials_file, Upsert, upsert_profile, remove_profile, rename_profile,
  switch_profile, is_inherited, normalize_profile_name,
}
use phala_cloud.Credentials.Profiles.{
  IsSound, disk_after, upsert_profile-IsSound, remove_profile-IsSound, rename_profile-IsSound,
  switch_profile-IsSound,
}

pub data Operation : Type 0 where
  upsert : Upsert → Text → Operation
  remove : Bool → Option Text → Operation
  rename : Text → Text → Operation
  switch : Text → Operation

-- The names that an operation looks up are none that every object has by itself.
abbrev pub IsOwnNamed : Operation → Type 0
IsOwnNamed (rename old new) =
    (is_inherited (normalize_profile_name old) ≡ false)
    × (is_inherited (normalize_profile_name new) ≡ false)
IsOwnNamed (switch name) = is_inherited (normalize_profile_name name) ≡ false
IsOwnNamed _ = Unit

abbrev pub perform : Operation → Disk → Disk
perform (upsert o now) disk = upsert_profile o now disk
perform (remove unlinks name) disk = remove_profile unlinks name disk
perform (rename old new) disk = disk_after disk (rename_profile old new disk)
perform (switch name) disk = disk_after disk (switch_profile name disk)

abbrev pub perform_all : List Operation → Disk → Disk
perform_all [] disk = disk
perform_all (op ∷ ops) disk = perform_all ops (perform op disk)

pub perform-IsSound :
    (op : Operation) (disk : Disk) → IsOwnNamed op → IsSound disk → IsSound (perform op disk)
perform-IsSound (upsert o now) disk i s = upsert_profile-IsSound o now disk s
perform-IsSound (remove unlinks name) disk i s = remove_profile-IsSound unlinks name disk s
perform-IsSound (rename old new) disk i s = rename_profile-IsSound old new disk i.0 i.1 s
perform-IsSound (switch name) disk i s = switch_profile-IsSound name disk i s

-- From a disk whose credentials file, if it loads, has a current profile that exists and no blank
-- profile name, any operations, failing ones included, lead to such a disk, if no name that is renamed
-- or switched to is a member of Object.prototype such as "constructor".
pub perform_all-IsSound :
    (ops : List Operation) (disk : Disk)
    → All IsOwnNamed ops
    → IsSound disk
    → IsSound (perform_all ops disk)
perform_all-IsSound [] disk i s = s
perform_all-IsSound (op ∷ ops) disk (i, is) s =
    perform_all-IsSound ops (perform op disk) is (perform-IsSound op disk i s)

pub missing-IsSound : IsSound missing
unfolding load_credentials_file
missing-IsSound f e = cc
