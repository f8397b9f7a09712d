-- ===== src/Credentials/Refines.antt =====
-- That credentials.ts does what its specification allows.
use phala_cloud.Common.{
  Text, true, false, Option, none, some, List, [], ◌∷◌, ◌≡◌, refl, if◌then◌else◌, is_some, is_empty,
  trim, trim_start, trim_end, text_eq, arith, ap, ◌∙◌, Bool-cases, Option-cases, inl, inr, sym, All,
  text_eq_iff,
}
use phala_cloud.Common.Dict
use phala_cloud.Common.Dict.{get, put, keys, get-put, get-remove}
use phala_cloud.Credentials.{
  CredentialsFile, Disk, missing, normalize_profile_name, load_credentials_file,
  save_credentials_file, Upsert, or_text, should_set, current_of, profiles_of, upsert_profile,
  remove_from, remove_profile, rename_in, rename_profile, switch_in, switch_profile, is_inherited,
}
use phala_cloud.Credentials.Profiles.{
  has_profile-own, IsNamed, IsWellFormed, IsSound, disk_after, normalize_profile_name-IsNamed,
}
use phala_cloud.Credentials.Effects.{
  load-save_of_IsNamed, loaded-IsNamed, load-upsert_profile, profile_at-upsert_profile,
  profile_at-remove_profile, target_of, if-IsNamed, keys-eq-nil,
}
use phala_cloud.Credentials.History.{
  IsOwnNamed, Operation, upsert, remove, rename, switch, perform, perform_all, perform-IsSound,
}
use phala_cloud.Credentials.Spec.{
  seen, view, IsCurrentAfter, IsStep, IsRun, stop, next, unlinks, or_name,
}

is_empty-IsNamed : (t : Text) → IsNamed t → is_empty t ≡ false
unfolding trim trim_start trim_end
is_empty-IsNamed [] h = cc
is_empty-IsNamed (c ∷ s) h = refl

current_of-loaded :
    (disk : Disk) (t : Text)
    → or_text (current_of (load_credentials_file disk)) t
      ≡ or_name (current_of (load_credentials_file disk)) t
current_of-loaded disk t = elim (Option-cases (load_credentials_file disk)) [
  | inl e ↦ rw e refl
  | inr (f, e) ↦ rw e (rw (is_empty-IsNamed f.current_profile (loaded-IsNamed disk f e)) refl)
]

upsert_current :
    (o : Upsert) (now : Text) (disk : Disk)
    → IsCurrentAfter (upsert o now) (view disk) (view (upsert_profile o now disk)).current
upsert_current o now disk =
    let name = normalize_profile_name o.profile_name in
    ap current_of (load-upsert_profile o now disk)
    ∙ ap (λ (c : Text). some (if should_set o.set_current then name else c))
        (current_of-loaded disk name)

upsert_profile-IsStep :
    (o : Upsert) (now : Text) (disk : Disk)
    → IsStep (upsert o now) (view disk) (view (upsert_profile o now disk))
upsert_profile-IsStep o now disk = record {
  profiles = λ j. profile_at-upsert_profile o now j disk;
  current = upsert_current o now disk;
}

switch_in_load :
    (n : Text) (f : CredentialsFile) (disk : Disk)
    → load_credentials_file disk ≡ some f
    → IsNamed n
    → is_inherited n ≡ false
    → load_credentials_file (disk_after disk (switch_in n f disk))
      ≡ some (if is_some (get n f.profiles) then record f { current_profile = n } else f)
unfolding switch_in
switch_in_load n f disk e named i = elim (Option-cases (get n f.profiles)) [
  | inl g ↦ rw (has_profile-own n f.profiles i) (rw g e)
  | inr (p, g) ↦ elim (Bool-cases (text_eq f.current_profile n)) [
    | inl s ↦
        let same = (text_eq_iff f.current_profile n).0 s in
        rw (has_profile-own n f.profiles i)
          (rw g (rw s (e ∙ ap (λ (c : Text). some (record f { current_profile = c })) same)))
    | inr s ↦
        rw (has_profile-own n f.profiles i)
          (rw g (rw s (load-save_of_IsNamed (record f { current_profile = n }) named)))
  ]
]

switch_profile-IsStep :
    (name : Text) (disk : Disk)
    → is_inherited (normalize_profile_name name) ≡ false
    → IsStep (switch name) (view disk) (view (disk_after disk (switch_profile name disk)))
unfolding switch_profile get
switch_profile-IsStep name disk i = elim (Option-cases (load_credentials_file disk)) [
  | inl e ↦ rw (e, switch_profile) (rw e (record { profiles = λ j. refl; current = refl }))
  | inr (f, e) ↦
      let n = normalize_profile_name name in
      let after = switch_in_load n f disk e (normalize_profile_name-IsNamed name) i in
      rw (e, switch_profile)
        (rw after (elim (Bool-cases (is_some (get n f.profiles))) [
          | inl b ↦ rw b (record { profiles = λ j. refl; current = rw b refl })
          | inr b ↦ rw b (record { profiles = λ j. refl; current = rw b refl })
        ]))
]

rename_in-IsStep :
    (old new : Text) (f : CredentialsFile) (disk : Disk)
    → load_credentials_file disk ≡ some f
    → is_inherited (normalize_profile_name old) ≡ false
    → is_inherited (normalize_profile_name new) ≡ false
    → IsStep (rename old new) (seen (some f)) (
        seen (
          load_credentials_file (
            disk_after disk (
              rename_in
                (normalize_profile_name old)
                (normalize_profile_name new)
                f
                (get (normalize_profile_name old) f.profiles)))))
unfolding rename_in
rename_in-IsStep old new f disk e io ip =
    let o = normalize_profile_name old in
    let n = normalize_profile_name new in
    elim (Option-cases (get o f.profiles)) [
      | inl g ↦ rw g (rw io (rw e (record { profiles = λ j. rw g refl; current = rw g refl })))
      | inr (p, g) ↦ elim (Option-cases (get n f.profiles)) [
        | inr (q, h) ↦ rw g (
            rw (has_profile-own n f.profiles ip) (
              rw h
                (rw e (record { profiles = λ j. rw g (rw h refl); current = rw g (rw h refl) }))))
        | inl h ↦
            let reload =
              load-save_of_IsNamed
                (record {
                  current_profile = if text_eq f.current_profile o then n else f.current_profile;
                  profiles = Dict.remove o (put n p f.profiles);
                })
                (if-IsNamed (text_eq f.current_profile o) n _ (normalize_profile_name-IsNamed new)
                  (loaded-IsNamed disk f e)) in
            rw g (
              rw (has_profile-own n f.profiles ip) (
                rw h (
                  rw reload (record {
                    profiles = λ j. rw g (
                        rw h (
                          rw get-remove (
                            ap (λ r. if text_eq o j then none else r) (get-put n j p f.profiles))));
                    current = rw g (
                        rw h (elim (Bool-cases (text_eq f.current_profile o)) [
                          | inl b ↦ rw b refl
                          | inr b ↦ rw b refl
                        ]));
                  }))))
      ]
    ]

rename_profile-IsStep :
    (old new : Text) (disk : Disk)
    → is_inherited (normalize_profile_name old) ≡ false
    → is_inherited (normalize_profile_name new) ≡ false
    → IsStep (rename old new) (view disk) (view (disk_after disk (rename_profile old new disk)))
unfolding rename_profile get
rename_profile-IsStep old new disk io ip = elim (Option-cases (load_credentials_file disk)) [
  | inl e ↦ rw (e, rename_profile) (rw e (record { profiles = λ j. refl; current = refl }))
  | inr (f, e) ↦ rw (e, rename_profile) (rename_in-IsStep old new f disk e io ip)
]

-- Unless the current profile is the one removed, it stays.
remove_from_current :
    (target : Text) (f : CredentialsFile) (disk : Disk)
    → IsWellFormed f
    → text_eq f.current_profile target ≡ false
    → IsNamed f.current_profile
    → current_of (load_credentials_file (remove_from true target f disk)) ≡ some f.current_profile
unfolding remove_from
remove_from_current target f disk w d n = go (keys (Dict.remove target f.profiles)) refl
  where
    go :
        (l : List Text)
        → keys (Dict.remove target f.profiles) ≡ l
        → current_of (
            load_credentials_file (elim l [
              | [] ↦ if true then missing else disk
              | k ∷ ks ↦ save_credentials_file (record {
                current_profile = if text_eq f.current_profile target then k else f.current_profile;
                profiles = Dict.remove target f.profiles;
              })
            ]))
          ≡ some f.current_profile
    go [] e =
        let c = f.current_profile in
        let other : text_eq target c ≡ false =
          ground (arith, text_eq_iff target c, text_eq_iff c target) in
        let kept : get c (Dict.remove target f.profiles) ≡ get c f.profiles =
          get-remove target c f.profiles ∙ rw other refl in
        let gone : get c f.profiles ≡ none =
          sym kept ∙ keys-eq-nil (Dict.remove target f.profiles) c e in
        let bad : false ≡ true = ap is_some (sym gone) ∙ w.bound in absurd (cc bad)
    go (k ∷ ks) e =
        let g : CredentialsFile = record {
          current_profile = f.current_profile;
          profiles = Dict.remove target f.profiles;
        } in
        rw d (rw (load-save_of_IsNamed g n) refl)

remove_profile-IsStep :
    (name : Option Text) (disk : Disk)
    → IsSound disk
    → IsStep (remove true name) (view disk) (view (remove_profile true name disk))
unfolding remove_profile get
remove_profile-IsStep name disk s = elim (Option-cases (load_credentials_file disk)) [
  | inl e ↦ rw (e, remove_profile) (rw e (record { profiles = λ j. refl; current = inr refl }))
  | inr (f, e) ↦
      let target = target_of name f in
      record {
        profiles = λ j. rw e (
            profile_at-remove_profile name j disk f s e
            ∙ ap (λ o. if text_eq target j then none else get j (profiles_of o)) e);
        current =
            rw (e, remove_profile)
              (elim (Bool-cases (text_eq f.current_profile target)) [
                | inl b ↦ inl b
                | inr b ↦
                    inr (remove_from_current target f disk (s f e) b (loaded-IsNamed disk f e))
              ]);
      }
]

-- A step of the code is a step of the specification.
perform-IsStep :
    (op : Operation) (disk : Disk)
    → unlinks op ≡ true
    → IsOwnNamed op
    → IsSound disk
    → IsStep op (view disk) (view (perform op disk))
perform-IsStep (upsert o now) disk u i s = upsert_profile-IsStep o now disk
perform-IsStep (remove true name) disk u i s = remove_profile-IsStep name disk s
perform-IsStep (remove false name) disk u i s = cc
perform-IsStep (rename old new) disk u i s = rename_profile-IsStep old new disk i.0 i.1
perform-IsStep (switch name) disk u i s = switch_profile-IsStep name disk i

-- Any operations on a sound disk, failing ones included, are a run of the specification on what is
-- loaded from it, where each deletion of the file succeeds and no name that is renamed or switched to is
-- a member of Object.prototype such as "constructor".
pub perform_all-IsRun :
    (ops : List Operation) (disk : Disk)
    → All (λ op. unlinks op ≡ true) ops
    → All IsOwnNamed ops
    → IsSound disk
    → IsRun ops (view disk) (view (perform_all ops disk))
perform_all-IsRun [] disk u i s = stop
perform_all-IsRun (op ∷ ops) disk (u, us) (i, is) s =
    next (perform-IsStep op disk u i s)
      (perform_all-IsRun ops (perform op disk) us is (perform-IsSound op disk i s))
