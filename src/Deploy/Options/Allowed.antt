-- ===== src/Deploy/Options/Allowed.antt =====
-- Which options runDeploy goes on with.
use phala_cloud.Common.{
  Text, lit, Bool, true, false, not, ◌&&◌, Option, none, some, List, [], ◌∷◌, ◌++◌, if◌then◌else◌,
  All, ◌≡◌, ◌↔◌, refl, inl, inr, Bool-cases,
}
use phala_cloud.Deploy.Options.{
  Options, Flag, OptionError, both_pre_launch, clear_with_init, cannot_be_changed,
  cannot_be_used_with_app_compose, create_only_flags, compose_shaping_flags, update_only_flags,
  is_given, is_on, given_flags, refuse, refuse_first, ignored_flags, else_check,
  validate_pre_launch_script_options, assert_updatable_options, assert_create_options,
  check_options,
}

-- No option of a table is given.
abbrev pub NoneGiven : List Flag → Options → Type 0
NoneGiven flags o = All (λ (f : Flag). is_given f.0 o ≡ false) flags

-- Two options that exclude each other are not both there.
abbrev pub AreApart : Bool → Bool → Type 0
AreApart a b = (a && b) ≡ false

abbrev pub IsUpdatable : Options → Type 0
IsUpdatable o =
    NoneGiven create_only_flags o
    × AreApart (is_on (lit "clearInitScripts") o) (is_given (lit "initScript") o)

abbrev pub IsCreatable : Options → Type 0
IsCreatable o =
    NoneGiven update_only_flags o
    × (is_given (lit "appCompose") o ≡ true
        → NoneGiven compose_shaping_flags o × (is_on (lit "noPreLaunchScript") o ≡ false))

abbrev pub IsAllowedFor : Bool → Options → Type 0
IsAllowedFor true o = IsUpdatable o
IsAllowedFor false o = IsCreatable o

true_ne_false : (b : Bool) → b ≡ true → b ≡ false → ⊥
true_ne_false true h k = cc k
true_ne_false false h k = cc h

given_flags-nil : (flags : List Flag) (o : Options) → (given_flags flags o ≡ []) ↔ NoneGiven flags o
unfolding given_flags
given_flags-nil [] o = ((λ h. tt), (λ h. refl))
given_flags-nil ((key, flag) ∷ flags) o = elim (Bool-cases (is_given key o)) [
  | inl e ↦ (
    (λ h. let bad = rw e at h in absurd (cc bad)),
    (λ h. absurd (true_ne_false (is_given key o) e h.0)),
  )
  | inr e ↦
      let rest = given_flags-nil flags o in
      ((λ h. (e, rest.0 (let g = rw e at h in g))), (λ h. rw e (rest.1 h.1)))
]

refuse-none :
    (error : List Text → OptionError) (flags : List Text) (next : Option OptionError)
    → (refuse error flags next ≡ none) ↔ ((flags ≡ []) × (next ≡ none))
refuse-none error [] next = ((λ h. (refl, h)), (λ h. h.1))
refuse-none error (flag ∷ flags) next =
    ((λ h. absurd (cc h)), (λ h. let bad = h.0 in absurd (cc bad)))

refuse_first-none :
    (flags : List Text) (next : Option OptionError)
    → (refuse_first flags next ≡ none) ↔ ((flags ≡ []) × (next ≡ none))
refuse_first-none [] next = ((λ h. (refl, h)), (λ h. h.1))
refuse_first-none (flag ∷ flags) next =
    ((λ h. absurd (cc h)), (λ h. let bad = h.0 in absurd (cc bad)))

some_if-none : (b : Bool) (e : OptionError) → ((if b then some e else none) ≡ none) ↔ (b ≡ false)
some_if-none true e = ((λ h. absurd (cc h)), (λ h. absurd (cc h)))
some_if-none false e = ((λ h. refl), (λ h. refl))

else_check-none :
    (first next : Option OptionError)
    → (else_check first next ≡ none) ↔ ((first ≡ none) × (next ≡ none))
else_check-none none next = ((λ h. (refl, h)), (λ h. h.1))
else_check-none (some e) next = ((λ h. absurd (cc h)), (λ h. let bad = h.0 in absurd (cc bad)))

append_if-nil :
    (flags : List Text) (b : Bool) (flag : Text)
    → (flags ++ (if b then flag ∷ [] else []) ≡ []) ↔ ((flags ≡ []) × (b ≡ false))
append_if-nil [] true flag = ((λ h. absurd (cc h)), (λ h. let bad = h.1 in absurd (cc bad)))
append_if-nil [] false flag = ((λ h. (refl, refl)), (λ h. refl))
append_if-nil (f ∷ fs) b flag = ((λ h. absurd (cc h)), (λ h. let bad = h.0 in absurd (cc bad)))

ignored_flags-nil :
    (o : Options)
    → (ignored_flags o ≡ [])
      ↔ (NoneGiven compose_shaping_flags o × (is_on (lit "noPreLaunchScript") o ≡ false))
unfolding ignored_flags
ignored_flags-nil o =
    let split =
      append_if-nil (given_flags compose_shaping_flags o) (is_on (lit "noPreLaunchScript") o)
        (lit "--no-pre-launch-script") in
    let none_given = given_flags-nil compose_shaping_flags o in
    ((λ h. (none_given.0 (split.0 h).0, (split.0 h).1)), (λ h. split.1 (none_given.1 h.0, h.1)))

app_compose-none :
    (o : Options) (given : Bool)
    → ((if not given then none else refuse cannot_be_used_with_app_compose (ignored_flags o) none)
        ≡ none)
      ↔ (given ≡ true
          → NoneGiven compose_shaping_flags o × (is_on (lit "noPreLaunchScript") o ≡ false))
app_compose-none o false = ((λ h k. absurd (cc k)), (λ h. refl))
app_compose-none o true =
    let split = refuse-none cannot_be_used_with_app_compose (ignored_flags o) none in
    let ignored = ignored_flags-nil o in
    ((λ h k. ignored.0 (split.0 h).0), (λ h. split.1 (ignored.1 (h refl), refl)))

assert_updatable_options-none : (o : Options) → (assert_updatable_options o ≡ none) ↔ IsUpdatable o
unfolding assert_updatable_options
assert_updatable_options-none o =
    let both = is_on (lit "clearInitScripts") o && is_given (lit "initScript") o in
    let split =
      refuse-none cannot_be_changed (given_flags create_only_flags o)
        (if both then some clear_with_init else none) in
    let none_given = given_flags-nil create_only_flags o in
    let off = some_if-none both clear_with_init in
    (
      (λ h. (none_given.0 (split.0 h).0, off.0 (split.0 h).1)),
      (λ h. split.1 (none_given.1 h.0, off.1 h.1)),
    )

assert_create_options-none : (o : Options) → (assert_create_options o ≡ none) ↔ IsCreatable o
unfolding assert_create_options
assert_create_options-none o =
    let given = is_given (lit "appCompose") o in
    let split =
      refuse_first-none (given_flags update_only_flags o) (
        if not given
        then none
        else refuse cannot_be_used_with_app_compose (ignored_flags o) none) in
    let none_given = given_flags-nil update_only_flags o in
    let whole = app_compose-none o given in
    (
      (λ h. (none_given.0 (split.0 h).0, whole.0 (split.0 h).1)),
      (λ h. split.1 (none_given.1 h.0, whole.1 h.1)),
    )

assert-none :
    (has_cvm : Bool) (o : Options)
    → ((if has_cvm then assert_updatable_options o else assert_create_options o) ≡ none)
      ↔ IsAllowedFor has_cvm o
assert-none true o = assert_updatable_options-none o
assert-none false o = assert_create_options-none o

-- The checks at the start of runDeploy let options through exactly where --no-pre-launch-script is not
-- set when --pre-launch-script is given and, on an update, no option of CREATE_ONLY_FLAGS is given and
-- --clear-init-scripts is not set when --init-script is given; or, on a new CVM, none of
-- --confirm-data-wipe, --launch-token-hash and --clear-init-scripts is given and, with --app-compose,
-- no option of COMPOSE_SHAPING_FLAGS is given and --no-pre-launch-script is not set.
pub check_options-none_iff :
    (has_cvm : Bool) (o : Options)
    → (check_options has_cvm o ≡ none) ↔ (
        AreApart (is_on (lit "noPreLaunchScript") o) (is_given (lit "preLaunchScript") o)
        × IsAllowedFor has_cvm o)
unfolding check_options validate_pre_launch_script_options
check_options-none_iff has_cvm o =
    let split =
      else_check-none (validate_pre_launch_script_options o)
        (if has_cvm then assert_updatable_options o else assert_create_options o) in
    let off =
      some_if-none (is_on (lit "noPreLaunchScript") o && is_given (lit "preLaunchScript") o)
        both_pre_launch in
    let rest = assert-none has_cvm o in
    ((λ h. (off.0 (split.0 h).0, rest.0 (split.0 h).1)), (λ h. split.1 (off.1 h.0, rest.1 h.1)))
