-- ===== src/Deploy/EnvInputs.antt =====
-- How parseEnvInputs parts its inputs.
use phala_cloud.Common.{
  ℕ, Text, Bool, true, not, Option, none, some, List, [], ◌∷◌, ◌++◌, map, ◌≡◌, ◌≢◌, refl, ap, sym,
  ◌∙◌, if◌then◌else◌, ◌==◌, inl, inr, Bool-cases, ==_iff,
}
use phala_cloud.Deploy.{
  EnvVar, ParsedEnvInput, longer, split_at_equals, key_is_valid, is_key_value_format, add_key_value,
  parse_env_inputs,
}

-- Those that pass a test, in their order.
unfoldable pub those : (Text → Bool) → List Text → List Text
those q [] = []
those q (s ∷ ss) = let rest = those q ss in if q s then s ∷ rest else rest

abbrev pub print : EnvVar → Text
print e = e.key ++ (b'=' ∷ e.value)

IsPair : Option (Text × Text) → Text → Type 0
IsPair none s = Unit
IsPair (some (key, value)) s = key ++ (b'=' ∷ value) ≡ s

longer-IsPair :
    (c : ℕ) (s : Text) (o : Option (Text × Text)) → IsPair o s → IsPair (longer c o) (c ∷ s)
unfolding IsPair
longer-IsPair c s none h = tt
longer-IsPair c s (some (key, value)) h = ap (λ (t : Text). c ∷ t) h

split_at_equals-IsPair : (s : Text) → IsPair (split_at_equals s) s
unfolding split_at_equals IsPair
split_at_equals-IsPair [] = tt
split_at_equals-IsPair (c ∷ s) = elim (Bool-cases (c == b'=')) [
  | inl e ↦ let is : b'=' ≡ c = sym ((==_iff c b'=').0 e) in rw e (ap (λ (d : ℕ). d ∷ s) is)
  | inr e ↦ rw e (longer-IsPair c s (split_at_equals s) (split_at_equals-IsPair s))
]

no_pair : key_is_valid none ≢ true
unfolding key_is_valid
no_pair h = cc h

print-add_key_value :
    (s : Text) (o : Option (Text × Text)) (p : ParsedEnvInput)
    → IsPair o s
    → key_is_valid o ≡ true
    → map print (add_key_value o p).key_values ≡ s ∷ map print p.key_values
unfolding IsPair
print-add_key_value s none p h k = absurd (no_pair k)
print-add_key_value s (some (key, value)) p h k = ap (λ (t : Text). t ∷ map print p.key_values) h

files-add_key_value :
    (o : Option (Text × Text)) (p : ParsedEnvInput) → (add_key_value o p).files ≡ p.files
files-add_key_value none p = refl
files-add_key_value (some (key, value)) p = refl

is_valid-split : (s : Text) → is_key_value_format s ≡ true → key_is_valid (split_at_equals s) ≡ true
unfolding is_key_value_format
is_valid-split s e = e

-- parseEnvInputs takes each input for a file or for a variable: those in KEY=VALUE form, printed again
-- from the variables, and the others, as files, each in their order.
pub parse_env_inputs-parts :
    (inputs : List Text)
    → (map print (parse_env_inputs inputs).key_values ≡ those is_key_value_format inputs)
      × ((parse_env_inputs inputs).files ≡ those (λ s. not (is_key_value_format s)) inputs)
unfolding parse_env_inputs those
parse_env_inputs-parts [] = (refl, refl)
parse_env_inputs-parts (s ∷ ss) =
    let rest = parse_env_inputs-parts ss in
    elim (Bool-cases (is_key_value_format s)) [
      | inl e ↦ rw e (
        print-add_key_value s (split_at_equals s) (parse_env_inputs ss) (split_at_equals-IsPair s)
              (is_valid-split s e)
            ∙ ap (λ (ts : List Text). s ∷ ts) rest.0,
        files-add_key_value (split_at_equals s) (parse_env_inputs ss) ∙ rest.1,
      )
      | inr e ↦ rw e (rest.0, ap (λ (ts : List Text). s ∷ ts) rest.1)
    ]
