-- ===== src/Deploy.antt =====
-- cli/src/utils/env-parsing.ts and resolveEnvVars of cli/src/commands/deploy/handler.ts: the environment
-- variables of a deployment. The loading of a file, which reads and parses it, and the answer to the
-- prompt are parameters.
pub mod EnvInputs
pub mod Resolved
pub mod Options
mod Tests
use phala_cloud.Common.{
  ℕ, Text, lit, Bool, true, false, not, ◌&&◌, ◌||◌, Option, none, some, List, [], ◌∷◌, ◌++◌,
  if◌then◌else◌, ◌==◌, leb, is_empty, all, any, map, trim, is_some,
}
use phala_cloud.Common.JsMap.{set}

pub record EnvVar : Type 0 where
  pub key : Text
  pub value : Text

pub record ParsedEnvInput : Type 0 where
  pub files : List Text
  pub key_values : List EnvVar

abbrev pub longer : ℕ → Option (Text × Text) → Option (Text × Text)
longer c none = none
longer c (some (key, value)) = some (c ∷ key, value)

-- The text up to the first "=", and the text behind it.
unfoldable pub split_at_equals : Text → Option (Text × Text)
split_at_equals [] = none
split_at_equals (c ∷ s) =
    let rest = split_at_equals s in if c == b'=' then some ([], s) else longer c rest

abbrev pub starts_env_name : ℕ → Bool
starts_env_name c = (leb b'A' c && leb c b'Z') || (leb b'a' c && leb c b'z') || c == b'_'

abbrev pub is_name_unit : ℕ → Bool
is_name_unit c = starts_env_name c || (leb b'0' c && leb c b'9')

-- /^[A-Za-z_][A-Za-z0-9_]*$/
unfoldable pub is_env_name : Text → Bool
is_env_name [] = false
is_env_name (c ∷ s) = starts_env_name c && all is_name_unit s

abbrev pub is_separator : ℕ → Bool
is_separator c = c == b'/' || c == b'\\'

unfoldable pub is_key : Text → Bool
unfolding is_env_name
is_key key = if any is_separator key then false else is_env_name key

unfoldable pub key_is_valid : Option (Text × Text) → Bool
unfolding is_key
key_is_valid none = false
key_is_valid (some (key, value)) = is_key key

-- isKeyValueFormat
unfoldable pub is_key_value_format : Text → Bool
unfolding split_at_equals key_is_valid
is_key_value_format input = key_is_valid (split_at_equals input)

abbrev pub add_file : Text → ParsedEnvInput → ParsedEnvInput
add_file file p = record { files = file ∷ p.files; key_values = p.key_values }

abbrev pub add_key_value : Option (Text × Text) → ParsedEnvInput → ParsedEnvInput
add_key_value none p = p
add_key_value (some (key, value)) p = record {
  files = p.files;
  key_values = record { key = key; value = value } ∷ p.key_values;
}

-- parseEnvInputs
unfoldable pub parse_env_inputs : List Text → ParsedEnvInput
unfolding is_key_value_format split_at_equals
parse_env_inputs [] = record { files = []; key_values = [] }
parse_env_inputs (input ∷ inputs) =
    let rest = parse_env_inputs inputs in
    if is_key_value_format input
    then add_key_value (split_at_equals input) rest
    else add_file input rest

-- The map after the loop over the variables, from the map before.
unfoldable pub set_all : List EnvVar → List (Text × Text) → List (Text × Text)
unfolding set
set_all [] m = m
set_all (e ∷ es) m = set_all es (set e.key e.value m)

abbrev pub as_env_var : Text × Text → EnvVar
as_env_var (key, value) = record { key = key; value = value }

-- dedupeEnvVars
unfoldable pub dedupe_env_vars : List EnvVar → List EnvVar
unfolding set_all
dedupe_env_vars envs = map as_env_var (set_all envs [])

pub data EnvFileOption : Type 0 where
  no_env_file : EnvFileOption
  env_file_flag : Bool → EnvFileOption
  env_file : Text → EnvFileOption

-- What comes of a file: it is not there, reading it fails, or it holds variables.
pub data Loaded : Type 0 where
  missing unreadable : Loaded
  holds : List EnvVar → Loaded

pub data EnvError : Type 0 where
  read_error not_found : Text → EnvError
  raw_error : EnvError

pub data EnvResult {ℓ} (A : Type ℓ) : Type ℓ where
  ok : A → EnvResult A
  threw : EnvError → EnvResult A

abbrev pub and_then {ℓ κ} :
    {A : Type ℓ} {B : Type κ} → EnvResult A → (A → EnvResult B) → EnvResult B
and_then (ok a) k = k a
and_then (threw e) k = threw e

pub record EnvOptions : Type 0 where
  pub env : Option (List Text)
  pub env_file : EnvFileOption
  pub interactive : Bool

abbrev pub inputs_of : Option (List Text) → List Text
inputs_of none = []
inputs_of (some inputs) = inputs

-- Whether the option is set, to a path that is not empty or to true.
abbrev pub is_set : EnvFileOption → Bool
is_set no_env_file = false
is_set (env_file_flag b) = b
is_set (env_file path) = not (is_empty path)

-- What reading a file gives where it is missing or cannot be read.
abbrev pub loaded_or : EnvError → EnvError → Loaded → EnvResult (List EnvVar)
loaded_or absent failed missing = threw absent
loaded_or absent failed unreadable = threw failed
loaded_or absent failed (holds envs) = ok envs

abbrev pub is_empty_list {ℓ} : {A : Type ℓ} → List A → Bool
is_empty_list [] = true
is_empty_list (a ∷ s) = false

module _ (load : Text → Loaded) where
  -- 1. the deprecated --env-file
  unfoldable pub load_env_file : EnvFileOption → EnvResult (List EnvVar)
  load_env_file no_env_file = ok []
  load_env_file (env_file_flag b) = ok []
  load_env_file (env_file path) =
      if is_empty path then ok [] else loaded_or (read_error path) (read_error path) (load path)

  -- 2. the files of -e, in order
  unfoldable pub load_files : List Text → EnvResult (List EnvVar)
  load_files [] = ok []
  load_files (file ∷ files) =
      let rest = load_files files in
      and_then (loaded_or (not_found file) (read_error file) (load file))
        (λ envs. and_then rest (λ more. ok (envs ++ more)))

  -- 3. the file that the prompt asks for
  unfoldable pub load_answer : EnvOptions → Text → List EnvVar → EnvResult (List EnvVar)
  unfolding trim
  load_answer o answer envs =
      if o.interactive && is_empty_list envs && not (is_some o.env) && not (is_set o.env_file)
      then if is_empty (trim answer)
        then ok []
        else loaded_or raw_error raw_error (load (trim answer))
      else ok []

  -- resolveEnvVars; `none` is undefined
  unfoldable pub resolve_env_vars : EnvOptions → Text → EnvResult (Option (List EnvVar))
  unfolding load_env_file load_files load_answer parse_env_inputs dedupe_env_vars
  resolve_env_vars o answer = and_then (load_env_file o.env_file) (λ before.
      let parsed = parse_env_inputs (inputs_of o.env) in
      and_then (load_files parsed.files) (λ from_files.
        let envs = before ++ (from_files ++ parsed.key_values) in
        and_then (load_answer o answer envs) (λ asked.
          let all_envs = envs ++ asked in
          if is_empty_list all_envs then ok none else ok (some (dedupe_env_vars all_envs)))))
