-- ===== src/Cli/Options.antt =====
-- cli/src/core/flags.ts, common-flags.ts and utils.ts: options and what the parser is told of them.
-- Option names are ASCII, and the fields for help output are left out.
use phala_cloud.Common.{
  ℕ, ◌+◌, ◌-◌, Text, lit, Bool, true, false, not, ◌&&◌, ◌||◌, Option, none, some, List, [], ◌∷◌,
  ◌++◌, if◌then◌else◌, leb, ◌==◌, is_empty, is_space,
}
use phala_cloud.Common.Dict.{Dict, put}
use phala_cloud.Common.JsMap

pub data OptionType : Type 0 where
  string number boolean strings numbers : OptionType

pub record CommandOption : Type 0 where
  pub name : Text
  pub shorthand : Option Text
  pub type : OptionType
  pub aliases : List Text
  pub negated_name : Option Text
  pub target : Option Text

pub record Descriptor : Type 0 where
  pub option : CommandOption
  pub canonical_key : Text
  pub target : Text
  pub negated_key : Option Text

-- A handler by the type of its option, or the name of another key.
pub data SpecEntry : Type 0 where
  handler : OptionType → SpecEntry
  alias_of : Text → SpecEntry

pub record FlagConfig : Type 0 where
  pub spec : Dict SpecEntry
  pub descriptors : List (Text × Descriptor)
  pub negated_lookup : List (Text × Descriptor)

lower : ℕ → ℕ
lower c = if leb b'A' c && leb c b'Z' then c + 32 else c

upper : ℕ → ℕ
upper c = if leb b'a' c && leb c b'z' then c - 32 else c

-- The words of value.split(/[\s-]+/).filter(Boolean), where `word` has been read of the current one
words_from : Text → Text → List Text
words_from word [] = if is_empty word then [] else word ∷ []
words_from word (c ∷ s) =
    let ends = is_space c || c == b'-' in
    let rest = words_from (if ends then [] else word ++ c ∷ []) s in
    if ends && not (is_empty word) then word ∷ rest else rest

lowered : Text → Text
lowered [] = []
lowered (c ∷ s) = lower c ∷ lowered s

capitalised : Text → Text
unfolding lowered
capitalised [] = []
capitalised (c ∷ s) = upper c ∷ lowered s

capitalised_all : List Text → Text
unfolding capitalised
capitalised_all [] = []
capitalised_all (w ∷ ws) = capitalised w ++ capitalised_all ws

camel_words : List Text → Text
unfolding lowered capitalised_all
camel_words [] = []
camel_words (w ∷ ws) = lowered w ++ capitalised_all ws

-- toCamelCase
unfoldable pub to_camel_case : Text → Text
unfolding words_from camel_words lower upper is_space
to_camel_case value = camel_words (words_from [] value)

abbrev long : Text → Text
long name = lit "--" ++ name

-- `if (name)` on an optional string
present : Option Text → Option Text
present none = none
present (some s) = if is_empty s then none else some s

is_boolean : OptionType → Bool
is_boolean boolean = true
is_boolean _ = false

descriptor_of : CommandOption → Descriptor
unfolding present
descriptor_of o = record {
  option = o;
  canonical_key = long o.name;
  target = elim o.target [ some t ↦ t | none ↦ to_camel_case o.name ];
  negated_key = elim (present o.negated_name) [ none ↦ none | some n ↦ some (long n) ];
}

with_shorthand : Text → Option Text → Dict SpecEntry → Dict SpecEntry
with_shorthand key none spec = spec
with_shorthand key (some s) spec = put (lit "-" ++ s) (alias_of key) spec

with_aliases : Text → List Text → Dict SpecEntry → Dict SpecEntry
with_aliases key [] spec = spec
with_aliases key (a ∷ as') spec = with_aliases key as' (put (long a) (alias_of key) spec)

-- The body of the loop of `prepareFlagConfig`; `none` is the error on a negated option that is not
-- boolean.
add_option : CommandOption → FlagConfig → Option FlagConfig
unfolding descriptor_of with_shorthand with_aliases present is_boolean put JsMap.set
add_option o cfg =
    let d = descriptor_of o in
    let key = long o.name in
    let spec =
      with_aliases key o.aliases
        (with_shorthand key (present o.shorthand) (put key (handler o.type) cfg.spec)) in
    elim (present o.negated_name) [
      | none ↦ some (record cfg { spec = spec; descriptors = JsMap.set key d cfg.descriptors })
      | some n ↦
          if is_boolean o.type
          then some (record {
            spec = put (long n) (handler boolean) spec;
            descriptors = JsMap.set key d cfg.descriptors;
            negated_lookup = JsMap.set (long n) d cfg.negated_lookup;
          })
          else none
    ]

prepare_from : FlagConfig → List CommandOption → Option FlagConfig
prepare_from cfg [] = some cfg
prepare_from cfg (o ∷ os) = elim (add_option o cfg) [ none ↦ none | some c ↦ prepare_from c os ]

-- prepareFlagConfig
unfoldable pub prepare_flag_config : List CommandOption → Option FlagConfig
unfolding prepare_from add_option to_camel_case
prepare_flag_config os =
    prepare_from (record { spec = []; descriptors = []; negated_lookup = [] }) os

abbrev plain : Text → OptionType → Text → CommandOption
plain name type target = record {
  name = name;
  shorthand = none;
  type = type;
  aliases = [];
  negated_name = none;
  target = some target;
}

-- globalCommandOptions
abbrev pub global_command_options : List CommandOption
global_command_options =
    record (plain (lit "help") boolean (lit "help")) { shorthand = some (lit "h") }
    ∷ record (plain (lit "version") boolean (lit "version")) { shorthand = some (lit "v") }
    ∷ record (plain (lit "api-token") string (lit "apiToken")) { aliases = lit "api-key" ∷ [] }
    ∷ record (plain (lit "json") boolean (lit "json")) {
      shorthand = some (lit "j");
      negated_name = some (lit "no-json");
    }
    ∷ plain (lit "interactive") boolean (lit "interactive")
    ∷ plain (lit "cvm-id") string (lit "cvmId")
    ∷ plain (lit "profile") string (lit "profile")
    ∷ plain (lit "api-version") string (lit "apiVersion")
    ∷ plain (lit "timeout") number (lit "timeout")
    ∷ []
