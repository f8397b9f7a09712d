-- ===== src/Deploy/Resolved.antt =====
-- Which value a variable gets, and that it gets one.
use phala_cloud.Common.{
  Text, Bool, true, false, not, Option, none, some, or_else, ◌&&◌, is_some, List, [], ◌∷◌, ◌++◌,
  map, ◌≡◌, refl, ap, sym, ◌∙◌, subst, if◌then◌else◌, inl, inr, Bool-cases, arith, text_eq,
  text_eq_iff,
}
use phala_cloud.Common.JsMap.{get, set, get-set}
use phala_cloud.Deploy.{
  EnvVar, EnvOptions, Loaded, EnvResult, ok, threw, and_then, parse_env_inputs, set_all, as_env_var,
  dedupe_env_vars, inputs_of, is_key_value_format, is_empty_list, is_set, load_env_file, load_files,
  load_answer, resolve_env_vars,
}
use phala_cloud.Deploy.EnvInputs.{those, print, parse_env_inputs-parts}

-- The value of the last variable of that name.
unfoldable pub last_value : Text → List EnvVar → Option Text
unfolding text_eq
last_value k [] = none
last_value k (e ∷ es) = or_else (last_value k es) (if text_eq e.key k then some e.value else none)

-- The value that a list without double names gives to a name.
unfoldable pub value_of : Text → List EnvVar → Option Text
unfolding text_eq
value_of k [] = none
value_of k (e ∷ es) = let rest = value_of k es in if text_eq e.key k then some e.value else rest

abbrev pub AreDistinct : List EnvVar → Type 0
AreDistinct [] = Unit
AreDistinct (e ∷ es) = (value_of e.key es ≡ none) × AreDistinct es

or_else_if :
    (o p : Option Text) (b : Bool) (v : Text)
    → or_else o (if b then some v else p) ≡ or_else (or_else o (if b then some v else none)) p
or_else_if none p true v = refl
or_else_if none p false v = refl
or_else_if (some w) p b v = refl

or_else-none : (o : Option Text) → o ≡ or_else o none
or_else-none none = refl
or_else-none (some v) = refl

or_else_assoc : (o p q : Option Text) → or_else o (or_else p q) ≡ or_else (or_else o p) q
or_else_assoc none p q = refl
or_else_assoc (some v) p q = refl

get-set_all :
    (k : Text) (es : List EnvVar) (m : List (Text × Text))
    → get k (set_all es m) ≡ or_else (last_value k es) (get k m)
unfolding set_all last_value
get-set_all k [] m = refl
get-set_all k (e ∷ es) m =
    get-set_all k es (set e.key e.value m)
    ∙ ap (or_else (last_value k es)) (get-set e.key k e.value m)
    ∙ or_else_if (last_value k es) (get k m) (text_eq e.key k) e.value

last_value-append :
    (k : Text) (es ds : List EnvVar)
    → last_value k (es ++ ds) ≡ or_else (last_value k ds) (last_value k es)
unfolding last_value
last_value-append k [] ds = or_else-none (last_value k ds)
last_value-append k (e ∷ es) ds =
    ap (λ o. or_else o (if text_eq e.key k then some e.value else none)) (last_value-append k es ds)
    ∙ sym (
        or_else_assoc (last_value k ds) (last_value k es)
          (if text_eq e.key k then some e.value else none))

value_of-as_env_var : (k : Text) (m : List (Text × Text)) → value_of k (map as_env_var m) ≡ get k m
unfolding value_of get
value_of-as_env_var k [] = refl
value_of-as_env_var k ((j, v) ∷ m) =
    ap (λ rest. if text_eq j k then some v else rest) (value_of-as_env_var k m)

set-AreDistinct :
    (k v : Text) (m : List (Text × Text))
    → AreDistinct (map as_env_var m)
    → AreDistinct (map as_env_var (set k v m))
unfolding set value_of
set-AreDistinct k v [] h = (refl, tt)
set-AreDistinct k v ((j, w) ∷ m) h = elim (Bool-cases (text_eq j k)) [
  | inl e ↦ rw e h
  | inr e ↦
      let differ : text_eq k j ≡ false = ground (arith, e, text_eq_iff j k, text_eq_iff k j) in
      let absent : value_of j (map as_env_var (set k v m)) ≡ none =
        value_of-as_env_var j (set k v m)
        ∙ get-set k j v m
        ∙ ap (λ b. if b then some v else get j m) differ
        ∙ sym (value_of-as_env_var j m)
        ∙ h.0 in
      rw e (absent, set-AreDistinct k v m h.1)
]

set_all-AreDistinct :
    (es : List EnvVar) (m : List (Text × Text))
    → AreDistinct (map as_env_var m)
    → AreDistinct (map as_env_var (set_all es m))
unfolding set_all
set_all-AreDistinct [] m h = h
set_all-AreDistinct (e ∷ es) m h =
    set_all-AreDistinct es (set e.key e.value m) (set-AreDistinct e.key e.value m h)

pub value_of-dedupe_env_vars :
    (k : Text) (es : List EnvVar) → value_of k (dedupe_env_vars es) ≡ last_value k es
unfolding dedupe_env_vars get
value_of-dedupe_env_vars k es =
    value_of-as_env_var k (set_all es [])
    ∙ get-set_all k es []
    ∙ sym (or_else-none (last_value k es))

dedupe_env_vars-AreDistinct : (es : List EnvVar) → AreDistinct (dedupe_env_vars es)
unfolding dedupe_env_vars
dedupe_env_vars-AreDistinct es = set_all-AreDistinct es [] tt

-- The variables by where they come from. The inputs of -e in KEY=VALUE form are the variables given, and
-- the others the files, each in their order; the value of a name is that of the answer's file, else
-- of the last KEY=VALUE input, else of the last file of -e, else of the file of --env-file.
pub record IsResolved (load : Text → Loaded) (o : EnvOptions) (answer : Text) (vs : List EnvVar)
    : Type 0 where
  pub before : List EnvVar
  pub from_files : List EnvVar
  pub asked : List EnvVar
  pub loaded_before : load_env_file load o.env_file ≡ ok before
  pub loaded_files : load_files load (parse_env_inputs (inputs_of o.env)).files ≡ ok from_files
  pub loaded_answer :
      load_answer load o answer
        (before ++ (from_files ++ (parse_env_inputs (inputs_of o.env)).key_values))
      ≡ ok asked
  pub unasked : is_some o.env ≡ true → asked ≡ []
  pub parted :
      (map print (parse_env_inputs (inputs_of o.env)).key_values
        ≡ those is_key_value_format (inputs_of o.env))
      × ((parse_env_inputs (inputs_of o.env)).files
          ≡ those (λ s. not (is_key_value_format s)) (inputs_of o.env))
  pub value :
      (k : Text)
      → value_of k vs
        ≡ or_else (last_value k asked) (
            or_else
              (last_value k (parse_env_inputs (inputs_of o.env)).key_values)
              (or_else (last_value k from_files) (last_value k before)))
  pub distinct : AreDistinct vs

last_value-sources :
    (k : Text) (before from_files given asked : List EnvVar)
    → last_value k ((before ++ (from_files ++ given)) ++ asked)
      ≡ or_else
          (last_value k asked)
          (or_else (last_value k given) (or_else (last_value k from_files) (last_value k before)))
last_value-sources k before from_files given asked =
    last_value-append k (before ++ (from_files ++ given)) asked
    ∙ ap (or_else (last_value k asked)) (
        last_value-append k before (from_files ++ given)
        ∙ ap (λ o. or_else o (last_value k before)) (last_value-append k from_files given)
        ∙ sym (or_else_assoc (last_value k given) (last_value k from_files) (last_value k before)))

and_then-eq-ok {ℓ κ} :
    {A : Type ℓ} {B : Type κ} (r : EnvResult A) (k : A → EnvResult B) (b : B)
    → and_then r k ≡ ok b
    → (a : A) × (r ≡ ok a) × (k a ≡ ok b)
and_then-eq-ok (ok a) k b h = (a, refl, h)
and_then-eq-ok (threw e) k b h = absurd (cc h)

-- Where -e is given, the prompt is not shown and gives nothing.
unasked_of :
    (load : Text → Loaded) (o : EnvOptions) (answer : Text) (envs asked : List EnvVar)
    → is_some o.env ≡ true
    → load_answer load o answer envs ≡ ok asked
    → asked ≡ []
unfolding load_answer
unasked_of load o answer envs asked e h =
    let closed : (o.interactive
          && is_empty_list envs
          && not (is_some o.env)
          && not (is_set o.env_file))
        ≡ false =
      ground (arith, e) in
    let nothing : ok [] ≡ ok asked = (let g = rw closed at h in g) in cc nothing

deduped :
    (es vs : List EnvVar)
    → (if is_empty_list es then ok none else ok (some (dedupe_env_vars es))) ≡ ok (some vs)
    → dedupe_env_vars es ≡ vs
deduped [] vs h = absurd (cc h)
deduped (e ∷ es) vs h = cc h

-- Where resolveEnvVars gives variables, the inputs of -e in KEY=VALUE form are variables and every other
-- is a file that was loaded, each in their order, no name stands twice, and a name has the value of
-- the file that the prompt asked for, else of the last KEY=VALUE input wherever it stands among the
-- inputs, else of the last file of -e that sets it, else of the file of --env-file. The prompt's file
-- is the one resolveEnvVars loads behind the others, and there is none where -e is given.
pub resolve_env_vars-IsResolved :
    (load : Text → Loaded) (o : EnvOptions) (answer : Text) (vs : List EnvVar)
    → resolve_env_vars load o answer ≡ ok (some vs)
    → IsResolved load o answer vs
unfolding resolve_env_vars
resolve_env_vars-IsResolved load o answer vs h =
    let given = (parse_env_inputs (inputs_of o.env)).key_values in
    let (before, loaded_before, h1) =
      and_then-eq-ok (load_env_file load o.env_file) _ (some vs) h in
    let (from_files, loaded_files, h2) =
      and_then-eq-ok (load_files load (parse_env_inputs (inputs_of o.env)).files) _ (some vs) h1 in
    let (asked, loaded_answer, h3) =
      and_then-eq-ok (load_answer load o answer (before ++ (from_files ++ given))) _ (some vs) h2 in
    let all_envs = (before ++ (from_files ++ given)) ++ asked in
    let is = deduped all_envs vs h3 in
    record {
      before = before;
      from_files = from_files;
      asked = asked;
      loaded_before = loaded_before;
      loaded_files = loaded_files;
      loaded_answer = loaded_answer;
      unasked =
          λ e. unasked_of load o answer (before ++ (from_files ++ given)) asked e loaded_answer;
      parted = parse_env_inputs-parts (inputs_of o.env);
      value = λ k.
          ap (value_of k) (sym is)
          ∙ value_of-dedupe_env_vars k all_envs
          ∙ last_value-sources k before from_files given asked;
      distinct = subst AreDistinct is (dedupe_env_vars-AreDistinct all_envs);
    }
