-- ===== src/Generator/Main/Parsed.antt =====
-- What the program does with its options.
use Prim.Native.String.{◌++◌}
use sat_os_payload_sdk.Prelude.{
  ap, String, Bool, true, false, ◌≡◌, refl, List, [], ◌∷◌, All, Option, none, some, Bool-cases,
  str_eq, if◌then◌else◌, inl, inr,
}
use sat_os_payload_sdk.Exec.{Result, ok, raised, key_error, system_exit}
use sat_os_payload_sdk.Generator.Text.{is_in}
use sat_os_payload_sdk.Generator.Interface.Paths.{get_file_basename_without_extension}
use sat_os_payload_sdk.Generator.Main.{
  Globals, initial, set_option, set_options, parse_opts, set_base_file_name, Job, cpp_job,
  proto_job, python_job, generate_code, main, generate_cpp, generate_proto, generate_python,
}

-- The options, each with a short and a long spelling.
pub data Key : Type 0 where
  help input language schema output unknown : Key

abbrev pub key : String → Key
key opt =
    if is_in opt ("-h" ∷ "--help" ∷ [])
    then help
    else if is_in opt ("-i" ∷ "--input-file" ∷ [])
    then input
    else if is_in opt ("-l" ∷ "--language" ∷ [])
    then language
    else if is_in opt ("-s" ∷ "--schema-file" ∷ [])
    then schema
    else if is_in opt ("-o" ∷ "--output-dir" ∷ [])
    then output
    else unknown

-- A text of the options, or what stood there before.
abbrev pub or_else : Option String → Option String → Option String
or_else (some s) before = some s
or_else none before = before

or_else_assoc : (a b c : Option String) → or_else (or_else a b) c ≡ or_else a (or_else b c)
or_else_assoc none b c = refl
or_else_assoc (some s) b c = refl

abbrev pub is_input : Key → Bool
is_input input = true
is_input _ = false

abbrev pub is_language : Key → Bool
is_language language = true
is_language _ = false

abbrev pub is_schema : Key → Bool
is_schema schema = true
is_schema _ = false

abbrev pub is_output : Key → Bool
is_output output = true
is_output _ = false

-- The argument of the last option of a kind.
abbrev pub last : (Key → Bool) → List (String × String) → Option String
last kind [] = none
last kind ((opt, arg) ∷ opts) = or_else (last kind opts) (if kind (key opt) then some arg else none)

abbrev text_of : Option String → String → String
text_of none before = before
text_of (some s) before = s

-- The variables after options of which these are the last arguments.
abbrev pub given : (i l s o : Option String) → Globals → Globals
given i l s o g = record {
  input_file = or_else i g.input_file;
  out_language = text_of l g.out_language;
  schema_file = or_else s g.schema_file;
  out_file_base_name = g.out_file_base_name;
  out_dir = or_else o g.out_dir;
}

abbrev when : Bool → String → Option String
when b arg = if b then some arg else none

set_option-given :
    (opt arg : String) (g : Globals)
    → is_in opt ("-h" ∷ "--help" ∷ []) ≡ false
    → let k = key opt in
      set_option opt arg g ≡ (
        ok tt,
        given
            (when (is_input k) arg)
            (when (is_language k) arg)
            (when (is_schema k) arg)
            (when (is_output k) arg)
            g,
      )
unfolding set_option
set_option-given opt arg g h = rw h (elim (Bool-cases (is_in opt ("-i" ∷ "--input-file" ∷ []))) [
  | inl a ↦ rw a refl
  | inr a ↦ elim (Bool-cases (is_in opt ("-l" ∷ "--language" ∷ []))) [
    | inl b ↦ rw (a, b) refl
    | inr b ↦ elim (Bool-cases (is_in opt ("-s" ∷ "--schema-file" ∷ []))) [
      | inl c ↦ rw (a, b, c) refl
      | inr c ↦ elim (Bool-cases (is_in opt ("-o" ∷ "--output-dir" ∷ []))) [
        | inl d ↦ rw (a, b, c, d) refl
        | inr d ↦ rw (a, b, c, d) refl
      ]
    ]
  ]
])

given-given :
    (i l s o i' l' s' o' : Option String) (g : Globals)
    → given i l s o (given i' l' s' o' g)
      ≡ given (or_else i i') (or_else l l') (or_else s s') (or_else o o') g
given-given i none s o i' l' s' o' g = rw (or_else_assoc i, or_else_assoc s, or_else_assoc o)
given-given i (some l) s o i' l' s' o' g = rw (or_else_assoc i, or_else_assoc s, or_else_assoc o)

abbrev pub NoHelp : List (String × String) → Type 0
NoHelp opts = All (λ o. is_in o.0 ("-h" ∷ "--help" ∷ []) ≡ false) opts

abbrev all_given : List (String × String) → Globals → Globals
all_given opts g =
    given (last is_input opts) (last is_language opts) (last is_schema opts) (last is_output opts) g

set_options-given :
    (opts : List (String × String)) (g : Globals)
    → NoHelp opts
    → set_options opts g ≡ (ok tt, all_given opts g)
unfolding set_options
set_options-given [] g h = refl
set_options-given ((opt, arg) ∷ opts) g h =
    let k = key opt in
    let i = when (is_input k) arg in
    let l = when (is_language k) arg in
    let s = when (is_schema k) arg in
    let o = when (is_output k) arg in
    rw (set_option-given opt arg g h.0, set_options-given opts (given i l s o g) h.1)
      (ap (λ x. (Result.ok tt, x))
        (given-given (last is_input opts) (last is_language opts) (last is_schema opts)
          (last is_output opts) i l s o g))

abbrev base : String → String
base path = get_file_basename_without_extension path

-- The run that the parameters ask for.
abbrev pub job_for : (input_file language output_dir : String) → Result Job
job_for path lang dir =
    if str_eq lang "cpp"
    then ok (
        cpp_job ((dir ++ "/cpp/gen/") ++ base path ++ ".h")
          ((dir ++ "/cpp/gen/") ++ base path ++ "_autogen.cc")
          ("::" ++ base path ++ "_peer_to_peer::"))
    else if str_eq lang "python"
    then ok (
        python_job ((dir ++ "/python/satos_payload_sdk/gen/") ++ base path ++ "_types.py")
          (base path))
    else if str_eq lang "proto"
    then ok (proto_job (dir ++ "/" ++ base path ++ ".proto"))
    else raised key_error

-- What the program does with the last arguments of its options.
abbrev pub outcome : (i l s o : Option String) → Result Job
outcome (some i) l (some s) (some o) = job_for i (text_of l "cpp") o
outcome _ l _ _ = raised system_exit

generate_code-job :
    (i l s o : String)
    → (generate_code (record {
      input_file = some i;
      out_language = l;
      schema_file = some s;
      out_file_base_name = some (base i);
      out_dir = some o;
    })).0
      ≡ job_for i l o
unfolding generate_code generate_cpp generate_proto generate_python
generate_code-job i l s o = elim (Bool-cases (str_eq l "cpp")) [
  | inl a ↦ rw a refl
  | inr a ↦ elim (Bool-cases (str_eq l "python")) [
    | inl b ↦ rw (a, b) refl
    | inr b ↦ elim (Bool-cases (str_eq l "proto")) [
      | inl c ↦ rw (a, b, c) refl
      | inr c ↦ rw (a, b, c) refl
    ]
  ]
]

main-given :
    (opts : List (String × String)) (i l s o : Option String)
    → set_options opts initial ≡ (ok tt, given i l s o initial)
    → (main (some opts) initial).0 ≡ outcome i l s o
unfolding main parse_opts set_base_file_name generate_code generate_cpp generate_proto
    generate_python
main-given opts none l s o h = rw h refl
main-given opts (some i) l none o h = rw h refl
main-given opts (some i) l (some s) none h = rw h refl
main-given opts (some i) l (some s) (some o) h = rw h (generate_code-job i (text_of l "cpp") s o)

-- Without a help option, what the program comes to is decided by the last option of each kind alone: it
-- exits if the input file, the schema file or the output directory is missing; it raises a KeyError if
-- the language is none of the three; else it calls the generator of the language, C++ without a language
-- option, for files named after the base name of the input file. How that generator ends is not stated.
pub main-outcome :
    (opts : List (String × String))
    → NoHelp opts
    → (main (some opts) initial).0
      ≡ outcome
          (last is_input opts)
          (last is_language opts)
          (last is_schema opts)
          (last is_output opts)
main-outcome opts h =
    main-given opts (last is_input opts) (last is_language opts) (last is_schema opts)
      (last is_output opts) (set_options-given opts initial h)
