-- ===== src/Generator/Main.antt =====
-- main.py: the command line, the names of the files and the choice of the generator. `getopt` is not
-- part of the repository: what it answers is given.
pub mod Parsed
pub mod Run
mod Tests
use Prim.Native.String.{◌++◌}
use Prim.Native.Char.{code}
use sat_os_payload_sdk.Prelude.{
  ◌==◌, ℕ, String, Bool, true, false, List, [], ◌∷◌, Option, none, some, is_some, str_eq,
  if◌then◌else◌,
}
use sat_os_payload_sdk.Exec.{
  Result, ok, raised, type_error, key_error, system_exit, Exec, ◌>>=◌, ◌>>◌, pure, throw, gets,
  modify,
}
use sat_os_payload_sdk.Generator.Interface.Paths.{get_file_basename_without_extension}
use sat_os_payload_sdk.Generator.Text.{show, is_in}

-- The global variables of the program.
pub record Globals : Type 0 where
  pub input_file : Option String
  pub out_language : String
  pub schema_file : Option String
  pub out_file_base_name : Option String
  pub out_dir : Option String

abbrev pub initial : Globals
initial = record {
  input_file = none;
  out_language = "cpp";
  schema_file = none;
  out_file_base_name = none;
  out_dir = none;
}

abbrev pub valid_languages : List String
valid_languages = "cpp" ∷ "python" ∷ "proto" ∷ []

-- One round of the loop over the options. An unknown language is only reported.
unfoldable pub set_option : String → String → Exec Globals (Unit {0})
set_option opt arg =
    if is_in opt ("-h" ∷ "--help" ∷ [])
    then throw system_exit
    else if is_in opt ("-i" ∷ "--input-file" ∷ [])
    then modify (λ g. record g { input_file = some arg })
    else if is_in opt ("-l" ∷ "--language" ∷ [])
    then modify (λ g. record g { out_language = arg })
    else if is_in opt ("-s" ∷ "--schema-file" ∷ [])
    then modify (λ g. record g { schema_file = some arg })
    else if is_in opt ("-o" ∷ "--output-dir" ∷ [])
    then modify (λ g. record g { out_dir = some arg })
    else pure tt

unfoldable pub set_options : List (String × String) → Exec Globals (Unit {0})
unfolding set_option
set_options [] = pure tt
set_options ((opt, arg) ∷ opts) = set_option opt arg >>= λ _. set_options opts

-- A parameter that the program cannot do without.
abbrev pub compulsory : (Globals → Option String) → Exec Globals (Unit {0})
compulsory field g = if is_some (field g) then (ok tt, g) else (raised system_exit, g)

unfoldable pub set_base_file_name : Exec Globals (Unit {0})
unfolding get_file_basename_without_extension
set_base_file_name g = elim g.input_file [
  | none ↦ (raised type_error, g)
  | some path ↦
      (ok tt, record g { out_file_base_name = some (get_file_basename_without_extension path) })
]

-- `parse_opts`, from what `getopt` makes of the arguments, which may be an error.
unfoldable pub parse_opts : Option (List (String × String)) → Exec Globals (Unit {0})
unfolding set_options set_base_file_name
parse_opts none = throw system_exit
parse_opts (some opts) = do
  set_options opts
  compulsory (λ g. g.input_file)
  compulsory (λ g. g.schema_file)
  compulsory (λ g. g.out_dir)
  set_base_file_name

-- What a run of a generator is given: the files that it writes, and the namespace of C++ or the name
-- that the Python file imports.
pub data Job : Type 0 where
  cpp_job : (header_file source_file namespace : String) → Job
  proto_job : (header_file : String) → Job
  python_job : (header_file namespace : String) → Job

unfoldable pub generate_cpp : Globals → Job
generate_cpp g =
    let outdir = show g.out_dir ++ "/cpp/gen/" in
    let base = show g.out_file_base_name in
    cpp_job (outdir ++ base ++ ".h") (outdir ++ base ++ "_autogen.cc")
      ("::" ++ base ++ "_peer_to_peer::")

unfoldable pub generate_proto : Globals → Job
generate_proto g = proto_job (show g.out_dir ++ "/" ++ show g.out_file_base_name ++ ".proto")

unfoldable pub generate_python : Globals → Job
generate_python g =
    let outdir = show g.out_dir ++ "/python/satos_payload_sdk/gen/" in
    python_job (outdir ++ show g.out_file_base_name ++ "_types.py") (show g.out_file_base_name)

-- `generators[gOutLanguage]()`
unfoldable pub generate_code : Exec Globals Job
unfolding generate_cpp generate_proto generate_python
generate_code g =
    if str_eq g.out_language "cpp"
    then (ok (generate_cpp g), g)
    else if str_eq g.out_language "python"
    then (ok (generate_python g), g)
    else if str_eq g.out_language "proto"
    then (ok (generate_proto g), g)
    else (raised key_error, g)

-- The program, from what `getopt` answers.
unfoldable pub main : Option (List (String × String)) → Exec Globals Job
unfolding parse_opts generate_code
main answer = do parse_opts answer; generate_code
