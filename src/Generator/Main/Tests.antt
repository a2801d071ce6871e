-- ===== src/Generator/Main/Tests.antt =====
-- Concrete runs of the program.
use sat_os_payload_sdk.Prelude.{String, ◌≡◌, refl, List, [], ◌∷◌, All, none, some, Bool, true}
use sat_os_payload_sdk.Exec.{ok, raised, key_error}
use sat_os_payload_sdk.Generator.Interface.{ElementTree}
use sat_os_payload_sdk.Generator.Interface.Paths.{get_file_basename_without_extension}
use sat_os_payload_sdk.Generator.Main.{initial, main, proto_job}
use sat_os_payload_sdk.Generator.Main.Parsed.{main-outcome}
use sat_os_payload_sdk.Generator.Main.Run.{Disk, run, meta_data}
use sat_os_payload_sdk.Generator.Main.Run.Rejected.{Raises, run-Raises}

abbrev java_options : List (String × String)
java_options =
    ("-i", "defs/antaris_api.xml")
    ∷ ("-l", "cpp")
    ∷ ("-s", "defs/schema.xsd")
    ∷ ("--output-dir", "out")
    ∷ ("--language", "java")
    ∷ []

-- The last language counts, and an unknown one is noticed by the dictionary of generators.
main-outcome_example : (main (some java_options) initial).0 ≡ raised key_error
main-outcome_example = main-outcome java_options (refl, (refl, (refl, (refl, (refl, tt)))))

base_name_of_path : get_file_basename_without_extension "defs/antaris_api.xml" ≡ "antaris_api"
unfolding get_file_basename_without_extension
base_name_of_path = refl

-- A root without any node below it.
abbrev xml : ElementTree Bool
xml = record { get = λ e a. none; findall = λ e tag. []; find = λ e tag. none }

abbrev disk : Disk
disk path = some "an older file"

-- The older file is emptied.
run-Raises_example :
    Raises (run xml some (proto_job "out/api.proto") (ok true) disk).0
    × All
        (λ p. (run xml some (proto_job "out/api.proto") (ok true) disk).1 p ≡ some "")
        ("out/api.proto" ∷ [])
run-Raises_example =
    run-Raises xml some (proto_job "out/api.proto") (ok true) disk (meta_data, refl, refl)
