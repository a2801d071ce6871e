-- ===== src/Generator/Proto/Files.antt =====
-- proto_generator.py: which functions come into which service, and which generators write into the file.
use Prim.Native.String.{◌++◌}
use text.Mathlib.Text.{starts_with}
use sat_os_payload_sdk.Prelude.{String, List, [], ◌∷◌, map, Option, none, some, if◌then◌else◌}
use sat_os_payload_sdk.Exec.{
  Exec, ◌>>=◌, index_error, Result, ok, raised, attribute_error, name_error, system_exit, ◌>>◌,
}
use sat_os_payload_sdk.Generator.Text.{lower, upper_char, for_each, filter, ends_with, replace}
use sat_os_payload_sdk.Generator.Interface.{
  ElementTree, check_applicability, Enum, Struct, FuncParam, func_param, meta_field, import_of,
  enum, field, struct, function,
}
use sat_os_payload_sdk.Generator.Interface.Phases.{Hooks, no_hooks, XmlToCode}
use sat_os_payload_sdk.Generator.Proto.{
  ProtoFunction, proto_function, modified, write_metadata, write_imports, write_enum, write_struct,
  write_service,
}

-- `service_from_filename`, for a name in ASCII; the empty name has no first letter.
unfoldable pub service_from_filename : String → Result String
unfolding replace
service_from_filename filename = elim (lower (replace filename "_" "")) [
  | String.[] ↦ raised index_error
  | String.◌∷◌ c s ↦ ok (String.◌∷◌ (upper_char c) s)
]

-- The name of a service, which may raise while the file is written.
abbrev service_name : String → String → Exec String String
service_name base suffix t = elim (service_from_filename base) [
  | raised e ↦ (raised e, t)
  | ok s ↦ (ok (s ++ suffix), t)
]

-- The name of a callback; the message for a wrong name uses a name that is not defined.
unfoldable pub callback_name : Option String → Result String
callback_name none = raised attribute_error
callback_name (some name) =
    if ends_with name "_Fptr" then ok ("PA_" ++ replace name "_Fptr" "") else raised name_error

unfoldable pub function_name : Option String → Result String
function_name none = raised attribute_error
function_name (some name) =
    if starts_with name "api_pa_pc_"
    then ok (replace name "api_pa_pc_" "PC_")
    else raised system_exit

abbrev pub renamed : Result String → ProtoFunction → Result ProtoFunction
renamed (raised e) f = raised e
renamed (ok name) f = ok (record f { mutated_name = some name })

abbrev pub chain : {A B : Type 0} → Result A → (A → Result B) → Result B
chain (raised e) f = raised e
chain (ok a) f = f a

-- The first loop of `ProtoFunction.__init__` makes an object for each parameter, also for those that
-- the peer does not consume.
construct_all : List FuncParam → Result (Unit {0})
construct_all [] = ok tt
construct_all (p ∷ params) = chain (modified p.type) λ t. construct_all params

module _ {E : Type 0} (xml : ElementTree E) where
  -- The functions that the peer consumes, each with its new name.
  unfoldable pub collect : (Option String → Result String) → List E → Result (List ProtoFunction)
  unfolding proto_function construct_all func_param
  collect rename [] = ok []
  collect rename (e ∷ es) =
      let rest = collect rename es in
      chain (function xml "Peer" e) λ f.
        chain (construct_all (map (func_param xml) (xml.findall e "Parameter"))) λ u.
          chain (proto_function f) λ p.
            if check_applicability f.consumed_by "Peer"
            then chain (renamed (rename f.name) p) (λ q. chain rest (λ qs. ok (q ∷ qs)))
            else rest

  enums : E → List Enum
  enums types =
      filter (λ e. check_applicability e.consumed_by "Peer")
        (map (enum xml) (xml.findall types "Enum"))

  -- `ProtoStruct`: the fields that the peer consumes.
  unfoldable pub proto_struct : E → Struct
  unfolding struct field check_applicability
  proto_struct e = record (struct xml e) {
    fields =
        filter (λ f. check_applicability f.consumed_by "Peer")
          (map (field xml) (xml.findall e "Field"));
  }

  unfoldable pub structs : E → List Struct
  structs types =
      filter (λ s. check_applicability s.consumed_by "Peer")
        (map proto_struct (xml.findall types "Struct"))

  types_hooks : E → Hooks
  unfolding enums structs write_enum write_struct
  types_hooks types = record no_hooks {
    file_body = (do for_each write_enum (enums types); for_each write_struct (structs types));
  }

  -- The two services, from the functions that were collected.
  services : List ProtoFunction → List ProtoFunction → String → XmlToCode → XmlToCode
  unfolding service_from_filename
  services callbacks functions base g = record g {
    callbacks_gen = some (record no_hooks {
      file_end = (do name ← service_name base "ApplicationCallback"; write_service name callbacks);
    });
    functions_gen = some (record no_hooks {
      file_end = (do name ← service_name base "PayloadController"; write_service name functions);
    });
  }

  -- `InterfaceGen`; the collection of the functions may end the program.
  unfoldable pub interface_gen : String → E → E → E → E → E → Result XmlToCode
  unfolding write_metadata write_imports types_hooks collect callback_name function_name services
  interface_gen base meta imports types callbacks functions =
      chain (collect callback_name (xml.findall callbacks "FunctionPtr")) λ fptrs.
        chain (collect function_name (xml.findall functions "Function")) λ funcs. ok (
          services fptrs funcs base (record {
            meta_gen = some (record no_hooks {
              file_start = write_metadata (map (meta_field xml) (xml.findall meta "MetaField"));
            });
            imports_gen = some (record no_hooks {
              file_start = write_imports base (map (import_of xml) (xml.findall imports "Import"));
            });
            callbacks_gen = none;
            types_gen = some (types_hooks types);
            functions_gen = none;
          }))
