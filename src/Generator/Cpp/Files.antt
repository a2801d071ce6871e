-- ===== src/Generator/Cpp/Files.antt =====
-- cpp_generator.py: which generators write into the header and into the source file.
use sat_os_payload_sdk.Prelude.{String, List, [], ◌∷◌, map, Option, some}
use sat_os_payload_sdk.Exec.{Result, ok, raised, ◌>>◌}
use sat_os_payload_sdk.Generator.Text.{write, for_each, filter}
use sat_os_payload_sdk.Generator.Interface.{
  ElementTree, check_applicability, Enum, Struct, Function, meta_field, import_of, enum, field,
  struct, function,
}
use sat_os_payload_sdk.Generator.Interface.Phases.{Hooks, no_hooks, XmlToCode}
use sat_os_payload_sdk.Generator.Cpp.{
  write_metadata, imports_header_start, imports_header_end, imports_source_start,
  imports_source_end, enum_declaration, enum_source, struct_forward, struct_declaration,
  struct_source,
}
use sat_os_payload_sdk.Generator.Cpp.Functions.{write_function_ptr, write_function}

types_header : List Enum → List Struct → Hooks
unfolding enum_declaration struct_forward struct_declaration
types_header enums structs = record no_hooks {
  file_start = (do
    write "\n// >>>> Forward declarations and enums <<<<<\n\n"
    for_each enum_declaration enums
    for_each struct_forward structs);
  file_body = (do write "\n// >>>> Data Types <<<<<\n\n"; for_each struct_declaration structs);
}

types_source : (String → Option String) → String → List Enum → List Struct → Hooks
unfolding struct_source enum_source
types_source int namespace enums structs = record no_hooks {
  file_body = (do for_each (struct_source int namespace) structs; for_each enum_source enums);
}

callbacks_header : List Function → Hooks
unfolding write_function_ptr
callbacks_header fptrs = record no_hooks {
  file_body = (do
    write "\n// >>>> Callback function-ptr types <<<<<\n\n"
    for_each write_function_ptr fptrs);
}

functions_header : List Function → Hooks
unfolding write_function
functions_header functions = record no_hooks {
  file_body = (do
    write "\n// >>>> Function Prototypes <<<<<\n\n"
    for_each write_function functions);
}

abbrev both : {A B C : Type 0} → Result A → Result B → (A → B → C) → Result C
both (raised e) q f = raised e
both (ok a) (raised e) f = raised e
both (ok a) (ok b) f = ok (f a b)

module _ {E : Type 0} (xml : ElementTree E) where
  unfoldable pub enums : E → List Enum
  enums types =
      filter (λ e. check_applicability e.consumed_by "Application")
        (map (enum xml) (xml.findall types "Enum"))

  -- `CPPStruct`: the fields that the application consumes.
  unfoldable pub cpp_struct : E → Struct
  unfolding struct field check_applicability
  cpp_struct e = record (struct xml e) {
    fields =
        filter (λ f. check_applicability f.consumed_by "Application")
          (map (field xml) (xml.findall e "Field"));
  }

  unfoldable pub structs : E → List Struct
  structs types =
      filter (λ s. check_applicability s.consumed_by "Application")
        (map cpp_struct (xml.findall types "Struct"))

  -- Every function is kept, whoever consumes it.
  unfoldable pub functions : List E → Result (List Function)
  functions [] = ok []
  functions (e ∷ es) = both (function xml "Application" e) (functions es) (λ f fs. f ∷ fs)

  -- The generators for the header.
  header_gens : String → E → E → E → List Function → List Function → XmlToCode
  unfolding write_metadata imports_header_start imports_header_end types_header callbacks_header
      functions_header enums structs
  header_gens file_name meta imports types fptrs funcs = record {
    meta_gen = some (record no_hooks {
      file_start = write_metadata (map (meta_field xml) (xml.findall meta "MetaField"));
    });
    imports_gen = some (record no_hooks {
      file_start =
          imports_header_start file_name (map (import_of xml) (xml.findall imports "Import"));
      file_end = imports_header_end;
    });
    callbacks_gen = some (callbacks_header fptrs);
    types_gen = some (types_header (enums types) (structs types));
    functions_gen = some (functions_header funcs);
  }

  -- The generators for the source file; the functions are not printed there.
  source_gens : (String → Option String) → String → E → E → E → XmlToCode
  unfolding write_metadata imports_source_start imports_source_end types_source enums structs
  source_gens int namespace meta imports types = record {
    meta_gen = some (record no_hooks {
      file_start = write_metadata (map (meta_field xml) (xml.findall meta "MetaField"));
    });
    imports_gen = some (record no_hooks {
      file_start = imports_source_start (map (import_of xml) (xml.findall imports "Import"));
      file_end = imports_source_end;
    });
    callbacks_gen = some no_hooks;
    types_gen = some (types_source int namespace (enums types) (structs types));
    functions_gen = some no_hooks;
  }

  -- `InterfaceGen` of the C++ generator: the generators of the header and of the source file.
  unfoldable pub interface_gen :
      (String → Option String)
      → String
      → String
      → E
      → E
      → E
      → E
      → E
      → Result (XmlToCode × XmlToCode)
  unfolding functions header_gens source_gens
  interface_gen int file_name namespace meta imports types callbacks funcs =
      both (functions (xml.findall callbacks "FunctionPtr"))
        (functions (xml.findall funcs "Function"))
        (λ fptrs fs. (
          header_gens file_name meta imports types fptrs fs,
          source_gens int namespace meta imports types,
        ))
