-- ===== src/Generator/Py.antt =====
-- py_generator.py: what it writes into the Python file.
pub mod Conversions
pub mod Enums
use Prim.Native.String.{◌++◌}
use sat_os_payload_sdk.Prelude.{
  ℕ, suc, ◌-◌, String, Bool, List, [], ◌∷◌, map, length, Option, none, some, ltb, str_eq,
  if◌then◌else◌,
}
use sat_os_payload_sdk.Exec.{Result, ok, raised, Exec, ◌>>=◌, ◌>>◌, pure}
use sat_os_payload_sdk.Generator.Text.{Writer, write, show, padded, for_each, filter}
use sat_os_payload_sdk.Generator.Interface.{
  ElementTree, check_applicability, MetaField, Import, EnumValue, Enum, Field, Struct, should_print,
  is_truthy, meta_field, import_of, enum, field, struct,
}
use sat_os_payload_sdk.Generator.Interface.Phases.{Hooks, no_hooks, pass, XmlToCode, go}

-- `gCommentLine`
abbrev pub comment_line : String
comment_line = "###########################################################################"

write_meta_field : MetaField → Writer
write_meta_field m = write (
    if is_truthy m.suppress_key
    then "#  " ++ show m.value ++ "\n\n"
    else "#  " ++ show m.name ++ ": " ++ show m.value ++ "\n\n")

write_metadata : List MetaField → Writer
unfolding write_meta_field
write_metadata fields = do
  write (comment_line ++ "\n")
  write "#\n"
  for_each write_meta_field fields
  write "#\n"
  write (comment_line ++ "\n\n\n")

write_import : Import → Writer
write_import i =
    if should_print i "Python" "Interface"
    then write ("from satos_payload_sdk.gen import " ++ show i.name ++ "\n")
    else pass

-- `PyEnumValue`
unfoldable pub write_enum_value : EnumValue → Writer
write_enum_value v =
    write ("    " ++ show v.name ++ " = " ++ show v.value ++ " # " ++ show v.description ++ "\n")

abbrev pub reverse_component : EnumValue → String
reverse_component v = show v.value ++ " : \"" ++ show v.name ++ "\""

-- The second loop of `PyEnum.declaration_file_body`, from an index on, where `n` values are in all.
unfoldable pub reverse_dict : ℕ → ℕ → List EnumValue → Writer
reverse_dict n index [] t = (ok tt, t)
reverse_dict n index (v ∷ values) t =
    (do
      write (reverse_component v)
      write (if ltb index (n - 1) then ", " else "}\n\n")
      reverse_dict n (suc index) values)
      t

unfoldable pub write_enum : Enum → Writer
unfolding write_enum_value reverse_dict
write_enum e = do
  write ("# ENUM: " ++ show e.name ++ " - " ++ show e.description ++ "\n")
  write ("class " ++ show e.name ++ ":\n")
  for_each write_enum_value e.enum_values
  write "\n\n    reverse_dict = {"
  reverse_dict (length e.enum_values) 0 e.enum_values
  write "\n\n"

-- The accumulation of `obj_constructor_params`.
unfoldable pub constructor_params : (Field → String) → String → List Field → String
constructor_params param acc [] = acc
constructor_params param acc (f ∷ fields) =
    constructor_params param (if str_eq acc "" then param f else acc ++ ", " ++ param f) fields

unfoldable pub write_peer_to_app : Struct → Writer
unfolding constructor_params
write_peer_to_app s = do
  write ("def peer_to_app_" ++ show s.name ++ "(peer_struct):\n")
  for_each (λ f. write ("    " ++ show f.name ++ " = peer_struct." ++ show f.name ++ "\n")) s.fields
  write (
      "    return "
      ++ show s.name
      ++ "("
      ++ constructor_params (λ f. show f.name) "" s.fields
      ++ ")\n\n")

unfoldable pub write_app_to_peer : String → Struct → Writer
unfolding constructor_params
write_app_to_peer namespace s = do
  write ("def app_to_peer_" ++ show s.name ++ "(app_struct):\n")
  write (
      "    return "
      ++ namespace
      ++ "_pb2."
      ++ show s.name
      ++ "("
      ++ constructor_params (λ f. show f.name ++ " = app_struct." ++ show f.name) "" s.fields
      ++ ")\n\n")

-- A documented parameter; a missing name or description raises.
write_param_doc : Field → Writer
write_param_doc f = do
  name ← padded 48 f.name
  description ← padded 48 f.description
  write ("## @param: " ++ name ++ ":    " ++ description ++ "\n")

unfoldable pub write_init : Struct → Writer
write_init s = do
  write "    def __init__(self"
  for_each (λ f. write (", " ++ show f.name)) s.fields
  write "):\n"
  for_each (λ f. write ("        self." ++ show f.name ++ " = " ++ show f.name ++ "\n")) s.fields
  write "\n"

write_str : Struct → Writer
write_str s = do
  write "    def __str__(self):\n"
  write "        ret_str = \"\"\n"
  for_each
      (λ f. (do
        write ("        ret_str += \"" ++ show f.name ++ ":\\n\"\n")
        write ("        ret_str += str(self." ++ show f.name ++ ") + \"\\n\"\n")))
      s.fields
  write "\n        return ret_str"
  write "\n\n"

write_fields : String → Struct → Writer
unfolding write_param_doc write_init write_str write_peer_to_app write_app_to_peer
write_fields namespace s = do
  write ("## @class: " ++ show s.name ++ "\n## @brief: " ++ show s.description ++ "\n")
  for_each write_param_doc s.fields
  write ("class " ++ show s.name ++ ":\n")
  write_init s
  write_str s
  write "    def display(self):\n"
  write "        print(str(self))\n\n"
  write_peer_to_app s
  write_app_to_peer namespace s

-- `PyStruct.declaration_file_body`: a struct without fields is passed over.
unfoldable pub write_struct : String → Struct → Writer
unfolding write_fields
write_struct namespace s = elim s.fields [ [] ↦ pass | f ∷ fs ↦ write_fields namespace s ]

module _ {E : Type 0} (xml : ElementTree E) where
  -- The enums and structs that the application consumes.
  unfoldable pub enums : E → List Enum
  enums types =
      filter (λ e. check_applicability e.consumed_by "Application")
        (map (enum xml) (xml.findall types "Enum"))

  -- `PyStruct`: the fields that the application consumes.
  unfoldable pub py_struct : E → Struct
  unfolding struct field check_applicability
  py_struct e = record (struct xml e) {
    fields =
        filter (λ f. check_applicability f.consumed_by "Application")
          (map (field xml) (xml.findall e "Field"));
  }

  unfoldable pub structs : E → List Struct
  structs types =
      filter (λ s. check_applicability s.consumed_by "Application")
        (map py_struct (xml.findall types "Struct"))

  meta_hooks : E → Hooks
  unfolding write_metadata
  meta_hooks meta = record no_hooks {
    file_start = write_metadata (map (meta_field xml) (xml.findall meta "MetaField"));
  }

  imports_hooks : E → Hooks
  unfolding write_import
  imports_hooks imports = record no_hooks {
    file_start = for_each write_import (map (import_of xml) (xml.findall imports "Import"));
  }

  types_hooks : String → E → Hooks
  unfolding enums structs write_enum write_struct
  types_hooks namespace types = record no_hooks {
    file_body = (do
      write "\n# >>>> Data Types <<<<<\n\n"
      for_each write_enum (enums types)
      for_each (write_struct namespace) (structs types));
  }

  -- `InterfaceGen`, from the nodes of the interface file.
  unfoldable pub interface_gen : String → E → E → E → XmlToCode
  unfolding meta_hooks imports_hooks types_hooks
  interface_gen namespace meta imports types = record {
    meta_gen = some (meta_hooks meta);
    imports_gen = some (imports_hooks imports);
    callbacks_gen = some no_hooks;
    types_gen = some (types_hooks namespace types);
    functions_gen = some no_hooks;
  }

  -- The text of the Python file.
  unfoldable pub generate : String → E → E → E → Writer
  unfolding interface_gen go
  generate namespace meta imports types = go (interface_gen namespace meta imports types)
