-- ===== src/Generator/Proto.antt =====
-- proto_generator.py: what it writes into the protobuf file.
pub mod Ranges
pub mod Services
pub mod Files
use Prim.Native.String.{◌++◌}
use text.Mathlib.Text.{starts_with}
use sat_os_payload_sdk.Prelude.{
  ℕ, suc, ◌-◌, ◌==◌, String, Bool, true, false, ◌&&◌, ◌||◌, List, [], ◌∷◌, map, length, Option,
  none, some, str_eq, if◌then◌else◌,
}
use sat_os_payload_sdk.Exec.{
  Error, Result, ok, raised, attribute_error, name_error, system_exit, Exec, ◌>>=◌, ◌>>◌, pure,
}
use sat_os_payload_sdk.Generator.Text.{
  Writer, write, show, padded, for_each, filter, is_in, ends_with, replace, first_word,
}
use sat_os_payload_sdk.Generator.Interface.{
  ElementTree, check_applicability, MetaField, Import, EnumValue, Enum, Field, Struct, FuncParam,
  Function, func_param, get_return_type, should_print, is_truthy, meta_field, import_of, enum,
  struct, function,
}
use sat_os_payload_sdk.Generator.Interface.Phases.{Hooks, no_hooks, pass, XmlToCode, go}

abbrev pub comment_line : String
comment_line = "////////////////////////////////////////////////////////////"

-- `type in [...]`
abbrev pub one_of : Option String → List String → Bool
one_of none l = false
one_of (some t) l = is_in t l

abbrev pub int_types : List String
int_types = "INT8" ∷ "UINT8" ∷ "INT16" ∷ "UINT16" ∷ "INT32" ∷ "UINT32" ∷ []

-- The type and the array marker of protobuf; an array of bytes becomes a string.
unfoldable pub remap_type : Option String → String → Option String × String
remap_type type array =
    if one_of type ("INT8" ∷ "UINT8" ∷ []) && str_eq array "repeated"
    then (some "string", "")
    else if one_of type int_types
    then (some "int32", array)
    else if one_of type ("INT64" ∷ "UINT64" ∷ [])
    then (some "int64", array)
    else if one_of type ("FLOAT" ∷ [])
    then (some "float", array)
    else (type, array)

-- `ProtoField.array`
abbrev pub array_of : Field → String
array_of f = elim f.array_xml [ none ↦ "" | some n ↦ if str_eq n "0" then "" else "repeated" ]

write_meta_field : MetaField → Writer
write_meta_field m = write (
    if is_truthy m.suppress_key
    then "//  " ++ show m.value ++ "\n\n"
    else "//  " ++ show m.name ++ ": " ++ show m.value ++ "\n\n")

unfoldable pub write_metadata : List MetaField → Writer
unfolding write_meta_field
write_metadata fields = do
  write (comment_line ++ "\n")
  write "//\n"
  for_each write_meta_field fields
  write "//\n"
  write (comment_line ++ "\n\n\n")

write_import : Import → Writer
write_import i =
    if should_print i "Proto" "Interface"
    then write ("import \"" ++ show i.name ++ "\";\n")
    else pass

unfoldable pub write_imports : String → List Import → Writer
unfolding write_import
write_imports base_file_name imports = do
  write "\nsyntax = \"proto3\";\n\n"
  for_each write_import imports
  write ("\npackage " ++ base_file_name ++ "_peer_to_peer;\n\n")

write_enum_value : EnumValue → Writer
write_enum_value v = do
  name ← padded 32 v.name
  write ("    " ++ name ++ " = " ++ show v.value ++ "; // " ++ show v.description ++ "\n")

unfoldable pub write_enum : Enum → Writer
unfolding write_enum_value
write_enum e = do
  write ("enum " ++ show e.name ++ " {\n")
  for_each write_enum_value e.enum_values
  write "}\n\n"

unfoldable pub write_field : Field → Writer
unfolding remap_type
write_field f = do
  let (type, array) = remap_type f.type (array_of f)
  typed ← padded 32 (if str_eq array "" then type else some (array ++ " " ++ show type))
  name ← padded 16 f.name
  write
      ("    " ++ typed ++ name ++ " = " ++ show f.sequence ++ "; // " ++ show f.description ++ "\n")

unfoldable pub write_struct : Struct → Writer
unfolding write_field
write_struct s = do
  write ("message " ++ show s.name ++ " {\n")
  for_each write_field s.fields
  write "}\n\n"

-- A parameter with its place in the list that is kept, and its type in protobuf.
pub record ProtoFuncParam : Type 0 where
  pub modified_type : Option String
  pub is_first : Bool
  pub is_last : Bool

-- `get_typename_without_pointer` of a missing type raises.
abbrev pub modified : Option String → Result (Option String)
modified none = raised attribute_error
modified (some t) = ok (remap_type (some (first_word t)) "").0

pub record ProtoFunction : Type 0 where
  pub function : Function
  pub mutated_name : Option String
  pub parameters : List ProtoFuncParam

-- The second loop of `ProtoFunction.__init__`, over the list of `n` parameters from an index on.
unfoldable pub place : ℕ → ℕ → List FuncParam → Result (List ProtoFuncParam)
place n index [] = ok []
place n index (p ∷ params) =
    let rest = place n (suc index) params in
    elim (modified p.type) [
      | raised e ↦ raised e
      | ok type ↦ elim rest [
        | raised e ↦ raised e
        | ok placed ↦ ok (
            record { modified_type = type; is_first = index == 0; is_last = suc index == n }
            ∷ placed)
      ]
    ]

unfoldable pub proto_function : Function → Result ProtoFunction
unfolding place remap_type
proto_function f = elim (place (length f.parameters) 0 f.parameters) [
  | raised e ↦ raised e
  | ok placed ↦ ok (record { function = f; mutated_name = f.name; parameters = placed })
]

unfoldable pub write_param : ProtoFuncParam → Writer
write_param p = write (if p.is_last then show p.modified_type else show p.modified_type ++ ", ")

-- The text of `get_return_type(...)`, which may end the program.
abbrev pub return_text : Result (Option String) → Exec String String
return_text (raised e) t = (raised e, t)
return_text (ok o) t = (ok (show o), t)

unfoldable pub write_function : ProtoFunction → Writer
unfolding write_param get_return_type
write_function f = do
  write ("    rpc " ++ show f.mutated_name ++ "(")
  for_each write_param f.parameters
  ret ← return_text (get_return_type f.function.return_spec "Peer")
  write (") returns (" ++ ret ++ ") {}\n")

abbrev pub write_service : String → List ProtoFunction → Writer
write_service name functions = do
  write ("service " ++ name ++ " {\n")
  for_each write_function functions
  write "}\n\n"
