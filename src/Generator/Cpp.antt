-- ===== src/Generator/Cpp.antt =====
-- cpp_generator.py: what it writes into the header and into the source file. Python's
-- `int` is given.
pub mod Fields
pub mod Functions
pub mod Files
pub mod Conversions
use Prim.Native.String.{◌++◌}
use sat_os_payload_sdk.Prelude.{
  String, Bool, true, false, List, [], ◌∷◌, map, Option, none, some, if◌then◌else◌,
}
use sat_os_payload_sdk.Exec.{Result, ok, raised, Exec, ◌>>=◌, ◌>>◌}
use sat_os_payload_sdk.Generator.Text.{
  upper, replace, Writer, write, show, padded, for_each, filter,
}
use sat_os_payload_sdk.Generator.Interface.{
  ElementTree, check_applicability, MetaField, Import, EnumValue, Enum, Field, Struct, Function,
  should_print, is_truthy, meta_field, import_of, enum, struct, function,
}
use sat_os_payload_sdk.Generator.Interface.Phases.{Hooks, no_hooks, pass, XmlToCode}
use sat_os_payload_sdk.Generator.Cpp.Fields.{
  indent, get_display_fn_for_type, get_app_to_peer_fn_for_type, get_peer_to_app_fn_for_type,
  write_field, print_display_component, print_app_to_peer_component, print_peer_to_app_component,
  print_peer_tmp_local_var,
}
use sat_os_payload_sdk.Generator.Cpp.Functions.{write_function_ptr, write_function}

-- `gCommentLine`
abbrev pub comment_line : String
comment_line = "///////////////////////////////////////////////////////////////////////////"

write_meta_field : MetaField → Writer
write_meta_field m = write (
    if is_truthy m.suppress_key
    then "///  " ++ show m.value ++ "\n\n"
    else "///  " ++ show m.name ++ ": " ++ show m.value ++ "\n\n")

pub write_metadata : List MetaField → Writer
unfolding write_meta_field
write_metadata fields = do
  write (comment_line ++ "\n")
  write "///\n"
  for_each write_meta_field fields
  write "///\n"
  write (comment_line ++ "\n\n\n")

-- `CPPImport.declaration_file_start` and `source_file_start`, which include for another part.
write_include : String → Import → Writer
write_include part i =
    if should_print i "Cpp" part then write ("#include \"" ++ show i.name ++ "\"\n") else pass

-- The include guard for the name of the header.
unfoldable pub guard_of : String → String
unfolding replace
guard_of file_name = replace (replace (upper file_name) "-" "_") "." "_"

pub imports_header_start : String → List Import → Writer
unfolding write_include guard_of
imports_header_start file_name imports = do
  let guard = guard_of file_name
  write ("\n#ifndef __AUTOGEN_" ++ guard ++ "__\n#define __AUTOGEN_" ++ guard ++ "__\n\n")
  for_each (write_include "Interface") imports
  write "\n#ifdef __cplusplus\nextern \"C\" {\n#endif\n\n"

pub imports_header_end : Writer
imports_header_end = do
  write "\n#ifdef __cplusplus\n} // extern C\n#endif\n\n"
  write "\n\n#endif\n"

pub imports_source_start : List Import → Writer
unfolding write_include
imports_source_start imports = do
  for_each (write_include "Lib") imports
  write "\nextern \"C\" {\n\n"

pub imports_source_end : Writer
imports_source_end = write "\n} // extern \"C\"\n\n"

write_enum_value : EnumValue → Writer
write_enum_value v = do
  name ← padded 32 v.name
  enum_string ← padded 32 (some (show v.value ++ ","))
  write ("    " ++ name ++ " = " ++ enum_string ++ " ///< " ++ show v.description ++ "\n")

-- `CPPEnum.declaration_file_start`
unfoldable pub enum_declaration : Enum → Writer
unfolding write_enum_value get_display_fn_for_type get_app_to_peer_fn_for_type
    get_peer_to_app_fn_for_type
enum_declaration e = do
  write ("/// @enum " ++ show e.name ++ "\n/// @brief " ++ show e.description ++ "\n")
  write ("typedef enum " ++ show e.name ++ " {\n")
  for_each write_enum_value e.enum_values
  write ("} " ++ show e.name ++ ";\n\n")
  write ("void " ++ get_display_fn_for_type e.name ++ "(void *obj);\n")
  write (
      "void " ++ get_app_to_peer_fn_for_type e.name ++ "(void *ptr_src_app, void *ptr_dst_peer);\n")
  write (
      "void "
      ++ get_peer_to_app_fn_for_type e.name
      ++ "(void *ptr_src_peer, void *ptr_dst_app);\n\n")

enum_app_to_peer : Enum → Writer
unfolding get_app_to_peer_fn_for_type
enum_app_to_peer e = do
  let name = show e.name
  write (
      "void\n"
      ++ get_app_to_peer_fn_for_type e.name
      ++ "(void *ptr_src_app, void *ptr_dst_peer)\n{\n")
  write (indent ++ name ++ " *src = (" ++ name ++ " *)ptr_src_app;\n")
  write (indent ++ name ++ " *dst = (" ++ name ++ " *)ptr_dst_peer;\n\n")
  write (indent ++ "*dst = *src;\n")
  write "\n}\n\n"

-- `CPPEnum.source_file_body`
unfoldable pub enum_source : Enum → Writer
unfolding enum_app_to_peer get_display_fn_for_type
enum_source e = do
  write ("void\n" ++ get_display_fn_for_type e.name ++ "(void *obj)\n{\n")
  write (indent ++ "printf(\"%s => %d\\n\", \"" ++ show e.name ++ "\", *(INT32 *)obj);\n")
  write "}\n\n"
  (if check_applicability e.consumed_by "Peer" then enum_app_to_peer e else pass)

-- `CPPStruct.declaration_file_start`
pub struct_forward : Struct → Writer
struct_forward s =
    let name = show s.name in
    write ("struct " ++ name ++ ";\ntypedef struct " ++ name ++ " " ++ name ++ ";\n\n")

-- `CPPStruct.declaration_file_body`
unfoldable pub struct_declaration : Struct → Writer
unfolding write_field get_display_fn_for_type get_app_to_peer_fn_for_type
    get_peer_to_app_fn_for_type
struct_declaration s = do
  write ("/// @struct " ++ show s.name ++ "\n/// @brief " ++ show s.description ++ "\n")
  write ("struct " ++ show s.name ++ " {\n")
  for_each write_field s.fields
  write "};\n\n"
  write ("void " ++ get_display_fn_for_type s.name ++ "(const void *obj);\n")
  (if check_applicability s.consumed_by "Peer"
      then (do
        write (
            "void "
            ++ get_app_to_peer_fn_for_type s.name
            ++ "(const void *ptr_src_app, void *ptr_dst_peer);\n")
        write (
            "void "
            ++ get_peer_to_app_fn_for_type s.name
            ++ "(const void *ptr_src_peer, void *ptr_dst_app);\n\n"))
      else pass)

-- The three functions of `CPPStruct.source_file_body`.
unfoldable pub struct_display : Struct → Writer
unfolding get_display_fn_for_type print_display_component
struct_display s = do
  let name = show s.name
  write ("void\n" ++ get_display_fn_for_type s.name ++ "(const void *obj)\n{\n")
  write (indent ++ name ++ " *p = (" ++ name ++ " *)obj;\n\n")
  write (indent ++ "printf(\"" ++ name ++ " %p =>\\n\", obj);\n\n")
  for_each print_display_component s.fields
  write "\n}\n\n"

unfoldable pub struct_app_to_peer : String → Struct → Writer
unfolding get_app_to_peer_fn_for_type print_peer_tmp_local_var print_app_to_peer_component
struct_app_to_peer namespace s = do
  let name = show s.name
  let peer_name = namespace ++ name
  write (
      "void\n"
      ++ get_app_to_peer_fn_for_type s.name
      ++ "(const void *ptr_src_app, void *ptr_dst_peer)\n{\n")
  write (indent ++ name ++ " *src = (" ++ name ++ " *)ptr_src_app;\n")
  write (indent ++ peer_name ++ " *dst = (" ++ peer_name ++ " *)ptr_dst_peer;\n\n")
  for_each print_peer_tmp_local_var s.fields
  write "\n"
  for_each (print_app_to_peer_component namespace) s.fields
  write "\n}\n\n"

unfoldable pub struct_peer_to_app : (String → Option String) → String → Struct → Writer
unfolding get_peer_to_app_fn_for_type print_peer_to_app_component
struct_peer_to_app int namespace s = do
  let name = show s.name
  let peer_name = namespace ++ name
  write (
      "void\n"
      ++ get_peer_to_app_fn_for_type s.name
      ++ "(const void *ptr_src_peer, void *ptr_dst_app)\n{\n")
  write (indent ++ name ++ " *dst = (" ++ name ++ " *)ptr_dst_app;\n")
  write (indent ++ peer_name ++ " *src = (" ++ peer_name ++ " *)ptr_src_peer;\n\n")
  for_each (print_peer_to_app_component int namespace) s.fields
  write "\n}\n\n"

unfoldable pub struct_source : (String → Option String) → String → Struct → Writer
unfolding struct_display struct_app_to_peer struct_peer_to_app
struct_source int namespace s = do
  struct_display s
  (if check_applicability s.consumed_by "Peer"
      then (do struct_app_to_peer namespace s; struct_peer_to_app int namespace s)
      else pass)
