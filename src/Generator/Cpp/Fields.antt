-- ===== src/Generator/Cpp/Fields.antt =====
-- cpp_generator.py: what is printed for a field of a struct. Python's `int` is given with the text
-- of its result.
use Prim.Native.String.{◌++◌}
use sat_os_payload_sdk.Prelude.{
  String, Bool, false, not, ◌&&◌, ◌||◌, List, [], ◌∷◌, Option, none, some, str_eq, if◌then◌else◌,
}
use sat_os_payload_sdk.Exec.{value_error, ◌>>=◌, ◌>>◌, or_raise}
use sat_os_payload_sdk.Generator.Text.{Writer, write, show, padded, is_in}
use sat_os_payload_sdk.Generator.Interface.{Field, is_text}
use sat_os_payload_sdk.Generator.Interface.Phases.{pass}

-- `gIndent`, and `gIndent * 2`
abbrev pub indent : String
indent = "    "

abbrev pub indent2 : String
indent2 = indent ++ indent

unfoldable pub get_display_fn_for_type : Option String → String
get_display_fn_for_type a_type = "display" ++ show a_type

unfoldable pub get_app_to_peer_fn_for_type : Option String → String
get_app_to_peer_fn_for_type a_type = "app_to_peer_" ++ show a_type

unfoldable pub get_peer_to_app_fn_for_type : Option String → String
get_peer_to_app_fn_for_type a_type = "peer_to_app_" ++ show a_type

abbrev pub native_types : List String
native_types =
    "INT8" ∷ "UINT8" ∷ "INT16" ∷ "UINT16" ∷ "INT32" ∷ "UINT32" ∷ "INT64" ∷ "UINT64" ∷ "FLOAT" ∷ []

unfoldable pub is_native_type : Option String → Bool
is_native_type none = false
is_native_type (some t) = is_in t native_types

-- The type that a variable of the other side has in C++.
unfoldable pub appint_type_to_peerint_type : Option String → Option String
appint_type_to_peerint_type none = none
appint_type_to_peerint_type (some t) =
    if str_eq t "INT8" || str_eq t "INT16"
    then some "INT32"
    else if str_eq t "UINT8" || str_eq t "UINT16"
    then some "UINT32"
    else some t

-- `CPPField.array`
unfoldable pub array : Field → String
array f = elim f.array_xml [
  | none ↦ ""
  | some n ↦ if not (str_eq n "0") then "[" ++ n ++ "]" else ""
]

-- `self.array[1:-1]`
abbrev pub array_length : Field → String
array_length f = elim f.array_xml [ none ↦ "" | some n ↦ if not (str_eq n "0") then n else "" ]

abbrev pub get_peer_local_tmp_varname : Field → String
get_peer_local_tmp_varname f = "__tmp_" ++ show f.name

unfoldable pub write_field : Field → Writer
unfolding array
write_field f = do
  type ← padded 48 f.type
  field_string ← padded 48 (some (show f.name ++ array f ++ ";"))
  write ("    " ++ type ++ field_string ++ " ///< @var " ++ show f.description ++ "\n")

unfoldable pub print_display_component : Field → Writer
unfolding array get_display_fn_for_type
print_display_component f = do
  let shown = get_display_fn_for_type f.type ++ "((void *)&p->" ++ show f.name
  write (indent ++ "printf(\"" ++ show f.name ++ " ==>\\n\");\n")
  (if str_eq (array f) "" then write (indent ++ shown ++ ");\n") else (do
    write (indent ++ "for (int i = 0; i < " ++ show f.array_xml ++ "; i++) {\n")
    write (indent2 ++ shown ++ "[i]);\n")
    write (indent ++ "}\n\n")))

abbrev peer_cast : String → Field → String
peer_cast namespace f = if is_native_type f.type then "" else "(" ++ namespace ++ show f.type ++ ")"

-- An array of INT8 is a text, any other array a repeated field.
unfoldable pub print_app_to_peer_component : String → Field → Writer
unfolding array get_app_to_peer_fn_for_type is_native_type appint_type_to_peerint_type
print_app_to_peer_component namespace f =
    let name = show f.name in
    let tmp = get_peer_local_tmp_varname f in
    let convert = get_app_to_peer_fn_for_type f.type in
    if str_eq (array f) ""
    then (do
      write (indent ++ convert ++ "(&src->" ++ name ++ ", &" ++ tmp ++ "); // " ++ name ++ "\n\n")
      write (indent ++ "dst->set_" ++ name ++ "(" ++ peer_cast namespace f ++ tmp ++ ");\n\n"))
    else if not (is_text f.type "INT8")
    then (do
      write (indent ++ "for (int i = 0; i < " ++ show f.array_xml ++ "; i++) { // " ++ name ++ "\n")
      write (
          indent2
          ++ namespace
          ++ show (appint_type_to_peerint_type f.type)
          ++ " *dst_info = dst->mutable_"
          ++ name
          ++ "(i);\n")
      write (indent2 ++ convert ++ "(&src->" ++ name ++ "[i], dst_info);\n")
      write (indent ++ "}\n"))
    else write (indent ++ "dst->set_" ++ name ++ "(&src->" ++ name ++ "[0]);\n\n")

abbrev app_cast : Field → String
app_cast f = if is_native_type f.type then "" else "(" ++ show f.type ++ ")"

-- The copy of a text, which the printed code refuses if it is as long as the array.
print_string_to_app : Field → String → Writer
print_string_to_app f strlength = do
  let name = show f.name
  write (
      indent ++ "size_t " ++ name ++ "_length = strnlen(src->" ++ name ++ "().c_str(), "
      ++ strlength ++ ");\n")
  write (indent ++ "if ( " ++ name ++ "_length >= " ++ strlength ++ " ) {\n")
  write (
      indent ++ indent ++ "printf(\"Error:  " ++ name ++ "_length should be less than " ++ strlength
      ++ " \\n\");\n")
  write (indent ++ indent ++ "return;\n")
  write (indent ++ "}\n")
  write (
      indent ++ "strncpy(&dst->" ++ name ++ "[0], src->" ++ name ++ "().c_str(), " ++ strlength
      ++ ");\n")

unfoldable pub print_peer_to_app_component : (String → Option String) → String → Field → Writer
unfolding array get_peer_to_app_fn_for_type is_native_type appint_type_to_peerint_type
    print_string_to_app
print_peer_to_app_component int namespace f =
    let name = show f.name in
    let peer_type = show (appint_type_to_peerint_type f.type) in
    if str_eq (array f) ""
    then write (indent ++ "dst->" ++ name ++ " = " ++ app_cast f ++ "src->" ++ name ++ "();\n")
    else if not (is_text f.type "INT8")
    then (do
      write (indent ++ "for (int i = 0; i < " ++ show f.array_xml ++ "; i++) { // " ++ name ++ "\n")
      write (
          indent2 ++ "const " ++ namespace ++ peer_type ++ " &src_info = src->" ++ name ++ "(i);\n")
      write (indent2 ++ peer_type ++ " *dst_info = &dst->" ++ name ++ "[i];\n\n")
      write (indent2 ++ get_peer_to_app_fn_for_type f.type ++ "(&src_info, dst_info);\n")
      write (indent ++ "}\n"))
    else (do
      strlength ← or_raise (int (array_length f)) value_error
      print_string_to_app f strlength)

-- The variable for the converted value; a text has none.
unfoldable pub print_peer_tmp_local_var : Field → Writer
unfolding array appint_type_to_peerint_type
print_peer_tmp_local_var f =
    if not (str_eq (array f) "") && is_text f.type "INT8"
    then pass
    else write (
        indent
        ++ show (appint_type_to_peerint_type f.type)
        ++ " "
        ++ get_peer_local_tmp_varname f
        ++ ";\n")
