-- ===== src/Generator/Tests.antt =====
-- Concrete runs of the generators.
use Prim.Native.String.{count}
use sat_os_payload_sdk.Prelude.{
  map, String, true, false, ◌≡◌, ◌≢◌, refl, List, [], ◌∷◌, Option, none, some, arith, str_eq,
  str_eq_iff, pos, not, if◌then◌else◌,
}
use sat_os_payload_sdk.Exec.{ok}
use sat_os_payload_sdk.Generator.Text.{Writes, write, write-Writes, filter, replace}
use sat_os_payload_sdk.Generator.Agreement.{consumes, is_shared, struct-agree}
use sat_os_payload_sdk.Generator.Py.{py_struct}
use sat_os_payload_sdk.Generator.Proto.Files.{proto_struct}
use sat_os_payload_sdk.Generator.Interface.{
  ElementTree, check_applicability, EnumValue, Field, Struct, Function, field, function_return_type,
  get_return_type,
}
use sat_os_payload_sdk.Generator.Interface.Returns.{app, return_type_set}
use sat_os_payload_sdk.Generator.Interface.Phases.{Hooks, no_hooks, XmlToCode, go}
use sat_os_payload_sdk.Generator.Interface.Phases.Order.{Texts, no_texts, pass-Writes, go-Writes}
use sat_os_payload_sdk.Generator.Py
use sat_os_payload_sdk.Generator.Py.Conversions.{
  names_of, init_text, peer_to_app_text, app_to_peer_text, conversions-Writes,
}
use sat_os_payload_sdk.Generator.Proto
use sat_os_payload_sdk.Generator.Proto.Ranges.{
  uint8, uint32, type_name, is_wire_value, remap_type-range, too_large,
}
use sat_os_payload_sdk.Generator.Proto.Services.{rpc_text, write_function-Writes}
use sat_os_payload_sdk.Generator.Cpp
use sat_os_payload_sdk.Generator.Proto.Files as ProtoFiles
use sat_os_payload_sdk.Generator.Cpp.Fields.{print_app_to_peer_component}
use sat_os_payload_sdk.Generator.Cpp.Conversions.{is_wire_text, loop_text, print_app_to_peer-array}

-- The length of the comment lines, which the sources write as a product.
py_comment_line : count Py.comment_line ≡ 75
py_comment_line = refl

cpp_comment_line : count Cpp.comment_line ≡ 75
cpp_comment_line = refl

proto_comment_line : count Proto.comment_line ≡ 60
proto_comment_line = refl

-- A struct of the interface file with a field for both sides, one for the application and one for the peer.
data Element : Type 0 where
  the_struct shared own theirs : Element

abbrev attribute : Element → String → Option String
attribute the_struct a = if str_eq a "name" then some "Params" else none
attribute shared a =
    if str_eq a "name"
    then some "correlation_id"
    else if str_eq a "type"
    then some "UINT16"
    else none
attribute own a =
    if str_eq a "name"
    then some "note"
    else if str_eq a "consumed_by"
    then some "Application"
    else none
attribute theirs a =
    if str_eq a "name" then some "cookie" else if str_eq a "consumed_by" then some "Peer" else none

abbrev children : Element → String → List Element
children the_struct tag = if str_eq tag "Field" then shared ∷ own ∷ theirs ∷ [] else []
children _ tag = []

abbrev xml : ElementTree Element
xml = record { get = attribute; findall = children; find = λ e tag. none }

field_names : names_of (py_struct xml the_struct).fields ≡ "correlation_id" ∷ "note" ∷ []
unfolding py_struct check_applicability field
field_names = refl

struct-agree_example :
    let both = filter is_shared (map (field xml) (children the_struct "Field")) in
    (filter (consumes "Peer") (py_struct xml the_struct).fields ≡ both)
    × (filter (consumes "Application") (proto_struct xml the_struct).fields ≡ both)
struct-agree_example = struct-agree xml the_struct

return_type_set_example :
    (s : String) × (get_return_type
        (record { ret_app = some "INT32"; ret_peer = some "INT32" })
        "App"
      ≡ ok (some s))
    × (s ≢ "")
unfolding function_return_type check_applicability
return_type_set_example = return_type_set app none (some "INT32") none none refl refl

abbrev three_phases : Hooks
three_phases = record { file_start = write "a"; file_body = write "b"; file_end = write "c" }

abbrev three_texts : Texts
three_texts = record { start = "a"; body = "b"; end_ = "c" }

abbrev two_gens : XmlToCode
two_gens = record {
  meta_gen = some three_phases;
  imports_gen = none;
  callbacks_gen = none;
  types_gen = some three_phases;
  functions_gen = some no_hooks;
}

go-Writes_example : Writes (go two_gens) "aabbcc"
go-Writes_example =
    go-Writes two_gens three_texts no_texts no_texts three_texts no_texts
      (write-Writes, write-Writes, write-Writes) refl refl
      (write-Writes, write-Writes, write-Writes) (pass-Writes, pass-Writes, pass-Writes)

abbrev bytes : Option String → Field
bytes type = record {
  name = some "token";
  type = type;
  description = some "a token";
  sequence = some "3";
  consumed_by = none;
  array_xml = some "256";
}

abbrev two_fields : Struct
two_fields = record {
  name = some "Params";
  description = some "parameters";
  consumed_by = none;
  fields = (py_struct xml the_struct).fields;
}

conversions-Writes_example :
    Writes (Py.write_init two_fields) (init_text ("correlation_id" ∷ "note" ∷ []))
    × Writes
        (Py.write_peer_to_app two_fields)
        (peer_to_app_text "Params" ("correlation_id" ∷ "note" ∷ []))
    × Writes
        (Py.write_app_to_peer "antaris_api" two_fields)
        (app_to_peer_text "antaris_api" "Params" ("correlation_id" ∷ "note" ∷ []))
unfolding py_struct check_applicability field
conversions-Writes_example = conversions-Writes "antaris_api" two_fields (
  (λ e. ground (arith, e, str_eq_iff "correlation_id" "")),
  ((λ e. ground (arith, e, str_eq_iff "note" "")), tt),
)

abbrev no_values : List EnumValue
no_values = []

-- A UINT32 of all ones is no value of its wire type.
remap_type-range_example :
    is_wire_value (Proto.remap_type (some (type_name uint32)) "").0 (pos 4294967295)
    ≡ not (too_large uint32 (pos 4294967295))
remap_type-range_example = remap_type-range uint32 "" (pos 4294967295) refl refl

abbrev sequence_done : Function
sequence_done = record {
  name = some "api_pa_pc_sequence_done";
  description = some "a sequence is done";
  consumed_by = none;
  parameters =
      record {
        variable_name = some "channel";
        type = some "AntarisChannel *";
        description = none;
        consumed_by = none;
      }
      ∷ record {
        variable_name = some "n";
        type = some "UINT16";
        description = none;
        consumed_by = none;
      }
      ∷ [];
  return_spec = record { ret_app = some "AntarisReturnCode"; ret_peer = some "AntarisReturnType" };
}

abbrev placed_done : Proto.ProtoFunction
placed_done = record {
  function = sequence_done;
  mutated_name = some "api_pa_pc_sequence_done";
  parameters =
      record { modified_type = some "AntarisChannel"; is_first = true; is_last = false }
      ∷ record { modified_type = some "int32"; is_first = false; is_last = true }
      ∷ [];
}

write_function-Writes_example :
    Writes
      (Proto.write_function (record placed_done { mutated_name = some "PC_sequence_done" }))
      (rpc_text "PC_sequence_done" ("AntarisChannel" ∷ "int32" ∷ []) "AntarisReturnType")
unfolding Proto.proto_function Proto.place Proto.remap_type get_return_type
write_function-Writes_example =
    write_function-Writes sequence_done "PC_sequence_done" "AntarisReturnType" {pf = placed_done}
      refl refl

-- An array of UINT8 is a text on the wire, and the C++ goes through its elements.
print_app_to_peer-array_example :
    (is_wire_text (bytes (some "UINT8")) ≡ true)
    × Writes
        (print_app_to_peer_component "::antaris_api_peer_to_peer::" (bytes (some "UINT8")))
        (loop_text "::antaris_api_peer_to_peer::" "256" (bytes (some "UINT8")))
unfolding Proto.remap_type
print_app_to_peer-array_example =
    print_app_to_peer-array "::antaris_api_peer_to_peer::" (bytes (some "UINT8")) uint8 "256" refl
      refl refl

renamed_function : replace "api_pa_pc_sequence_done" "api_pa_pc_" "PC_" ≡ "PC_sequence_done"
unfolding replace
renamed_function = refl

service_name_of_file : ProtoFiles.service_from_filename "antaris_api" ≡ ok "Antarisapi"
unfolding ProtoFiles.service_from_filename
service_name_of_file = refl

include_guard : Cpp.guard_of "antaris_api.h" ≡ "ANTARIS_API_H"
unfolding Cpp.guard_of
include_guard = refl
