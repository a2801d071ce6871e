-- ===== src/Generator/Cpp/Conversions.antt =====
-- The conversions that are printed for the fields of a struct.
use Prim.Native.String.{◌++◌}
use text.Mathlib.TextLemmas.{append-eq-nil_iff}
use sat_os_payload_sdk.Prelude.{
  String, Bool, true, false, ◌||◌, ◌≡◌, refl, Option, none, some, arith, ◌≢◌, str_eq_iff, str_eq, ℤ,
  pos, negsuc, if◌then◌else◌,
}
use sat_os_payload_sdk.Generator.Text.{show, Writes, write-Writes, then-Writes}
use sat_os_payload_sdk.Generator.Interface.{Field, is_text}
use sat_os_payload_sdk.Generator.Proto.{remap_type, array_of}
use sat_os_payload_sdk.Generator.Proto.Ranges.{
  IntType, int8, uint8, int16, uint16, int32, uint32, int64, uint64, type_name, is_value,
  is_signed_value, is_unsigned_value,
}
use sat_os_payload_sdk.Generator.Cpp.Fields.{
  indent, indent2, array, appint_type_to_peerint_type, get_app_to_peer_fn_for_type,
  print_app_to_peer_component,
}

-- The values of an integer type of the C++ library.
abbrev pub is_app_value : Option String → ℤ → Bool
is_app_value none v = false
is_app_value (some t) v =
    if str_eq t "INT32"
    then is_signed_value 2147483648 v
    else if str_eq t "UINT32"
    then is_unsigned_value 4294967296 v
    else if str_eq t "INT64"
    then is_signed_value 9223372036854775808 v
    else if str_eq t "UINT64"
    then is_unsigned_value 18446744073709551616 v
    else false

-- The variable that the printed C++ converts an integer through has a type with all the values of the
-- field's own type.
pub appint_type_to_peerint_type-holds :
    (t : IntType) (v : ℤ)
    → is_value t v ≡ true
    → is_app_value (appint_type_to_peerint_type (some (type_name t))) v ≡ true
unfolding appint_type_to_peerint_type
appint_type_to_peerint_type-holds int8 (pos n) h = ground (arith, h)
appint_type_to_peerint_type-holds int8 (negsuc n) h = ground (arith, h)
appint_type_to_peerint_type-holds uint8 (pos n) h = ground (arith, h)
appint_type_to_peerint_type-holds uint8 (negsuc n) h = ground (arith, h)
appint_type_to_peerint_type-holds int16 (pos n) h = ground (arith, h)
appint_type_to_peerint_type-holds int16 (negsuc n) h = ground (arith, h)
appint_type_to_peerint_type-holds uint16 (pos n) h = ground (arith, h)
appint_type_to_peerint_type-holds uint16 (negsuc n) h = ground (arith, h)
appint_type_to_peerint_type-holds int32 v h = h
appint_type_to_peerint_type-holds uint32 v h = h
appint_type_to_peerint_type-holds int64 v h = h
appint_type_to_peerint_type-holds uint64 v h = h

-- The wire type of an array is a text.
abbrev pub is_wire_text : Field → Bool
is_wire_text f = is_text (remap_type f.type (array_of f)).0 "string"

abbrev pub copy_text : Field → String
copy_text f = indent ++ "dst->set_" ++ show f.name ++ "(&src->" ++ show f.name ++ "[0]);\n\n"

abbrev pub loop_text : String → String → Field → String
loop_text namespace n f =
    (indent ++ "for (int i = 0; i < " ++ n ++ "; i++) { // " ++ show f.name ++ "\n")
    ++ (indent2
        ++ namespace
        ++ show (appint_type_to_peerint_type f.type)
        ++ " *dst_info = dst->mutable_"
        ++ show f.name
        ++ "(i);\n")
    ++ (indent2
        ++ get_app_to_peer_fn_for_type f.type
        ++ "(&src->"
        ++ show f.name
        ++ "[i], dst_info);\n")
    ++ (indent ++ "}\n")

bracketed-ne : (n : String) → str_eq ("[" ++ n ++ "]") "" ≡ false
bracketed-ne n =
    let ne : "[" ++ n ++ "]" ≢ "" = λ e.
      let sign = ((append-eq-nil_iff {p = "["}).0 e).0 in ground (arith, sign, str_eq_iff "[" "") in
    ground (arith, ne, str_eq_iff ("[" ++ n ++ "]") "")

-- For an array of integers the message has a text exactly if the type is INT8 or UINT8; the printed C++
-- sets a text for INT8 alone, and goes through the elements for all other types, also for UINT8.
pub print_app_to_peer-array :
    (namespace : String) (f : Field) (t : IntType) (n : String)
    → f.type ≡ some (type_name t)
    → f.array_xml ≡ some n
    → str_eq n "0" ≡ false
    → (is_wire_text f ≡ (is_text f.type "INT8" || is_text f.type "UINT8"))
      × Writes
          (print_app_to_peer_component namespace f)
          (if is_text f.type "INT8" then copy_text f else loop_text namespace n f)
unfolding print_app_to_peer_component array remap_type
print_app_to_peer-array namespace f int8 n is_type is_array is_long =
    rw (is_type, is_array, is_long, bracketed-ne n) (refl, write-Writes)
print_app_to_peer-array namespace f uint8 n is_type is_array is_long =
    rw (is_type, is_array, is_long, bracketed-ne n)
      (
        refl,
        then-Writes write-Writes (then-Writes write-Writes (then-Writes write-Writes write-Writes)),
      )
print_app_to_peer-array namespace f int16 n is_type is_array is_long =
    rw (is_type, is_array, is_long, bracketed-ne n)
      (
        refl,
        then-Writes write-Writes (then-Writes write-Writes (then-Writes write-Writes write-Writes)),
      )
print_app_to_peer-array namespace f uint16 n is_type is_array is_long =
    rw (is_type, is_array, is_long, bracketed-ne n)
      (
        refl,
        then-Writes write-Writes (then-Writes write-Writes (then-Writes write-Writes write-Writes)),
      )
print_app_to_peer-array namespace f int32 n is_type is_array is_long =
    rw (is_type, is_array, is_long, bracketed-ne n)
      (
        refl,
        then-Writes write-Writes (then-Writes write-Writes (then-Writes write-Writes write-Writes)),
      )
print_app_to_peer-array namespace f uint32 n is_type is_array is_long =
    rw (is_type, is_array, is_long, bracketed-ne n)
      (
        refl,
        then-Writes write-Writes (then-Writes write-Writes (then-Writes write-Writes write-Writes)),
      )
print_app_to_peer-array namespace f int64 n is_type is_array is_long =
    rw (is_type, is_array, is_long, bracketed-ne n)
      (
        refl,
        then-Writes write-Writes (then-Writes write-Writes (then-Writes write-Writes write-Writes)),
      )
print_app_to_peer-array namespace f uint64 n is_type is_array is_long =
    rw (is_type, is_array, is_long, bracketed-ne n)
      (
        refl,
        then-Writes write-Writes (then-Writes write-Writes (then-Writes write-Writes write-Writes)),
      )
