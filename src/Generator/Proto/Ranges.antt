-- ===== src/Generator/Proto/Ranges.antt =====
-- Whether the values of the interface's integer types fit into the types of the wire.
use sat_os_payload_sdk.Prelude.{
  ℕ, String, Bool, true, false, not, ◌≡◌, Option, none, some, arith, ltb, str_eq, ℤ, pos, negsuc,
  if◌then◌else◌,
}
use sat_os_payload_sdk.Generator.Proto.{remap_type}

-- The integer types that the interface file may name.
pub data IntType : Type 0 where
  int8 uint8 int16 uint16 int32 uint32 int64 uint64 : IntType

abbrev pub type_name : IntType → String
type_name int8 = "INT8"
type_name uint8 = "UINT8"
type_name int16 = "INT16"
type_name uint16 = "UINT16"
type_name int32 = "INT32"
type_name uint32 = "UINT32"
type_name int64 = "INT64"
type_name uint64 = "UINT64"

-- Numbers between -half and half - 1, and between 0 and all - 1.
abbrev pub is_signed_value : ℕ → ℤ → Bool
is_signed_value half (pos n) = ltb n half
is_signed_value half (negsuc n) = ltb n half

abbrev pub is_unsigned_value : ℕ → ℤ → Bool
is_unsigned_value all (pos n) = ltb n all
is_unsigned_value all (negsuc n) = false

abbrev pub is_value : IntType → ℤ → Bool
is_value int8 v = is_signed_value 128 v
is_value uint8 v = is_unsigned_value 256 v
is_value int16 v = is_signed_value 32768 v
is_value uint16 v = is_unsigned_value 65536 v
is_value int32 v = is_signed_value 2147483648 v
is_value uint32 v = is_unsigned_value 4294967296 v
is_value int64 v = is_signed_value 9223372036854775808 v
is_value uint64 v = is_unsigned_value 18446744073709551616 v

-- The values of a type of protobuf.
abbrev pub is_wire_value : Option String → ℤ → Bool
is_wire_value none v = false
is_wire_value (some t) v =
    if str_eq t "int32"
    then is_signed_value 2147483648 v
    else if str_eq t "int64"
    then is_signed_value 9223372036854775808 v
    else false

-- The unsigned types whose values the wire type covers by half, with that half.
abbrev pub too_large : IntType → ℤ → Bool
too_large uint32 v = not (is_signed_value 2147483648 v)
too_large uint64 v = not (is_signed_value 9223372036854775808 v)
too_large _ v = false

-- A value of an integer type is a value of the type that the field has on the wire, except for the
-- upper halves of UINT32 and UINT64, which the signed wire types do not have.
pub remap_type-range :
    (t : IntType) (array : String) (v : ℤ)
    → str_eq array "repeated" ≡ false
    → is_value t v ≡ true
    → is_wire_value (remap_type (some (type_name t)) array).0 v ≡ not (too_large t v)
unfolding remap_type
remap_type-range int8 array (pos n) single h = ground (arith, single, h)
remap_type-range int8 array (negsuc n) single h = ground (arith, single, h)
remap_type-range uint8 array (pos n) single h = ground (arith, single, h)
remap_type-range uint8 array (negsuc n) single h = ground (arith, single, h)
remap_type-range int16 array (pos n) single h = ground (arith, h)
remap_type-range int16 array (negsuc n) single h = ground (arith, h)
remap_type-range uint16 array (pos n) single h = ground (arith, h)
remap_type-range uint16 array (negsuc n) single h = ground (arith, h)
remap_type-range int32 array (pos n) single h = ground (arith, h)
remap_type-range int32 array (negsuc n) single h = ground (arith, h)
remap_type-range int64 array (pos n) single h = ground (arith, h)
remap_type-range int64 array (negsuc n) single h = ground (arith, h)
remap_type-range t array v single h = ground (arith, h)
