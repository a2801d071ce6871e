-- ===== src/Generator/Interface.antt =====
-- parser_interface.py: the interface file as objects. The XML library is not part of the repository:
-- an element is opaque, and the library answers its attributes and its children with a tag.
pub mod Returns
pub mod Phases
pub mod Paths
use sat_os_payload_sdk.Prelude.{
  String, Bool, true, false, not, ◌&&◌, ◌||◌, List, [], ◌∷◌, map, Option, none, some, is_some,
  str_eq, if◌then◌else◌,
}
use sat_os_payload_sdk.Exec.{Result, ok, raised, system_exit, Exec, ◌>>=◌, ◌>>◌, pure}
use sat_os_payload_sdk.Generator.Text.{Writer, filter}

-- `element.get(attribute)`, `element.findall(tag)` and `element.find(tag)`.
pub record ElementTree (E : Type 0) : Type 0 where
  pub get : E → String → Option String
  pub findall : E → String → List E
  pub find : E → String → Option E

-- `Generator.check_applicability`
unfoldable pub check_applicability : Option String → String → Bool
check_applicability none interface = true
check_applicability (some consumed_by) interface =
    str_eq consumed_by "All" || str_eq consumed_by interface

-- An attribute that is the empty text counts as missing.
abbrev pub nonempty : Option String → Option String
nonempty none = none
nonempty (some s) = if str_eq s "" then none else some s

abbrev pub first_of : Option String → Option String → Option String
first_of (some s) other = some s
first_of none other = other

pub record FunctionReturnType : Type 0 where
  pub ret_app : Option String
  pub ret_peer : Option String

-- One side of `FunctionReturnType.__init__`: the type for that side, if the side is asked for.
pub one_side : Bool → Option String → Option String → Result (Option String)
one_side false ret ret_side = ok none
one_side true ret ret_side =
    if is_some ret || is_some ret_side then ok (first_of ret_side ret) else raised system_exit

abbrev pub both_sides : Result (Option String) → Result (Option String) → Result FunctionReturnType
both_sides (raised e) peer = raised e
both_sides (ok app) (raised e) = raised e
both_sides (ok app) (ok peer) = ok (record { ret_app = app; ret_peer = peer })

abbrev pub consumer : Option String → String
consumer none = "All"
consumer (some s) = if str_eq s "" then "All" else s

-- Whether the side is asked for.
abbrev pub needed : Option String → String → Bool
needed consumed_by side = str_eq (consumer consumed_by) "All" || str_eq (consumer consumed_by) side

unfoldable pub function_return_type :
    Option String → Option String → Option String → Option String → Result FunctionReturnType
unfolding one_side
function_return_type consumed_by return_type return_type_peer return_type_app =
    let ret = nonempty return_type in
    let ret_peer = nonempty return_type_peer in
    let ret_app = nonempty return_type_app in
    if (is_some ret_peer || is_some ret_app) && is_some ret
    then raised system_exit
    else both_sides (one_side (needed consumed_by "Application") ret ret_app)
        (one_side (needed consumed_by "Peer") ret ret_peer)

unfoldable pub get_return_type : FunctionReturnType → String → Result (Option String)
get_return_type r interface =
    if str_eq interface "App"
    then ok r.ret_app
    else if str_eq interface "Peer"
    then ok r.ret_peer
    else raised system_exit

pub record MetaField : Type 0 where
  pub name : Option String
  pub value : Option String
  pub suppress_key : Option String

pub record Import : Type 0 where
  pub name : Option String
  pub include_in : Option String
  pub language : Option String

pub record EnumValue : Type 0 where
  pub name : Option String
  pub description : Option String
  pub value : Option String

pub record Enum : Type 0 where
  pub name : Option String
  pub description : Option String
  pub consumed_by : Option String
  pub enum_values : List EnumValue

pub record Field : Type 0 where
  pub name : Option String
  pub type : Option String
  pub description : Option String
  pub sequence : Option String
  pub consumed_by : Option String
  pub array_xml : Option String

pub record Struct : Type 0 where
  pub name : Option String
  pub description : Option String
  pub consumed_by : Option String
  pub fields : List Field

pub record FuncParam : Type 0 where
  pub variable_name : Option String
  pub type : Option String
  pub description : Option String
  pub consumed_by : Option String

-- A `Function` or a `FunctionPtr`.
pub record Function : Type 0 where
  pub name : Option String
  pub description : Option String
  pub consumed_by : Option String
  pub parameters : List FuncParam
  pub return_spec : FunctionReturnType

-- `attribute == text`, where the attribute may be None.
abbrev pub is_text : Option String → String → Bool
is_text none t = false
is_text (some s) t = str_eq s t

-- `Import.should_print`
unfoldable pub should_print : Import → String → String → Bool
should_print i lang interface =
    if not (is_text i.language lang) && not (is_text i.language "All")
    then false
    else not (not (is_text i.include_in interface) && not (is_text i.include_in "All"))

-- `if self.suppress_key:`
abbrev pub is_truthy : Option String → Bool
is_truthy none = false
is_truthy (some s) = not (str_eq s "")

module _ {E : Type 0} (xml : ElementTree E) where
  unfoldable pub meta_field : E → MetaField
  meta_field e = record {
    name = xml.get e "name";
    value = xml.get e "value";
    suppress_key = xml.get e "suppress_key";
  }

  unfoldable pub import_of : E → Import
  import_of e = record {
    name = xml.get e "name";
    include_in = xml.get e "include_in";
    language = xml.get e "language";
  }

  unfoldable pub enum_value : E → EnumValue
  enum_value e = record {
    name = xml.get e "name";
    description = xml.get e "description";
    value = xml.get e "value";
  }

  unfoldable pub enum : E → Enum
  unfolding enum_value
  enum e = record {
    name = xml.get e "name";
    description = xml.get e "description";
    consumed_by = xml.get e "consumed_by";
    enum_values = map enum_value (xml.findall e "EnumValue");
  }

  unfoldable pub field : E → Field
  field e = record {
    name = xml.get e "name";
    type = xml.get e "type";
    description = xml.get e "description";
    sequence = xml.get e "sequence";
    consumed_by = xml.get e "consumed_by";
    array_xml = xml.get e "array";
  }

  -- The constructors of the languages fill in the fields.
  unfoldable pub struct : E → Struct
  struct e = record {
    name = xml.get e "name";
    description = xml.get e "description";
    consumed_by = xml.get e "consumed_by";
    fields = [];
  }

  unfoldable pub func_param : E → FuncParam
  func_param e = record {
    variable_name = xml.get e "variable_name";
    type = xml.get e "type";
    description = xml.get e "description";
    consumed_by = xml.get e "consumed_by";
  }

  -- The constructor reads the return types, and may end the program.
  unfoldable pub function : String → E → Result Function
  unfolding func_param check_applicability function_return_type
  function side e =
      let consumed_by = xml.get e "consumed_by" in
      elim (function_return_type consumed_by (xml.get e "return_type")
        (xml.get e "return_type_peer") (xml.get e "return_type_app")) [
          | raised x ↦ raised x
          | ok spec ↦ ok (record {
            name = xml.get e "name";
            description = xml.get e "description";
            consumed_by = consumed_by;
            parameters =
                filter (λ p. check_applicability p.consumed_by side)
                  (map func_param (xml.findall e "Parameter"));
            return_spec = spec;
          })
        ]
