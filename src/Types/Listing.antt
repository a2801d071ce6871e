-- ===== src/Types/Listing.antt =====
-- `__str__` as a listing of the attributes.
use Prim.Native.String.{◌++◌}
use text.Mathlib.TextLemmas.{append_assoc, append-nil, nil-append}
use sat_os_payload_sdk.Prelude.{◌≡◌, sym, ◌∙◌, refl, String, List, [], ◌∷◌}
use sat_os_payload_sdk.Types.Runtime.{Value}
use sat_os_payload_sdk.Types.Kinds.{Kind, Object, str}
use sat_os_payload_sdk.Types.Fields.{attributes}
use sat_os_payload_sdk.Types.Text.{attribute}

-- A line with the name of each attribute, and a line with its value.
abbrev pub listing : (Value → String) → List (String × Value) → String
listing show [] = ""
listing show ((name, v) ∷ l) = name ++ (":\n" ++ (show v ++ ("\n" ++ listing show l)))

abbrev written : (Value → String) → List (String × Value) → String → String
written show [] ret_str = ret_str
written show ((name, v) ∷ l) ret_str = written show l (attribute show name v ret_str)

written-listing :
    (show : Value → String) (l : List (String × Value)) (ret_str : String)
    → written show l ret_str ≡ ret_str ++ listing show l
written-listing show [] ret_str = sym (append-nil ret_str)
written-listing show ((name, v) ∷ l) ret_str =
    written-listing show l (attribute show name v ret_str) ∙ (simp append_assoc)

str-written :
    (show : Value → String) (k : Kind) (a : Object k)
    → str show k a ≡ written show (attributes k a) ""
unfolding str
str-written show Kind.req_register_params a = refl
str-written show Kind.resp_register_params a = refl
str-written show Kind.req_get_current_location_params a = refl
str-written show Kind.resp_get_current_location_params a = refl
str-written show Kind.req_stage_file_download_params a = refl
str-written show Kind.resp_stage_file_download_params a = refl
str-written show Kind.req_payload_power_control_params a = refl
str-written show Kind.resp_payload_power_control_params a = refl
str-written show Kind.resp_shutdown_params a = refl
str-written show Kind.resp_health_check_params a = refl
str-written show Kind.start_sequence_params a = refl
str-written show Kind.shutdown_params a = refl
str-written show Kind.health_check_params a = refl
str-written show Kind.payload_metrics_info a = refl
str-written show Kind.req_payload_metrics_params a = refl
str-written show Kind.payload_metrics_response a = refl
str-written show Kind.cmd_sequence_done_params a = refl
str-written show Kind.antaris_return_type a = refl

-- The text of an object lists all its attributes, in their order, whatever `str` of a value gives.
pub str-listing :
    (show : Value → String) (k : Kind) (a : Object k) → str show k a ≡ listing show (attributes k a)
str-listing show k a =
    str-written show k a
    ∙ written-listing show (attributes k a) ""
    ∙ nil-append (listing show (attributes k a))
