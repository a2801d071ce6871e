-- ===== src/Types/RoundTrip.antt =====
-- The conversions against the types of the .proto file.
pub mod Requests
pub mod Replies
pub mod Events
use sat_os_payload_sdk.Prelude.{◌≡◌, refl, true, ◌&&◌, if◌then◌else◌, arith}
use sat_os_payload_sdk.Exec.{ok, raised, value_error}
use sat_os_payload_sdk.Types.Runtime.{Protobuf, IsDocumented, is_int32, is_int64}
use sat_os_payload_sdk.Types.Kinds.{Kind, Message, peer_to_app, app_to_peer}
use sat_os_payload_sdk.Types.Fields.{is_in_range, passed_on}
use sat_os_payload_sdk.Types.ToApp
use sat_os_payload_sdk.Types.ToPeer
use sat_os_payload_sdk.Types.Peer
use sat_os_payload_sdk.Types.RoundTrip.Replies
use sat_os_payload_sdk.Types.RoundTrip.Requests
use sat_os_payload_sdk.Types.RoundTrip.Events

-- An object with values of the right types becomes its message exactly when every whole number is in
-- the range of its field in the .proto file, and otherwise a ValueError is raised, for all 18
-- messages. The message has the values of the object, each in its own field; a float is rounded to
-- single precision, and the SDK version of a registration is not set.
pub app_to_peer-peer_to_app :
    (pb : Protobuf)
    → IsDocumented pb
    → (k : Kind) (m : Message k)
    → app_to_peer pb k (peer_to_app k m)
      ≡ (if is_in_range k m then ok (passed_on pb k m) else raised value_error)
unfolding app_to_peer peer_to_app
app_to_peer-peer_to_app pb doc Kind.req_register_params m =
    Requests.req_register_params_passes pb doc m
app_to_peer-peer_to_app pb doc Kind.resp_register_params m =
    Replies.resp_register_params_passes pb doc m
app_to_peer-peer_to_app pb doc Kind.req_get_current_location_params m =
    Requests.req_get_current_location_params_passes pb doc m
app_to_peer-peer_to_app pb doc Kind.resp_get_current_location_params m =
    Replies.resp_get_current_location_params_passes pb doc m
app_to_peer-peer_to_app pb doc Kind.req_stage_file_download_params m =
    Requests.req_stage_file_download_params_passes pb doc m
app_to_peer-peer_to_app pb doc Kind.resp_stage_file_download_params m =
    Replies.resp_stage_file_download_params_passes pb doc m
app_to_peer-peer_to_app pb doc Kind.req_payload_power_control_params m =
    Requests.req_payload_power_control_params_passes pb doc m
app_to_peer-peer_to_app pb doc Kind.resp_payload_power_control_params m =
    Replies.resp_payload_power_control_params_passes pb doc m
app_to_peer-peer_to_app pb doc Kind.resp_shutdown_params m =
    Replies.resp_shutdown_params_passes pb doc m
app_to_peer-peer_to_app pb doc Kind.resp_health_check_params m =
    Replies.resp_health_check_params_passes pb doc m
app_to_peer-peer_to_app pb doc Kind.start_sequence_params m =
    Events.start_sequence_params_passes pb doc m
app_to_peer-peer_to_app pb doc Kind.shutdown_params m = Events.shutdown_params_passes pb doc m
app_to_peer-peer_to_app pb doc Kind.health_check_params m =
    Events.health_check_params_passes pb doc m
app_to_peer-peer_to_app pb doc Kind.payload_metrics_info m =
    Events.payload_metrics_info_passes pb doc m
app_to_peer-peer_to_app pb doc Kind.req_payload_metrics_params m =
    Requests.req_payload_metrics_params_passes pb doc m
app_to_peer-peer_to_app pb doc Kind.payload_metrics_response m =
    Events.payload_metrics_response_passes pb doc m
app_to_peer-peer_to_app pb doc Kind.cmd_sequence_done_params m =
    Events.cmd_sequence_done_params_passes pb doc m
app_to_peer-peer_to_app pb doc Kind.antaris_return_type m =
    Events.antaris_return_type_passes pb doc m
