-- ===== src/Types/Kinds.antt =====
-- The messages as one family: the kinds, their two sides, and the conversions between them.
use sat_os_payload_sdk.Prelude.{String}
use sat_os_payload_sdk.Exec.{Result}
use sat_os_payload_sdk.Types.Runtime.{Protobuf, Value}
use sat_os_payload_sdk.Types.Peer
use sat_os_payload_sdk.Types.App
use sat_os_payload_sdk.Types.ToApp
use sat_os_payload_sdk.Types.ToPeer
use sat_os_payload_sdk.Types.Text

pub data Kind : Type 0 where
  req_register_params : Kind
  resp_register_params : Kind
  req_get_current_location_params : Kind
  resp_get_current_location_params : Kind
  req_stage_file_download_params : Kind
  resp_stage_file_download_params : Kind
  req_payload_power_control_params : Kind
  resp_payload_power_control_params : Kind
  resp_shutdown_params : Kind
  resp_health_check_params : Kind
  start_sequence_params : Kind
  shutdown_params : Kind
  health_check_params : Kind
  payload_metrics_info : Kind
  req_payload_metrics_params : Kind
  payload_metrics_response : Kind
  cmd_sequence_done_params : Kind
  antaris_return_type : Kind

abbrev pub Message : Kind → Type 0
Message req_register_params = Peer.ReqRegisterParams
Message resp_register_params = Peer.RespRegisterParams
Message req_get_current_location_params = Peer.ReqGetCurrentLocationParams
Message resp_get_current_location_params = Peer.RespGetCurrentLocationParams
Message req_stage_file_download_params = Peer.ReqStageFileDownloadParams
Message resp_stage_file_download_params = Peer.RespStageFileDownloadParams
Message req_payload_power_control_params = Peer.ReqPayloadPowerControlParams
Message resp_payload_power_control_params = Peer.RespPayloadPowerControlParams
Message resp_shutdown_params = Peer.RespShutdownParams
Message resp_health_check_params = Peer.RespHealthCheckParams
Message start_sequence_params = Peer.StartSequenceParams
Message shutdown_params = Peer.ShutdownParams
Message health_check_params = Peer.HealthCheckParams
Message payload_metrics_info = Peer.PayloadMetricsInfo
Message req_payload_metrics_params = Peer.ReqPayloadMetricsParams
Message payload_metrics_response = Peer.PayloadMetricsResponse
Message cmd_sequence_done_params = Peer.CmdSequenceDoneParams
Message antaris_return_type = Peer.AntarisReturnType

abbrev pub Object : Kind → Type 0
Object req_register_params = App.ReqRegisterParams
Object resp_register_params = App.RespRegisterParams
Object req_get_current_location_params = App.ReqGetCurrentLocationParams
Object resp_get_current_location_params = App.RespGetCurrentLocationParams
Object req_stage_file_download_params = App.ReqStageFileDownloadParams
Object resp_stage_file_download_params = App.RespStageFileDownloadParams
Object req_payload_power_control_params = App.ReqPayloadPowerControlParams
Object resp_payload_power_control_params = App.RespPayloadPowerControlParams
Object resp_shutdown_params = App.RespShutdownParams
Object resp_health_check_params = App.RespHealthCheckParams
Object start_sequence_params = App.StartSequenceParams
Object shutdown_params = App.ShutdownParams
Object health_check_params = App.HealthCheckParams
Object payload_metrics_info = App.PayloadMetricsInfo
Object req_payload_metrics_params = App.ReqPayloadMetricsParams
Object payload_metrics_response = App.PayloadMetricsResponse
Object cmd_sequence_done_params = App.CmdSequenceDoneParams
Object antaris_return_type = App.AntarisReturnType

unfoldable pub peer_to_app : (k : Kind) → Message k → Object k
unfolding ToApp.peer_to_app_req_register_params ToApp.peer_to_app_resp_register_params
    ToApp.peer_to_app_req_get_current_location_params
    ToApp.peer_to_app_resp_get_current_location_params
    ToApp.peer_to_app_req_stage_file_download_params
    ToApp.peer_to_app_resp_stage_file_download_params
    ToApp.peer_to_app_req_payload_power_control_params
    ToApp.peer_to_app_resp_payload_power_control_params ToApp.peer_to_app_resp_shutdown_params
    ToApp.peer_to_app_resp_health_check_params ToApp.peer_to_app_start_sequence_params
    ToApp.peer_to_app_shutdown_params ToApp.peer_to_app_health_check_params
    ToApp.peer_to_app_payload_metrics_info ToApp.peer_to_app_req_payload_metrics_params
    ToApp.peer_to_app_payload_metrics_response ToApp.peer_to_app_cmd_sequence_done_params
    ToApp.peer_to_app_antaris_return_type
peer_to_app req_register_params = ToApp.peer_to_app_req_register_params
peer_to_app resp_register_params = ToApp.peer_to_app_resp_register_params
peer_to_app req_get_current_location_params = ToApp.peer_to_app_req_get_current_location_params
peer_to_app resp_get_current_location_params = ToApp.peer_to_app_resp_get_current_location_params
peer_to_app req_stage_file_download_params = ToApp.peer_to_app_req_stage_file_download_params
peer_to_app resp_stage_file_download_params = ToApp.peer_to_app_resp_stage_file_download_params
peer_to_app req_payload_power_control_params = ToApp.peer_to_app_req_payload_power_control_params
peer_to_app resp_payload_power_control_params = ToApp.peer_to_app_resp_payload_power_control_params
peer_to_app resp_shutdown_params = ToApp.peer_to_app_resp_shutdown_params
peer_to_app resp_health_check_params = ToApp.peer_to_app_resp_health_check_params
peer_to_app start_sequence_params = ToApp.peer_to_app_start_sequence_params
peer_to_app shutdown_params = ToApp.peer_to_app_shutdown_params
peer_to_app health_check_params = ToApp.peer_to_app_health_check_params
peer_to_app payload_metrics_info = ToApp.peer_to_app_payload_metrics_info
peer_to_app req_payload_metrics_params = ToApp.peer_to_app_req_payload_metrics_params
peer_to_app payload_metrics_response = ToApp.peer_to_app_payload_metrics_response
peer_to_app cmd_sequence_done_params = ToApp.peer_to_app_cmd_sequence_done_params
peer_to_app antaris_return_type = ToApp.peer_to_app_antaris_return_type

unfoldable pub app_to_peer : Protobuf → (k : Kind) → Object k → Result (Message k)
app_to_peer pb req_register_params = ToPeer.app_to_peer_req_register_params pb
app_to_peer pb resp_register_params = ToPeer.app_to_peer_resp_register_params pb
app_to_peer pb req_get_current_location_params =
    ToPeer.app_to_peer_req_get_current_location_params pb
app_to_peer pb resp_get_current_location_params =
    ToPeer.app_to_peer_resp_get_current_location_params pb
app_to_peer pb req_stage_file_download_params = ToPeer.app_to_peer_req_stage_file_download_params pb
app_to_peer pb resp_stage_file_download_params =
    ToPeer.app_to_peer_resp_stage_file_download_params pb
app_to_peer pb req_payload_power_control_params =
    ToPeer.app_to_peer_req_payload_power_control_params pb
app_to_peer pb resp_payload_power_control_params =
    ToPeer.app_to_peer_resp_payload_power_control_params pb
app_to_peer pb resp_shutdown_params = ToPeer.app_to_peer_resp_shutdown_params pb
app_to_peer pb resp_health_check_params = ToPeer.app_to_peer_resp_health_check_params pb
app_to_peer pb start_sequence_params = ToPeer.app_to_peer_start_sequence_params pb
app_to_peer pb shutdown_params = ToPeer.app_to_peer_shutdown_params pb
app_to_peer pb health_check_params = ToPeer.app_to_peer_health_check_params pb
app_to_peer pb payload_metrics_info = ToPeer.app_to_peer_payload_metrics_info pb
app_to_peer pb req_payload_metrics_params = ToPeer.app_to_peer_req_payload_metrics_params pb
app_to_peer pb payload_metrics_response = ToPeer.app_to_peer_payload_metrics_response pb
app_to_peer pb cmd_sequence_done_params = ToPeer.app_to_peer_cmd_sequence_done_params pb
app_to_peer pb antaris_return_type = ToPeer.app_to_peer_antaris_return_type pb

unfoldable pub str : (Value → String) → (k : Kind) → Object k → String
unfolding Text.str_req_register_params Text.str_resp_register_params
    Text.str_req_get_current_location_params Text.str_resp_get_current_location_params
    Text.str_req_stage_file_download_params Text.str_resp_stage_file_download_params
    Text.str_req_payload_power_control_params Text.str_resp_payload_power_control_params
    Text.str_resp_shutdown_params Text.str_resp_health_check_params Text.str_start_sequence_params
    Text.str_shutdown_params Text.str_health_check_params Text.str_payload_metrics_info
    Text.str_req_payload_metrics_params Text.str_payload_metrics_response
    Text.str_cmd_sequence_done_params Text.str_antaris_return_type
str show req_register_params = Text.str_req_register_params show
str show resp_register_params = Text.str_resp_register_params show
str show req_get_current_location_params = Text.str_req_get_current_location_params show
str show resp_get_current_location_params = Text.str_resp_get_current_location_params show
str show req_stage_file_download_params = Text.str_req_stage_file_download_params show
str show resp_stage_file_download_params = Text.str_resp_stage_file_download_params show
str show req_payload_power_control_params = Text.str_req_payload_power_control_params show
str show resp_payload_power_control_params = Text.str_resp_payload_power_control_params show
str show resp_shutdown_params = Text.str_resp_shutdown_params show
str show resp_health_check_params = Text.str_resp_health_check_params show
str show start_sequence_params = Text.str_start_sequence_params show
str show shutdown_params = Text.str_shutdown_params show
str show health_check_params = Text.str_health_check_params show
str show payload_metrics_info = Text.str_payload_metrics_info show
str show req_payload_metrics_params = Text.str_req_payload_metrics_params show
str show payload_metrics_response = Text.str_payload_metrics_response show
str show cmd_sequence_done_params = Text.str_cmd_sequence_done_params show
str show antaris_return_type = Text.str_antaris_return_type show
