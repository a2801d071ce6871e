-- ===== src/Types/ToApp.antt =====
-- `peer_to_app_*` of lib/python/satos_payload_sdk/gen/antaris_api_types.py.
use sat_os_payload_sdk.Types.Runtime.{int, text, float, infos}
use sat_os_payload_sdk.Types.Peer
use sat_os_payload_sdk.Types.App

unfoldable pub peer_to_app_req_register_params : Peer.ReqRegisterParams → App.ReqRegisterParams
peer_to_app_req_register_params m = record {
  correlation_id = int m.correlation_id;
  health_check_fail_action = int m.health_check_fail_action;
}

unfoldable pub peer_to_app_resp_register_params : Peer.RespRegisterParams → App.RespRegisterParams
peer_to_app_resp_register_params m = record {
  correlation_id = int m.correlation_id;
  req_status = int m.req_status;
  auth_token = text m.auth_token;
}

unfoldable pub peer_to_app_req_get_current_location_params :
    Peer.ReqGetCurrentLocationParams → App.ReqGetCurrentLocationParams
peer_to_app_req_get_current_location_params m = record { correlation_id = int m.correlation_id }

unfoldable pub peer_to_app_resp_get_current_location_params :
    Peer.RespGetCurrentLocationParams → App.RespGetCurrentLocationParams
peer_to_app_resp_get_current_location_params m = record {
  correlation_id = int m.correlation_id;
  req_status = int m.req_status;
  longitude = float m.longitude;
  latitude = float m.latitude;
  altitude = float m.altitude;
  determined_at = int m.determined_at;
}

unfoldable pub peer_to_app_req_stage_file_download_params :
    Peer.ReqStageFileDownloadParams → App.ReqStageFileDownloadParams
peer_to_app_req_stage_file_download_params m = record {
  correlation_id = int m.correlation_id;
  file_path = text m.file_path;
}

unfoldable pub peer_to_app_resp_stage_file_download_params :
    Peer.RespStageFileDownloadParams → App.RespStageFileDownloadParams
peer_to_app_resp_stage_file_download_params m = record {
  correlation_id = int m.correlation_id;
  req_status = int m.req_status;
}

unfoldable pub peer_to_app_req_payload_power_control_params :
    Peer.ReqPayloadPowerControlParams → App.ReqPayloadPowerControlParams
peer_to_app_req_payload_power_control_params m = record {
  correlation_id = int m.correlation_id;
  power_operation = int m.power_operation;
}

unfoldable pub peer_to_app_resp_payload_power_control_params :
    Peer.RespPayloadPowerControlParams → App.RespPayloadPowerControlParams
peer_to_app_resp_payload_power_control_params m = record {
  correlation_id = int m.correlation_id;
  req_status = int m.req_status;
}

unfoldable pub peer_to_app_resp_shutdown_params : Peer.RespShutdownParams → App.RespShutdownParams
peer_to_app_resp_shutdown_params m = record {
  correlation_id = int m.correlation_id;
  req_status = int m.req_status;
}

unfoldable pub peer_to_app_resp_health_check_params :
    Peer.RespHealthCheckParams → App.RespHealthCheckParams
peer_to_app_resp_health_check_params m = record {
  correlation_id = int m.correlation_id;
  application_state = int m.application_state;
  reqs_to_pc_in_err_cnt = int m.reqs_to_pc_in_err_cnt;
  resps_to_pc_in_err_cnt = int m.resps_to_pc_in_err_cnt;
}

unfoldable pub peer_to_app_start_sequence_params :
    Peer.StartSequenceParams → App.StartSequenceParams
peer_to_app_start_sequence_params m = record {
  correlation_id = int m.correlation_id;
  sequence_id = text m.sequence_id;
  sequence_params = text m.sequence_params;
  scheduled_deadline = int m.scheduled_deadline;
}

unfoldable pub peer_to_app_shutdown_params : Peer.ShutdownParams → App.ShutdownParams
peer_to_app_shutdown_params m = record {
  correlation_id = int m.correlation_id;
  grace_time = int m.grace_time;
}

unfoldable pub peer_to_app_health_check_params : Peer.HealthCheckParams → App.HealthCheckParams
peer_to_app_health_check_params m = record {
  correlation_id = int m.correlation_id;
  application_state = int m.application_state;
  reqs_to_pc_in_err_cnt = int m.reqs_to_pc_in_err_cnt;
  resps_to_pc_in_err_cnt = int m.resps_to_pc_in_err_cnt;
}

unfoldable pub peer_to_app_payload_metrics_info : Peer.PayloadMetricsInfo → App.PayloadMetricsInfo
peer_to_app_payload_metrics_info m = record { counter = int m.counter; names = text m.names }

unfoldable pub peer_to_app_req_payload_metrics_params :
    Peer.ReqPayloadMetricsParams → App.ReqPayloadMetricsParams
peer_to_app_req_payload_metrics_params m = record { correlation_id = int m.correlation_id }

unfoldable pub peer_to_app_payload_metrics_response :
    Peer.PayloadMetricsResponse → App.PayloadMetricsResponse
peer_to_app_payload_metrics_response m = record {
  correlation_id = int m.correlation_id;
  timestamp = int m.timestamp;
  used_counter = int m.used_counter;
  metrics = infos m.metrics;
}

unfoldable pub peer_to_app_cmd_sequence_done_params :
    Peer.CmdSequenceDoneParams → App.CmdSequenceDoneParams
peer_to_app_cmd_sequence_done_params m = record { sequence_id = text m.sequence_id }

unfoldable pub peer_to_app_antaris_return_type : Peer.AntarisReturnType → App.AntarisReturnType
peer_to_app_antaris_return_type m = record { return_code = int m.return_code }

-- No message goes with the callback list; its converter copies the attributes of any object that
-- has them.
unfoldable pub peer_to_app_antaris_api_callback_func_list :
    App.AntarisApiCallbackFuncList → App.AntarisApiCallbackFuncList
peer_to_app_antaris_api_callback_func_list m = record {
  start_sequence = m.start_sequence;
  shutdown_app = m.shutdown_app;
  process_health_check = m.process_health_check;
  process_response_register = m.process_response_register;
  process_response_get_current_location = m.process_response_get_current_location;
  process_response_stage_file_download = m.process_response_stage_file_download;
  process_response_payload_power_control = m.process_response_payload_power_control;
  req_payload_metrics = m.req_payload_metrics;
}
