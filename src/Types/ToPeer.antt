-- ===== src/Types/ToPeer.antt =====
-- `app_to_peer_*` of lib/python/satos_payload_sdk/gen/antaris_api_types.py.
use sat_os_payload_sdk.Prelude.{none}
use sat_os_payload_sdk.Exec.{Result, ok, raised, attribute_error}
use sat_os_payload_sdk.Types.Runtime.{Protobuf, ◌>>=◌}
use sat_os_payload_sdk.Types.Peer
use sat_os_payload_sdk.Types.App

-- The module of the messages has no class of that name.
unfoldable pub app_to_peer_antaris_api_callback_func_list :
    App.AntarisApiCallbackFuncList → Result App.AntarisApiCallbackFuncList
app_to_peer_antaris_api_callback_func_list a = raised attribute_error

-- The constructor of a message sets its fields one by one, and raises at the first value that a
-- field does not take.
module _ (pb : Protobuf) where
  unfoldable pub app_to_peer_req_register_params :
      App.ReqRegisterParams → Result Peer.ReqRegisterParams
  app_to_peer_req_register_params a = do
    correlation_id ← pb.int32 a.correlation_id
    health_check_fail_action ← pb.int32 a.health_check_fail_action
    ok (record {
      correlation_id = correlation_id;
      health_check_fail_action = health_check_fail_action;
      sdk_version = none;
    })

  unfoldable pub app_to_peer_resp_register_params :
      App.RespRegisterParams → Result Peer.RespRegisterParams
  app_to_peer_resp_register_params a = do
    correlation_id ← pb.int32 a.correlation_id
    req_status ← pb.int32 a.req_status
    auth_token ← pb.string a.auth_token
    ok (record {
      correlation_id = correlation_id;
      req_status = req_status;
      auth_token = auth_token;
    })

  unfoldable pub app_to_peer_req_get_current_location_params :
      App.ReqGetCurrentLocationParams → Result Peer.ReqGetCurrentLocationParams
  app_to_peer_req_get_current_location_params a = do
    correlation_id ← pb.int32 a.correlation_id
    ok (record { correlation_id = correlation_id })

  unfoldable pub app_to_peer_resp_get_current_location_params :
      App.RespGetCurrentLocationParams → Result Peer.RespGetCurrentLocationParams
  app_to_peer_resp_get_current_location_params a = do
    correlation_id ← pb.int32 a.correlation_id
    req_status ← pb.int32 a.req_status
    longitude ← pb.float32 a.longitude
    latitude ← pb.float32 a.latitude
    altitude ← pb.float32 a.altitude
    determined_at ← pb.int64 a.determined_at
    ok (record {
      correlation_id = correlation_id;
      req_status = req_status;
      longitude = longitude;
      latitude = latitude;
      altitude = altitude;
      determined_at = determined_at;
    })

  unfoldable pub app_to_peer_req_stage_file_download_params :
      App.ReqStageFileDownloadParams → Result Peer.ReqStageFileDownloadParams
  app_to_peer_req_stage_file_download_params a = do
    correlation_id ← pb.int32 a.correlation_id
    file_path ← pb.string a.file_path
    ok (record { correlation_id = correlation_id; file_path = file_path })

  unfoldable pub app_to_peer_resp_stage_file_download_params :
      App.RespStageFileDownloadParams → Result Peer.RespStageFileDownloadParams
  app_to_peer_resp_stage_file_download_params a = do
    correlation_id ← pb.int32 a.correlation_id
    req_status ← pb.int32 a.req_status
    ok (record { correlation_id = correlation_id; req_status = req_status })

  unfoldable pub app_to_peer_req_payload_power_control_params :
      App.ReqPayloadPowerControlParams → Result Peer.ReqPayloadPowerControlParams
  app_to_peer_req_payload_power_control_params a = do
    correlation_id ← pb.int32 a.correlation_id
    power_operation ← pb.int32 a.power_operation
    ok (record { correlation_id = correlation_id; power_operation = power_operation })

  unfoldable pub app_to_peer_resp_payload_power_control_params :
      App.RespPayloadPowerControlParams → Result Peer.RespPayloadPowerControlParams
  app_to_peer_resp_payload_power_control_params a = do
    correlation_id ← pb.int32 a.correlation_id
    req_status ← pb.int32 a.req_status
    ok (record { correlation_id = correlation_id; req_status = req_status })

  unfoldable pub app_to_peer_resp_shutdown_params :
      App.RespShutdownParams → Result Peer.RespShutdownParams
  app_to_peer_resp_shutdown_params a = do
    correlation_id ← pb.int32 a.correlation_id
    req_status ← pb.int32 a.req_status
    ok (record { correlation_id = correlation_id; req_status = req_status })

  unfoldable pub app_to_peer_resp_health_check_params :
      App.RespHealthCheckParams → Result Peer.RespHealthCheckParams
  app_to_peer_resp_health_check_params a = do
    correlation_id ← pb.int32 a.correlation_id
    application_state ← pb.int32 a.application_state
    reqs_to_pc_in_err_cnt ← pb.int32 a.reqs_to_pc_in_err_cnt
    resps_to_pc_in_err_cnt ← pb.int32 a.resps_to_pc_in_err_cnt
    ok (record {
      correlation_id = correlation_id;
      application_state = application_state;
      reqs_to_pc_in_err_cnt = reqs_to_pc_in_err_cnt;
      resps_to_pc_in_err_cnt = resps_to_pc_in_err_cnt;
    })

  unfoldable pub app_to_peer_start_sequence_params :
      App.StartSequenceParams → Result Peer.StartSequenceParams
  app_to_peer_start_sequence_params a = do
    correlation_id ← pb.int32 a.correlation_id
    sequence_id ← pb.string a.sequence_id
    sequence_params ← pb.string a.sequence_params
    scheduled_deadline ← pb.int64 a.scheduled_deadline
    ok (record {
      correlation_id = correlation_id;
      sequence_id = sequence_id;
      sequence_params = sequence_params;
      scheduled_deadline = scheduled_deadline;
    })

  unfoldable pub app_to_peer_shutdown_params : App.ShutdownParams → Result Peer.ShutdownParams
  app_to_peer_shutdown_params a = do
    correlation_id ← pb.int32 a.correlation_id
    grace_time ← pb.int32 a.grace_time
    ok (record { correlation_id = correlation_id; grace_time = grace_time })

  unfoldable pub app_to_peer_health_check_params :
      App.HealthCheckParams → Result Peer.HealthCheckParams
  app_to_peer_health_check_params a = do
    correlation_id ← pb.int32 a.correlation_id
    application_state ← pb.int32 a.application_state
    reqs_to_pc_in_err_cnt ← pb.int32 a.reqs_to_pc_in_err_cnt
    resps_to_pc_in_err_cnt ← pb.int32 a.resps_to_pc_in_err_cnt
    ok (record {
      correlation_id = correlation_id;
      application_state = application_state;
      reqs_to_pc_in_err_cnt = reqs_to_pc_in_err_cnt;
      resps_to_pc_in_err_cnt = resps_to_pc_in_err_cnt;
    })

  unfoldable pub app_to_peer_payload_metrics_info :
      App.PayloadMetricsInfo → Result Peer.PayloadMetricsInfo
  app_to_peer_payload_metrics_info a = do
    counter ← pb.int32 a.counter
    names ← pb.string a.names
    ok (record { counter = counter; names = names })

  unfoldable pub app_to_peer_req_payload_metrics_params :
      App.ReqPayloadMetricsParams → Result Peer.ReqPayloadMetricsParams
  app_to_peer_req_payload_metrics_params a = do
    correlation_id ← pb.int32 a.correlation_id
    ok (record { correlation_id = correlation_id })

  unfoldable pub app_to_peer_payload_metrics_response :
      App.PayloadMetricsResponse → Result Peer.PayloadMetricsResponse
  app_to_peer_payload_metrics_response a = do
    correlation_id ← pb.int32 a.correlation_id
    timestamp ← pb.int64 a.timestamp
    used_counter ← pb.int32 a.used_counter
    metrics ← pb.metrics_infos a.metrics
    ok (record {
      correlation_id = correlation_id;
      timestamp = timestamp;
      used_counter = used_counter;
      metrics = metrics;
    })

  unfoldable pub app_to_peer_cmd_sequence_done_params :
      App.CmdSequenceDoneParams → Result Peer.CmdSequenceDoneParams
  app_to_peer_cmd_sequence_done_params a = do
    sequence_id ← pb.string a.sequence_id
    ok (record { sequence_id = sequence_id })

  unfoldable pub app_to_peer_antaris_return_type :
      App.AntarisReturnType → Result Peer.AntarisReturnType
  app_to_peer_antaris_return_type a = do
    return_code ← pb.return_code a.return_code
    ok (record { return_code = return_code })
