-- ===== src/Types/Text.antt =====
-- `__str__` of the classes; `str` of a value is a parameter.
use Prim.Native.String.{◌++◌}
use sat_os_payload_sdk.Prelude.{String}
use sat_os_payload_sdk.Types.Runtime.{Value}
use sat_os_payload_sdk.Types.App

-- `ret_str += "<name>:\n"` and `ret_str += str(<value>) + "\n"`.
abbrev pub attribute : (Value → String) → String → Value → String → String
attribute str name v ret_str = (ret_str ++ (name ++ ":\n")) ++ (str v ++ "\n")

module _ (str : Value → String) where
  unfoldable pub str_req_register_params : App.ReqRegisterParams → String
  str_req_register_params a =
      let s1 = attribute str "correlation_id" a.correlation_id "" in
      let s2 = attribute str "health_check_fail_action" a.health_check_fail_action s1 in s2

  unfoldable pub str_resp_register_params : App.RespRegisterParams → String
  str_resp_register_params a =
      let s1 = attribute str "correlation_id" a.correlation_id "" in
      let s2 = attribute str "req_status" a.req_status s1 in
      let s3 = attribute str "auth_token" a.auth_token s2 in s3

  unfoldable pub str_req_get_current_location_params : App.ReqGetCurrentLocationParams → String
  str_req_get_current_location_params a =
      let s1 = attribute str "correlation_id" a.correlation_id "" in s1

  unfoldable pub str_resp_get_current_location_params : App.RespGetCurrentLocationParams → String
  str_resp_get_current_location_params a =
      let s1 = attribute str "correlation_id" a.correlation_id "" in
      let s2 = attribute str "req_status" a.req_status s1 in
      let s3 = attribute str "longitude" a.longitude s2 in
      let s4 = attribute str "latitude" a.latitude s3 in
      let s5 = attribute str "altitude" a.altitude s4 in
      let s6 = attribute str "determined_at" a.determined_at s5 in s6

  unfoldable pub str_req_stage_file_download_params : App.ReqStageFileDownloadParams → String
  str_req_stage_file_download_params a =
      let s1 = attribute str "correlation_id" a.correlation_id "" in
      let s2 = attribute str "file_path" a.file_path s1 in s2

  unfoldable pub str_resp_stage_file_download_params : App.RespStageFileDownloadParams → String
  str_resp_stage_file_download_params a =
      let s1 = attribute str "correlation_id" a.correlation_id "" in
      let s2 = attribute str "req_status" a.req_status s1 in s2

  unfoldable pub str_req_payload_power_control_params : App.ReqPayloadPowerControlParams → String
  str_req_payload_power_control_params a =
      let s1 = attribute str "correlation_id" a.correlation_id "" in
      let s2 = attribute str "power_operation" a.power_operation s1 in s2

  unfoldable pub str_resp_payload_power_control_params : App.RespPayloadPowerControlParams → String
  str_resp_payload_power_control_params a =
      let s1 = attribute str "correlation_id" a.correlation_id "" in
      let s2 = attribute str "req_status" a.req_status s1 in s2

  unfoldable pub str_resp_shutdown_params : App.RespShutdownParams → String
  str_resp_shutdown_params a =
      let s1 = attribute str "correlation_id" a.correlation_id "" in
      let s2 = attribute str "req_status" a.req_status s1 in s2

  unfoldable pub str_resp_health_check_params : App.RespHealthCheckParams → String
  str_resp_health_check_params a =
      let s1 = attribute str "correlation_id" a.correlation_id "" in
      let s2 = attribute str "application_state" a.application_state s1 in
      let s3 = attribute str "reqs_to_pc_in_err_cnt" a.reqs_to_pc_in_err_cnt s2 in
      let s4 = attribute str "resps_to_pc_in_err_cnt" a.resps_to_pc_in_err_cnt s3 in s4

  unfoldable pub str_start_sequence_params : App.StartSequenceParams → String
  str_start_sequence_params a =
      let s1 = attribute str "correlation_id" a.correlation_id "" in
      let s2 = attribute str "sequence_id" a.sequence_id s1 in
      let s3 = attribute str "sequence_params" a.sequence_params s2 in
      let s4 = attribute str "scheduled_deadline" a.scheduled_deadline s3 in s4

  unfoldable pub str_shutdown_params : App.ShutdownParams → String
  str_shutdown_params a =
      let s1 = attribute str "correlation_id" a.correlation_id "" in
      let s2 = attribute str "grace_time" a.grace_time s1 in s2

  unfoldable pub str_health_check_params : App.HealthCheckParams → String
  str_health_check_params a =
      let s1 = attribute str "correlation_id" a.correlation_id "" in
      let s2 = attribute str "application_state" a.application_state s1 in
      let s3 = attribute str "reqs_to_pc_in_err_cnt" a.reqs_to_pc_in_err_cnt s2 in
      let s4 = attribute str "resps_to_pc_in_err_cnt" a.resps_to_pc_in_err_cnt s3 in s4

  unfoldable pub str_payload_metrics_info : App.PayloadMetricsInfo → String
  str_payload_metrics_info a =
      let s1 = attribute str "counter" a.counter "" in
      let s2 = attribute str "names" a.names s1 in s2

  unfoldable pub str_req_payload_metrics_params : App.ReqPayloadMetricsParams → String
  str_req_payload_metrics_params a =
      let s1 = attribute str "correlation_id" a.correlation_id "" in s1

  unfoldable pub str_payload_metrics_response : App.PayloadMetricsResponse → String
  str_payload_metrics_response a =
      let s1 = attribute str "correlation_id" a.correlation_id "" in
      let s2 = attribute str "timestamp" a.timestamp s1 in
      let s3 = attribute str "used_counter" a.used_counter s2 in
      let s4 = attribute str "metrics" a.metrics s3 in s4

  unfoldable pub str_cmd_sequence_done_params : App.CmdSequenceDoneParams → String
  str_cmd_sequence_done_params a = let s1 = attribute str "sequence_id" a.sequence_id "" in s1

  unfoldable pub str_antaris_api_callback_func_list : App.AntarisApiCallbackFuncList → String
  str_antaris_api_callback_func_list a =
      let s1 = attribute str "start_sequence" a.start_sequence "" in
      let s2 = attribute str "shutdown_app" a.shutdown_app s1 in
      let s3 = attribute str "process_health_check" a.process_health_check s2 in
      let s4 = attribute str "process_response_register" a.process_response_register s3 in
      let s5 =
        attribute str "process_response_get_current_location"
          a.process_response_get_current_location s4 in
      let s6 =
        attribute str "process_response_stage_file_download" a.process_response_stage_file_download
          s5 in
      let s7 =
        attribute str "process_response_payload_power_control"
          a.process_response_payload_power_control s6 in
      let s8 = attribute str "req_payload_metrics" a.req_payload_metrics s7 in s8

  unfoldable pub str_antaris_return_type : App.AntarisReturnType → String
  str_antaris_return_type a = let s1 = attribute str "return_code" a.return_code "" in s1
