-- ===== src/Types/App.antt =====
-- The classes of lib/python/satos_payload_sdk/gen/antaris_api_types.py: an object holds whatever
-- `__init__` was given.
use sat_os_payload_sdk.Types.Runtime.{Value}

pub record ReqRegisterParams : Type 0 where
  pub correlation_id : Value
  pub health_check_fail_action : Value

pub record RespRegisterParams : Type 0 where
  pub correlation_id : Value
  pub req_status : Value
  pub auth_token : Value

pub record ReqGetCurrentLocationParams : Type 0 where
  pub correlation_id : Value

pub record RespGetCurrentLocationParams : Type 0 where
  pub correlation_id : Value
  pub req_status : Value
  pub longitude : Value
  pub latitude : Value
  pub altitude : Value
  pub determined_at : Value

pub record ReqStageFileDownloadParams : Type 0 where
  pub correlation_id : Value
  pub file_path : Value

pub record RespStageFileDownloadParams : Type 0 where
  pub correlation_id : Value
  pub req_status : Value

pub record ReqPayloadPowerControlParams : Type 0 where
  pub correlation_id : Value
  pub power_operation : Value

pub record RespPayloadPowerControlParams : Type 0 where
  pub correlation_id : Value
  pub req_status : Value

pub record RespShutdownParams : Type 0 where
  pub correlation_id : Value
  pub req_status : Value

pub record RespHealthCheckParams : Type 0 where
  pub correlation_id : Value
  pub application_state : Value
  pub reqs_to_pc_in_err_cnt : Value
  pub resps_to_pc_in_err_cnt : Value

pub record StartSequenceParams : Type 0 where
  pub correlation_id : Value
  pub sequence_id : Value
  pub sequence_params : Value
  pub scheduled_deadline : Value

pub record ShutdownParams : Type 0 where
  pub correlation_id : Value
  pub grace_time : Value

pub record HealthCheckParams : Type 0 where
  pub correlation_id : Value
  pub application_state : Value
  pub reqs_to_pc_in_err_cnt : Value
  pub resps_to_pc_in_err_cnt : Value

pub record PayloadMetricsInfo : Type 0 where
  pub counter : Value
  pub names : Value

pub record ReqPayloadMetricsParams : Type 0 where
  pub correlation_id : Value

pub record PayloadMetricsResponse : Type 0 where
  pub correlation_id : Value
  pub timestamp : Value
  pub used_counter : Value
  pub metrics : Value

pub record CmdSequenceDoneParams : Type 0 where
  pub sequence_id : Value

pub record AntarisApiCallbackFuncList : Type 0 where
  pub start_sequence : Value
  pub shutdown_app : Value
  pub process_health_check : Value
  pub process_response_register : Value
  pub process_response_get_current_location : Value
  pub process_response_stage_file_download : Value
  pub process_response_payload_power_control : Value
  pub req_payload_metrics : Value

pub record AntarisReturnType : Type 0 where
  pub return_code : Value
