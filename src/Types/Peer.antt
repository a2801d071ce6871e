-- ===== src/Types/Peer.antt =====
-- The messages of defs/gen/proto/antaris_api.proto, as Python reads them: a whole number for each
-- int32, int64 and enum field, a text, a float or a list.
use sat_os_payload_sdk.Prelude.{ℕ, String, List, Option, ℤ}

-- A Python float, by the 64 bits that stand for it.
abbrev pub Float : Type 0
Float = ℕ

pub record AntarisSdkVersion : Type 0 where
  pub major : ℤ
  pub minor : ℤ
  pub patch : ℤ

pub record PayloadMetricsInfo : Type 0 where
  pub counter : ℤ
  pub names : String

pub record ReqRegisterParams : Type 0 where
  pub correlation_id : ℤ
  pub health_check_fail_action : ℤ
  pub sdk_version : Option AntarisSdkVersion

pub record RespRegisterParams : Type 0 where
  pub correlation_id : ℤ
  pub req_status : ℤ
  pub auth_token : String

pub record ReqGetCurrentLocationParams : Type 0 where
  pub correlation_id : ℤ

pub record RespGetCurrentLocationParams : Type 0 where
  pub correlation_id : ℤ
  pub req_status : ℤ
  pub longitude : Float
  pub latitude : Float
  pub altitude : Float
  pub determined_at : ℤ

pub record ReqStageFileDownloadParams : Type 0 where
  pub correlation_id : ℤ
  pub file_path : String

pub record RespStageFileDownloadParams : Type 0 where
  pub correlation_id : ℤ
  pub req_status : ℤ

pub record ReqPayloadPowerControlParams : Type 0 where
  pub correlation_id : ℤ
  pub power_operation : ℤ

pub record RespPayloadPowerControlParams : Type 0 where
  pub correlation_id : ℤ
  pub req_status : ℤ

pub record RespShutdownParams : Type 0 where
  pub correlation_id : ℤ
  pub req_status : ℤ

pub record RespHealthCheckParams : Type 0 where
  pub correlation_id : ℤ
  pub application_state : ℤ
  pub reqs_to_pc_in_err_cnt : ℤ
  pub resps_to_pc_in_err_cnt : ℤ

pub record StartSequenceParams : Type 0 where
  pub correlation_id : ℤ
  pub sequence_id : String
  pub sequence_params : String
  pub scheduled_deadline : ℤ

pub record ShutdownParams : Type 0 where
  pub correlation_id : ℤ
  pub grace_time : ℤ

pub record HealthCheckParams : Type 0 where
  pub correlation_id : ℤ
  pub application_state : ℤ
  pub reqs_to_pc_in_err_cnt : ℤ
  pub resps_to_pc_in_err_cnt : ℤ

pub record ReqPayloadMetricsParams : Type 0 where
  pub correlation_id : ℤ

pub record PayloadMetricsResponse : Type 0 where
  pub correlation_id : ℤ
  pub timestamp : ℤ
  pub used_counter : ℤ
  pub metrics : List PayloadMetricsInfo

pub record CmdSequenceDoneParams : Type 0 where
  pub sequence_id : String

pub record AntarisReturnType : Type 0 where
  pub return_code : ℤ
