-- ===== src/Types/RoundTrip/Replies.antt =====
-- The conversions of the messages whose names begin with Resp.
use sat_os_payload_sdk.Prelude.{◌≡◌, if◌then◌else◌, arith}
use sat_os_payload_sdk.Exec.{ok, raised, value_error}
use sat_os_payload_sdk.Types.Runtime.{Protobuf, IsDocumented}
use sat_os_payload_sdk.Types.Kinds.{Kind}
use sat_os_payload_sdk.Types.Fields.{is_in_range, passed_on}
use sat_os_payload_sdk.Types.ToApp
use sat_os_payload_sdk.Types.ToPeer
use sat_os_payload_sdk.Types.Peer

module _ (pb : Protobuf) (doc : IsDocumented pb) where
  pub resp_register_params_passes :
      (m : Peer.RespRegisterParams)
      → ToPeer.app_to_peer_resp_register_params pb (ToApp.peer_to_app_resp_register_params m) ≡ (
          if is_in_range Kind.resp_register_params m
          then ok (passed_on pb Kind.resp_register_params m)
          else raised value_error)
  unfolding ToPeer.app_to_peer_resp_register_params ToApp.peer_to_app_resp_register_params
  resp_register_params_passes m = ground (
    arith,
    doc.int32_lem m.correlation_id,
    doc.int32_lem m.req_status,
    doc.string_lem m.auth_token,
  )

  pub resp_get_current_location_params_passes :
      (m : Peer.RespGetCurrentLocationParams)
      → ToPeer.app_to_peer_resp_get_current_location_params pb
          (ToApp.peer_to_app_resp_get_current_location_params m)
        ≡ (if is_in_range Kind.resp_get_current_location_params m
            then ok (passed_on pb Kind.resp_get_current_location_params m)
            else raised value_error)
  unfolding ToPeer.app_to_peer_resp_get_current_location_params
      ToApp.peer_to_app_resp_get_current_location_params
  resp_get_current_location_params_passes m = ground (
    arith,
    doc.int32_lem m.correlation_id,
    doc.int32_lem m.req_status,
    doc.float32_lem m.longitude,
    doc.float32_lem m.latitude,
    doc.float32_lem m.altitude,
    doc.int64_lem m.determined_at,
  )

  pub resp_stage_file_download_params_passes :
      (m : Peer.RespStageFileDownloadParams)
      → ToPeer.app_to_peer_resp_stage_file_download_params pb
          (ToApp.peer_to_app_resp_stage_file_download_params m)
        ≡ (if is_in_range Kind.resp_stage_file_download_params m
            then ok (passed_on pb Kind.resp_stage_file_download_params m)
            else raised value_error)
  unfolding ToPeer.app_to_peer_resp_stage_file_download_params
      ToApp.peer_to_app_resp_stage_file_download_params
  resp_stage_file_download_params_passes m =
      ground (arith, doc.int32_lem m.correlation_id, doc.int32_lem m.req_status)

  pub resp_payload_power_control_params_passes :
      (m : Peer.RespPayloadPowerControlParams)
      → ToPeer.app_to_peer_resp_payload_power_control_params pb
          (ToApp.peer_to_app_resp_payload_power_control_params m)
        ≡ (if is_in_range Kind.resp_payload_power_control_params m
            then ok (passed_on pb Kind.resp_payload_power_control_params m)
            else raised value_error)
  unfolding ToPeer.app_to_peer_resp_payload_power_control_params
      ToApp.peer_to_app_resp_payload_power_control_params
  resp_payload_power_control_params_passes m =
      ground (arith, doc.int32_lem m.correlation_id, doc.int32_lem m.req_status)

  pub resp_shutdown_params_passes :
      (m : Peer.RespShutdownParams)
      → ToPeer.app_to_peer_resp_shutdown_params pb (ToApp.peer_to_app_resp_shutdown_params m) ≡ (
          if is_in_range Kind.resp_shutdown_params m
          then ok (passed_on pb Kind.resp_shutdown_params m)
          else raised value_error)
  unfolding ToPeer.app_to_peer_resp_shutdown_params ToApp.peer_to_app_resp_shutdown_params
  resp_shutdown_params_passes m =
      ground (arith, doc.int32_lem m.correlation_id, doc.int32_lem m.req_status)

  pub resp_health_check_params_passes :
      (m : Peer.RespHealthCheckParams)
      → ToPeer.app_to_peer_resp_health_check_params pb
          (ToApp.peer_to_app_resp_health_check_params m)
        ≡ (if is_in_range Kind.resp_health_check_params m
            then ok (passed_on pb Kind.resp_health_check_params m)
            else raised value_error)
  unfolding ToPeer.app_to_peer_resp_health_check_params ToApp.peer_to_app_resp_health_check_params
  resp_health_check_params_passes m = ground (
    arith,
    doc.int32_lem m.correlation_id,
    doc.int32_lem m.application_state,
    doc.int32_lem m.reqs_to_pc_in_err_cnt,
    doc.int32_lem m.resps_to_pc_in_err_cnt,
  )
