-- ===== src/Types/RoundTrip/Requests.antt =====
-- The conversions of the messages whose names begin with Req.
use sat_os_payload_sdk.Prelude.{◌≡◌, if◌then◌else◌, arith}
use sat_os_payload_sdk.Exec.{ok, raised, value_error}
use sat_os_payload_sdk.Types.Runtime.{Protobuf, IsDocumented}
use sat_os_payload_sdk.Types.Kinds.{Kind}
use sat_os_payload_sdk.Types.Fields.{is_in_range, passed_on}
use sat_os_payload_sdk.Types.ToApp
use sat_os_payload_sdk.Types.ToPeer
use sat_os_payload_sdk.Types.Peer

module _ (pb : Protobuf) (doc : IsDocumented pb) where
  pub req_register_params_passes :
      (m : Peer.ReqRegisterParams)
      → ToPeer.app_to_peer_req_register_params pb (ToApp.peer_to_app_req_register_params m) ≡ (
          if is_in_range Kind.req_register_params m
          then ok (passed_on pb Kind.req_register_params m)
          else raised value_error)
  unfolding ToPeer.app_to_peer_req_register_params ToApp.peer_to_app_req_register_params
  req_register_params_passes m =
      ground (arith, doc.int32_lem m.correlation_id, doc.int32_lem m.health_check_fail_action)

  pub req_get_current_location_params_passes :
      (m : Peer.ReqGetCurrentLocationParams)
      → ToPeer.app_to_peer_req_get_current_location_params pb
          (ToApp.peer_to_app_req_get_current_location_params m)
        ≡ (if is_in_range Kind.req_get_current_location_params m
            then ok (passed_on pb Kind.req_get_current_location_params m)
            else raised value_error)
  unfolding ToPeer.app_to_peer_req_get_current_location_params
      ToApp.peer_to_app_req_get_current_location_params
  req_get_current_location_params_passes m = ground (arith, doc.int32_lem m.correlation_id)

  pub req_stage_file_download_params_passes :
      (m : Peer.ReqStageFileDownloadParams)
      → ToPeer.app_to_peer_req_stage_file_download_params pb
          (ToApp.peer_to_app_req_stage_file_download_params m)
        ≡ (if is_in_range Kind.req_stage_file_download_params m
            then ok (passed_on pb Kind.req_stage_file_download_params m)
            else raised value_error)
  unfolding ToPeer.app_to_peer_req_stage_file_download_params
      ToApp.peer_to_app_req_stage_file_download_params
  req_stage_file_download_params_passes m =
      ground (arith, doc.int32_lem m.correlation_id, doc.string_lem m.file_path)

  pub req_payload_power_control_params_passes :
      (m : Peer.ReqPayloadPowerControlParams)
      → ToPeer.app_to_peer_req_payload_power_control_params pb
          (ToApp.peer_to_app_req_payload_power_control_params m)
        ≡ (if is_in_range Kind.req_payload_power_control_params m
            then ok (passed_on pb Kind.req_payload_power_control_params m)
            else raised value_error)
  unfolding ToPeer.app_to_peer_req_payload_power_control_params
      ToApp.peer_to_app_req_payload_power_control_params
  req_payload_power_control_params_passes m =
      ground (arith, doc.int32_lem m.correlation_id, doc.int32_lem m.power_operation)

  pub req_payload_metrics_params_passes :
      (m : Peer.ReqPayloadMetricsParams)
      → ToPeer.app_to_peer_req_payload_metrics_params pb
          (ToApp.peer_to_app_req_payload_metrics_params m)
        ≡ (if is_in_range Kind.req_payload_metrics_params m
            then ok (passed_on pb Kind.req_payload_metrics_params m)
            else raised value_error)
  unfolding ToPeer.app_to_peer_req_payload_metrics_params
      ToApp.peer_to_app_req_payload_metrics_params
  req_payload_metrics_params_passes m = ground (arith, doc.int32_lem m.correlation_id)
