-- ===== src/Types/RoundTrip/Events.antt =====
-- The conversions of the other messages.
use sat_os_payload_sdk.Prelude.{◌≡◌, if◌then◌else◌, arith}
use sat_os_payload_sdk.Exec.{ok, raised, value_error}
use sat_os_payload_sdk.Types.Runtime.{Protobuf, IsDocumented}
use sat_os_payload_sdk.Types.Kinds.{Kind}
use sat_os_payload_sdk.Types.Fields.{is_in_range, passed_on}
use sat_os_payload_sdk.Types.ToApp
use sat_os_payload_sdk.Types.ToPeer
use sat_os_payload_sdk.Types.Peer

module _ (pb : Protobuf) (doc : IsDocumented pb) where
  pub start_sequence_params_passes :
      (m : Peer.StartSequenceParams)
      → ToPeer.app_to_peer_start_sequence_params pb (ToApp.peer_to_app_start_sequence_params m) ≡ (
          if is_in_range Kind.start_sequence_params m
          then ok (passed_on pb Kind.start_sequence_params m)
          else raised value_error)
  unfolding ToPeer.app_to_peer_start_sequence_params ToApp.peer_to_app_start_sequence_params
  start_sequence_params_passes m = ground (
    arith,
    doc.int32_lem m.correlation_id,
    doc.string_lem m.sequence_id,
    doc.string_lem m.sequence_params,
    doc.int64_lem m.scheduled_deadline,
  )

  pub shutdown_params_passes :
      (m : Peer.ShutdownParams)
      → ToPeer.app_to_peer_shutdown_params pb (ToApp.peer_to_app_shutdown_params m) ≡ (
          if is_in_range Kind.shutdown_params m
          then ok (passed_on pb Kind.shutdown_params m)
          else raised value_error)
  unfolding ToPeer.app_to_peer_shutdown_params ToApp.peer_to_app_shutdown_params
  shutdown_params_passes m =
      ground (arith, doc.int32_lem m.correlation_id, doc.int32_lem m.grace_time)

  pub health_check_params_passes :
      (m : Peer.HealthCheckParams)
      → ToPeer.app_to_peer_health_check_params pb (ToApp.peer_to_app_health_check_params m) ≡ (
          if is_in_range Kind.health_check_params m
          then ok (passed_on pb Kind.health_check_params m)
          else raised value_error)
  unfolding ToPeer.app_to_peer_health_check_params ToApp.peer_to_app_health_check_params
  health_check_params_passes m = ground (
    arith,
    doc.int32_lem m.correlation_id,
    doc.int32_lem m.application_state,
    doc.int32_lem m.reqs_to_pc_in_err_cnt,
    doc.int32_lem m.resps_to_pc_in_err_cnt,
  )

  pub payload_metrics_info_passes :
      (m : Peer.PayloadMetricsInfo)
      → ToPeer.app_to_peer_payload_metrics_info pb (ToApp.peer_to_app_payload_metrics_info m) ≡ (
          if is_in_range Kind.payload_metrics_info m
          then ok (passed_on pb Kind.payload_metrics_info m)
          else raised value_error)
  unfolding ToPeer.app_to_peer_payload_metrics_info ToApp.peer_to_app_payload_metrics_info
  payload_metrics_info_passes m = ground (arith, doc.int32_lem m.counter, doc.string_lem m.names)

  pub payload_metrics_response_passes :
      (m : Peer.PayloadMetricsResponse)
      → ToPeer.app_to_peer_payload_metrics_response pb
          (ToApp.peer_to_app_payload_metrics_response m)
        ≡ (if is_in_range Kind.payload_metrics_response m
            then ok (passed_on pb Kind.payload_metrics_response m)
            else raised value_error)
  unfolding ToPeer.app_to_peer_payload_metrics_response ToApp.peer_to_app_payload_metrics_response
  payload_metrics_response_passes m = ground (
    arith,
    doc.int32_lem m.correlation_id,
    doc.int64_lem m.timestamp,
    doc.int32_lem m.used_counter,
    doc.infos_lem m.metrics,
  )

  pub cmd_sequence_done_params_passes :
      (m : Peer.CmdSequenceDoneParams)
      → ToPeer.app_to_peer_cmd_sequence_done_params pb
          (ToApp.peer_to_app_cmd_sequence_done_params m)
        ≡ (if is_in_range Kind.cmd_sequence_done_params m
            then ok (passed_on pb Kind.cmd_sequence_done_params m)
            else raised value_error)
  unfolding ToPeer.app_to_peer_cmd_sequence_done_params ToApp.peer_to_app_cmd_sequence_done_params
  cmd_sequence_done_params_passes m = ground (arith, doc.string_lem m.sequence_id)

  pub antaris_return_type_passes :
      (m : Peer.AntarisReturnType)
      → ToPeer.app_to_peer_antaris_return_type pb (ToApp.peer_to_app_antaris_return_type m) ≡ (
          if is_in_range Kind.antaris_return_type m
          then ok (passed_on pb Kind.antaris_return_type m)
          else raised value_error)
  unfolding ToPeer.app_to_peer_antaris_return_type ToApp.peer_to_app_antaris_return_type
  antaris_return_type_passes m = ground (arith, doc.return_code_lem m.return_code)
