-- ===== src/Types/Fields.antt =====
-- The fields of the objects and messages: names, ranges, and what is passed on.
use sat_os_payload_sdk.Prelude.{String, Bool, true, ◌&&◌, none, List, [], ◌∷◌}
use sat_os_payload_sdk.Types.Runtime.{Protobuf, Value, is_int32, is_int64}
use sat_os_payload_sdk.Types.Kinds.{
  Kind, Object, Message, req_register_params, resp_register_params, req_get_current_location_params,
  resp_get_current_location_params, req_stage_file_download_params, resp_stage_file_download_params,
  req_payload_power_control_params, resp_payload_power_control_params, resp_shutdown_params,
  resp_health_check_params, start_sequence_params, shutdown_params, health_check_params,
  payload_metrics_info, req_payload_metrics_params, payload_metrics_response,
  cmd_sequence_done_params, antaris_return_type,
}

-- The attributes of an object with their names, in the order of the interface file.
abbrev pub attributes : (k : Kind) → Object k → List (String × Value)
attributes req_register_params a =
    ("correlation_id", a.correlation_id)
    ∷ ("health_check_fail_action", a.health_check_fail_action)
    ∷ []
attributes resp_register_params a =
    ("correlation_id", a.correlation_id)
    ∷ ("req_status", a.req_status)
    ∷ ("auth_token", a.auth_token)
    ∷ []
attributes req_get_current_location_params a = ("correlation_id", a.correlation_id) ∷ []
attributes resp_get_current_location_params a =
    ("correlation_id", a.correlation_id)
    ∷ ("req_status", a.req_status)
    ∷ ("longitude", a.longitude)
    ∷ ("latitude", a.latitude)
    ∷ ("altitude", a.altitude)
    ∷ ("determined_at", a.determined_at)
    ∷ []
attributes req_stage_file_download_params a =
    ("correlation_id", a.correlation_id) ∷ ("file_path", a.file_path) ∷ []
attributes resp_stage_file_download_params a =
    ("correlation_id", a.correlation_id) ∷ ("req_status", a.req_status) ∷ []
attributes req_payload_power_control_params a =
    ("correlation_id", a.correlation_id) ∷ ("power_operation", a.power_operation) ∷ []
attributes resp_payload_power_control_params a =
    ("correlation_id", a.correlation_id) ∷ ("req_status", a.req_status) ∷ []
attributes resp_shutdown_params a =
    ("correlation_id", a.correlation_id) ∷ ("req_status", a.req_status) ∷ []
attributes resp_health_check_params a =
    ("correlation_id", a.correlation_id)
    ∷ ("application_state", a.application_state)
    ∷ ("reqs_to_pc_in_err_cnt", a.reqs_to_pc_in_err_cnt)
    ∷ ("resps_to_pc_in_err_cnt", a.resps_to_pc_in_err_cnt)
    ∷ []
attributes start_sequence_params a =
    ("correlation_id", a.correlation_id)
    ∷ ("sequence_id", a.sequence_id)
    ∷ ("sequence_params", a.sequence_params)
    ∷ ("scheduled_deadline", a.scheduled_deadline)
    ∷ []
attributes shutdown_params a =
    ("correlation_id", a.correlation_id) ∷ ("grace_time", a.grace_time) ∷ []
attributes health_check_params a =
    ("correlation_id", a.correlation_id)
    ∷ ("application_state", a.application_state)
    ∷ ("reqs_to_pc_in_err_cnt", a.reqs_to_pc_in_err_cnt)
    ∷ ("resps_to_pc_in_err_cnt", a.resps_to_pc_in_err_cnt)
    ∷ []
attributes payload_metrics_info a = ("counter", a.counter) ∷ ("names", a.names) ∷ []
attributes req_payload_metrics_params a = ("correlation_id", a.correlation_id) ∷ []
attributes payload_metrics_response a =
    ("correlation_id", a.correlation_id)
    ∷ ("timestamp", a.timestamp)
    ∷ ("used_counter", a.used_counter)
    ∷ ("metrics", a.metrics)
    ∷ []
attributes cmd_sequence_done_params a = ("sequence_id", a.sequence_id) ∷ []
attributes antaris_return_type a = ("return_code", a.return_code) ∷ []

-- Whether every whole number of a message is in the range of its type in the .proto file.
abbrev pub is_in_range : (k : Kind) → Message k → Bool
is_in_range req_register_params m = is_int32 m.correlation_id && is_int32 m.health_check_fail_action
is_in_range resp_register_params m = is_int32 m.correlation_id && is_int32 m.req_status
is_in_range req_get_current_location_params m = is_int32 m.correlation_id
is_in_range resp_get_current_location_params m =
    is_int32 m.correlation_id && is_int32 m.req_status && is_int64 m.determined_at
is_in_range req_stage_file_download_params m = is_int32 m.correlation_id
is_in_range resp_stage_file_download_params m = is_int32 m.correlation_id && is_int32 m.req_status
is_in_range req_payload_power_control_params m =
    is_int32 m.correlation_id && is_int32 m.power_operation
is_in_range resp_payload_power_control_params m = is_int32 m.correlation_id && is_int32 m.req_status
is_in_range resp_shutdown_params m = is_int32 m.correlation_id && is_int32 m.req_status
is_in_range resp_health_check_params m =
    is_int32 m.correlation_id
    && is_int32 m.application_state
    && is_int32 m.reqs_to_pc_in_err_cnt
    && is_int32 m.resps_to_pc_in_err_cnt
is_in_range start_sequence_params m = is_int32 m.correlation_id && is_int64 m.scheduled_deadline
is_in_range shutdown_params m = is_int32 m.correlation_id && is_int32 m.grace_time
is_in_range health_check_params m =
    is_int32 m.correlation_id
    && is_int32 m.application_state
    && is_int32 m.reqs_to_pc_in_err_cnt
    && is_int32 m.resps_to_pc_in_err_cnt
is_in_range payload_metrics_info m = is_int32 m.counter
is_in_range req_payload_metrics_params m = is_int32 m.correlation_id
is_in_range payload_metrics_response m =
    is_int32 m.correlation_id && is_int64 m.timestamp && is_int32 m.used_counter
is_in_range cmd_sequence_done_params m = true
is_in_range antaris_return_type m = is_int32 m.return_code

-- What is left of a message that an object passes on: a float is rounded to the four bytes of its
-- field, and the SDK version, which no object carries, is not set.
abbrev pub passed_on : Protobuf → (k : Kind) → Message k → Message k
passed_on pb req_register_params m = record m { sdk_version = none }
passed_on pb resp_register_params m = m
passed_on pb req_get_current_location_params m = m
passed_on pb resp_get_current_location_params m = record m {
  longitude = pb.single m.longitude;
  latitude = pb.single m.latitude;
  altitude = pb.single m.altitude;
}
passed_on pb req_stage_file_download_params m = m
passed_on pb resp_stage_file_download_params m = m
passed_on pb req_payload_power_control_params m = m
passed_on pb resp_payload_power_control_params m = m
passed_on pb resp_shutdown_params m = m
passed_on pb resp_health_check_params m = m
passed_on pb start_sequence_params m = m
passed_on pb shutdown_params m = m
passed_on pb health_check_params m = m
passed_on pb payload_metrics_info m = m
passed_on pb req_payload_metrics_params m = m
passed_on pb payload_metrics_response m = m
passed_on pb cmd_sequence_done_params m = m
passed_on pb antaris_return_type m = m
