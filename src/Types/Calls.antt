-- ===== src/Types/Calls.antt =====
-- The calls of antaris_api_client.py with the conversion of their params: `app_to_peer_*` comes first,
-- and the message is what goes to the stub.
use sat_os_payload_sdk.Prelude.{
  String, Bool, true, false, str_eq, List, [], ◌∷◌, map, Option, none, ℤ, ◌≡◌, ◌∙◌, ap, refl,
  if◌then◌else◌, Bool-cases, inl, inr,
}
use sat_os_payload_sdk.Exec.{Result, ok, raised, value_error, continue, throw, Exec, Result-cases}
use sat_os_payload_sdk.Types.Runtime.{Protobuf, IsDocumented, int, text, infos}
use sat_os_payload_sdk.Types.Peer.{PayloadMetricsInfo}
use sat_os_payload_sdk.Types.Kinds.{Kind, Object, Message, app_to_peer, peer_to_app}
use sat_os_payload_sdk.Types.Fields.{is_in_range, passed_on}
use sat_os_payload_sdk.Types.RoundTrip.{app_to_peer-peer_to_app}
use sat_os_payload_sdk.Client.Upload.{Config, Uploader}
use sat_os_payload_sdk.Client.Calls.{
  Controller, Wire, Request, register, get_current_location, stage_file_download, sequence_done,
  payload_power_control, response_health_check, response_shutdown, response_payload_metrics,
  api_call, api_pa_pc_stage_file_download,
}
use sat_os_payload_sdk.Client.Calls

abbrev pub kind_of : Request → Kind
kind_of (register cid action) = Kind.req_register_params
kind_of (get_current_location cid) = Kind.req_get_current_location_params
kind_of (stage_file_download cid path) = Kind.req_stage_file_download_params
kind_of (sequence_done id) = Kind.cmd_sequence_done_params
kind_of (payload_power_control cid power) = Kind.req_payload_power_control_params
kind_of (response_health_check cid state reqs resps) = Kind.resp_health_check_params
kind_of (response_shutdown cid status) = Kind.resp_shutdown_params
kind_of (response_payload_metrics cid time used metrics) = Kind.payload_metrics_response

abbrev pub info_message : String × ℤ → PayloadMetricsInfo
info_message (name, n) = record { counter = n; names = name }

named_counter : PayloadMetricsInfo → String × ℤ
named_counter m = (m.names, m.counter)

-- The params of a call, and the same values as the fields of a message.
unfoldable pub object_of : (r : Request) → Object (kind_of r)
object_of (register cid action) = record {
  correlation_id = int cid;
  health_check_fail_action = int action;
}
object_of (get_current_location cid) = record { correlation_id = int cid }
object_of (stage_file_download cid path) = record {
  correlation_id = int cid;
  file_path = text path;
}
object_of (sequence_done id) = record { sequence_id = text id }
object_of (payload_power_control cid power) = record {
  correlation_id = int cid;
  power_operation = int power;
}
object_of (response_health_check cid state reqs resps) = record {
  correlation_id = int cid;
  application_state = int state;
  reqs_to_pc_in_err_cnt = int reqs;
  resps_to_pc_in_err_cnt = int resps;
}
object_of (response_shutdown cid status) = record {
  correlation_id = int cid;
  req_status = int status;
}
object_of (response_payload_metrics cid time used metrics) = record {
  correlation_id = int cid;
  timestamp = int time;
  used_counter = int used;
  metrics = infos (map info_message metrics);
}

-- The call that a message stands for.
request_of : (r : Request) → Message (kind_of r) → Request
unfolding named_counter
request_of (register _ _) m = register m.correlation_id m.health_check_fail_action
request_of (get_current_location _) m = get_current_location m.correlation_id
request_of (stage_file_download _ _) m = stage_file_download m.correlation_id m.file_path
request_of (sequence_done _) m = sequence_done m.sequence_id
request_of (payload_power_control _ _) m = payload_power_control m.correlation_id m.power_operation
request_of (response_health_check _ _ _ _) m =
    response_health_check m.correlation_id m.application_state m.reqs_to_pc_in_err_cnt
      m.resps_to_pc_in_err_cnt
request_of (response_shutdown _ _) m = response_shutdown m.correlation_id m.req_status
request_of (response_payload_metrics _ _ _ _) m =
    response_payload_metrics m.correlation_id m.timestamp m.used_counter
      (map named_counter m.metrics)

-- The fields of the message with the values of a call.
abbrev pub message_of : (r : Request) → Message (kind_of r)
message_of (register cid action) = record {
  correlation_id = cid;
  health_check_fail_action = action;
  sdk_version = none;
}
message_of (get_current_location cid) = record { correlation_id = cid }
message_of (stage_file_download cid path) = record { correlation_id = cid; file_path = path }
message_of (sequence_done id) = record { sequence_id = id }
message_of (payload_power_control cid power) = record {
  correlation_id = cid;
  power_operation = power;
}
message_of (response_health_check cid state reqs resps) = record {
  correlation_id = cid;
  application_state = state;
  reqs_to_pc_in_err_cnt = reqs;
  resps_to_pc_in_err_cnt = resps;
}
message_of (response_shutdown cid status) = record { correlation_id = cid; req_status = status }
message_of (response_payload_metrics cid time used metrics) = record {
  correlation_id = cid;
  timestamp = time;
  used_counter = used;
  metrics = map info_message metrics;
}

-- Whether the numbers of a call are in the ranges of the .proto file.
abbrev pub fits : Request → Bool
fits r = is_in_range (kind_of r) (message_of r)

map-named_counter : (l : List (String × ℤ)) → map named_counter (map info_message l) ≡ l
unfolding named_counter
map-named_counter [] = refl
map-named_counter ((s, z) ∷ l) = ap (λ (t : List (String × ℤ)). (s, z) ∷ t) (map-named_counter l)

object_of-message : (r : Request) → object_of r ≡ peer_to_app (kind_of r) (message_of r)
unfolding object_of peer_to_app
object_of-message (register cid action) = refl
object_of-message (get_current_location cid) = refl
object_of-message (stage_file_download cid path) = refl
object_of-message (sequence_done id) = refl
object_of-message (payload_power_control cid power) = refl
object_of-message (response_health_check cid state reqs resps) = refl
object_of-message (response_shutdown cid status) = refl
object_of-message (response_payload_metrics cid time used metrics) = refl

request_of-message :
    (pb : Protobuf) (r : Request) → request_of r (passed_on pb (kind_of r) (message_of r)) ≡ r
unfolding request_of
request_of-message pb (register cid action) = refl
request_of-message pb (get_current_location cid) = refl
request_of-message pb (stage_file_download cid path) = refl
request_of-message pb (sequence_done id) = refl
request_of-message pb (payload_power_control cid power) = refl
request_of-message pb (response_health_check cid state reqs resps) = refl
request_of-message pb (response_shutdown cid status) = refl
request_of-message pb (response_payload_metrics cid time used metrics) =
    ap (response_payload_metrics cid time used) (map-named_counter metrics)

-- What stands before the conversion: for a file download, with the keepalive flag '1', the upload, at
-- whose failure the function ends.
after : {A : Type 0} → Exec A Calls.Value → Result Bool → Exec A Calls.Value
after body (raised e) wire = (raised e, wire)
after body (ok false) wire = (ok Calls.false_value, wire)
after body (ok true) wire = body wire

unfoldable pub upload_first :
    {A : Type 0}
    → Uploader
    → String
    → Option Config
    → Request
    → Exec A Calls.Value
    → Exec A Calls.Value
unfolding after
upload_first upload keepalive config (stage_file_download cid path) body wire =
    if str_eq keepalive "1" then after body (Calls.staged upload config path) wire else body wire
upload_first upload keepalive config _ body wire = body wire

module _ (pb : Protobuf) (controller : Controller) (upload : Uploader) (keepalive : String) where
  -- The conversion and the call.
  abbrev body : Option Config → Request → Exec Wire Calls.Value
  body config r wire =
      continue (app_to_peer pb (kind_of r) (object_of r))
        (λ m. api_call controller config (request_of r m)) wire

  -- Each function, for params with the values of `r`.
  pub converted_call : Option Config → Request → Exec Wire Calls.Value
  unfolding request_of object_of upload_first
  converted_call config r = upload_first upload keepalive config r (body config r)

  -- The function without a conversion.
  abbrev pub plain_call : Option Config → Request → Exec Wire Calls.Value
  plain_call config (stage_file_download cid path) =
      api_pa_pc_stage_file_download controller upload keepalive config cid path
  plain_call config r = api_call controller config r

  plain_call_lem :
      (config : Option Config) (r : Request) (wire : Wire)
      → plain_call config r wire
        ≡ upload_first upload keepalive config r (api_call controller config r) wire
  unfolding upload_first api_pa_pc_stage_file_download
  plain_call_lem config (stage_file_download cid path) wire =
      elim (Bool-cases (str_eq keepalive "1")) [
        | inr off ↦ rw off refl
        | inl on ↦ elim (Result-cases (Calls.staged upload config path)) [
          | inr (e, failed) ↦ rw (on, failed) refl
          | inl (false, failed) ↦ rw (on, failed) refl
          | inl (true, done) ↦ rw (on, done) refl
        ]
      ]
  plain_call_lem config (register cid action) wire = refl
  plain_call_lem config (get_current_location cid) wire = refl
  plain_call_lem config (sequence_done id) wire = refl
  plain_call_lem config (payload_power_control cid power) wire = refl
  plain_call_lem config (response_health_check cid state reqs resps) wire = refl
  plain_call_lem config (response_shutdown cid status) wire = refl
  plain_call_lem config (response_payload_metrics cid time used metrics) wire = refl

  body_lem :
      (config : Option Config) (r : Request) (wire : Wire)
      → IsDocumented pb
      → body config r wire
        ≡ (if fits r then api_call controller config r wire else (raised value_error, wire))
  body_lem config r wire doc =
      rw (object_of-message r, app_to_peer-peer_to_app pb doc (kind_of r) (message_of r))
        (elim (Bool-cases (is_in_range (kind_of r) (message_of r))) [
          | inl inside ↦ rw (inside, request_of-message pb r) refl
          | inr outside ↦ rw outside refl
        ])

  body_inside :
      (config : Option Config) (r : Request)
      → IsDocumented pb
      → fits r ≡ true
      → body config r ≡ api_call controller config r
  body_inside config r doc inside =
      let at : (wire : Wire) → body config r wire ≡ api_call controller config r wire =
        λ wire. body_lem config r wire doc ∙ rw inside refl in
      λ i wire. at wire i

  body_outside :
      (config : Option Config) (r : Request)
      → IsDocumented pb
      → fits r ≡ false
      → body config r ≡ throw value_error
  body_outside config r doc outside =
      let at : (wire : Wire) → body config r wire ≡ (raised value_error, wire) =
        λ wire. body_lem config r wire doc ∙ rw outside refl in
      λ i wire. at wire i

  -- A call whose numbers fit their fields behaves as the one without a conversion. Any other raises a
  -- ValueError, also on a channel without config.json, and nothing reaches the controller; but a file
  -- download with the keepalive flag '1' does its upload before that, and ends there with False or
  -- an exception if the upload fails or config.json is missing.
  pub converted_call_lem :
      (config : Option Config) (r : Request) (wire : Wire)
      → IsDocumented pb
      → converted_call config r wire ≡ (
          if fits r
          then plain_call config r wire
          else upload_first upload keepalive config r (throw value_error) wire)
  unfolding converted_call
  converted_call_lem config r wire doc = elim (Bool-cases (fits r)) [
    | inl inside ↦ rw (body_inside config r doc inside, inside, plain_call_lem config r wire) refl
    | inr outside ↦ rw (body_outside config r doc outside, outside) refl
  ]
