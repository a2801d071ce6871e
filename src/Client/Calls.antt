-- ===== src/Client/Calls.antt =====
-- The functions of antaris_api_client.py that call the controller. Each attaches the cookie of
-- config.json; a channel whose config.json could not be read has none of it.
use sat_os_payload_sdk.Prelude.{
  String, Bool, true, false, List, [], ◌∷◌, ◌++◌, Option, none, some, str_eq, if◌then◌else◌, ℤ, pos,
  ◌==ℤ◌, ◌≡◌, arith,
}
use sat_os_payload_sdk.Exec.{Result, ok, raised, attribute_error, key_error, Exec}
use sat_os_payload_sdk.Client.Upload.{Config, Uploader, file_download}

-- The messages, with the fields that they carry.
pub data Request : Type 0 where
  register : ℤ → ℤ → Request
  get_current_location : ℤ → Request
  stage_file_download : ℤ → String → Request
  sequence_done : String → Request
  payload_power_control : ℤ → ℤ → Request
  response_health_check : ℤ → ℤ → ℤ → ℤ → Request
  response_shutdown : ℤ → ℤ → Request
  -- correlation id, timestamp, used counters, and the counters with their names
  response_payload_metrics : ℤ → ℤ → ℤ → List (String × ℤ) → Request

pub record Rpc : Type 0 where
  pub request : Request
  pub cookie : String

-- What an API function gives back: the controller's return code, or Python's False.
pub data Value : Type 0 where
  code : ℤ → Value
  false_value : Value

-- `resp != An_SUCCESS`, where An_SUCCESS is 0: in Python False equals 0.
abbrev pub is_failure : Value → Bool
is_failure (code c) = if c ==ℤ pos 0 then false else true
is_failure false_value = false

-- The calls that have reached the stub, the latest last.
abbrev pub Wire : Type 0
Wire = List Rpc

-- The controller's answer to a call, or the exception of the remote call.
abbrev pub Controller : Type 0
Controller = Wire → Rpc → Result ℤ

-- The upload of a file to stage, for the `jsfile_data` of the channel.
abbrev pub staged : Uploader → Option Config → String → Result Bool
staged upload none path = raised attribute_error
staged upload (some config) path = file_download upload config path

module _ (controller : Controller) where
  abbrev invoke : Rpc → Exec Wire Value
  invoke rpc wire = elim (controller wire rpc) [
    | ok c ↦ (ok (code c), wire ++ rpc ∷ [])
    | raised e ↦ (raised e, wire ++ rpc ∷ [])
  ]

  abbrev with_cookie : Option String → Request → Exec Wire Value
  with_cookie none r wire = (raised key_error, wire)
  with_cookie (some c) r wire = invoke (record { request = r; cookie = c }) wire

  -- The body that all the functions share; `none` is a channel without `jsfile_data`.
  unfoldable pub api_call : Option Config → Request → Exec Wire Value
  api_call none r wire = (raised attribute_error, wire)
  api_call (some config) r wire = with_cookie config.cookie r wire

  unfoldable pub api_pa_pc_register : Option Config → ℤ → ℤ → Exec Wire Value
  unfolding api_call
  api_pa_pc_register config cid action = api_call config (register cid action)

  unfoldable pub api_pa_pc_get_current_location : Option Config → ℤ → Exec Wire Value
  unfolding api_call
  api_pa_pc_get_current_location config cid = api_call config (get_current_location cid)

  unfoldable pub api_pa_pc_sequence_done : Option Config → String → Exec Wire Value
  unfolding api_call
  api_pa_pc_sequence_done config seq_id = api_call config (sequence_done seq_id)

  unfoldable pub api_pa_pc_payload_power_control : Option Config → ℤ → ℤ → Exec Wire Value
  unfolding api_call
  api_pa_pc_payload_power_control config cid power =
      api_call config (payload_power_control cid power)

  unfoldable pub api_pa_pc_response_health_check :
      Option Config → (cid state failed_requests failed_responses : ℤ) → Exec Wire Value
  unfolding api_call
  api_pa_pc_response_health_check config cid state failed_requests failed_responses =
      api_call config (response_health_check cid state failed_requests failed_responses)

  unfoldable pub api_pa_pc_response_payload_metrics :
      Option Config → (cid timestamp used_counter : ℤ) → List (String × ℤ) → Exec Wire Value
  unfolding api_call
  api_pa_pc_response_payload_metrics config cid timestamp used_counter metrics =
      api_call config (response_payload_metrics cid timestamp used_counter metrics)

  unfoldable pub api_pa_pc_response_shutdown : Option Config → ℤ → ℤ → Exec Wire Value
  unfolding api_call
  api_pa_pc_response_shutdown config cid status = api_call config (response_shutdown cid status)

  -- With the keepalive flag '1' the file is uploaded first, and a failed upload ends the call.
  abbrev after_upload : Option Config → ℤ → String → Result Bool → Exec Wire Value
  after_upload config cid path (raised e) wire = (raised e, wire)
  after_upload config cid path (ok false) wire = (ok false_value, wire)
  after_upload config cid path (ok true) wire = api_call config (stage_file_download cid path) wire

  unfoldable pub api_pa_pc_stage_file_download :
      Uploader → String → Option Config → ℤ → String → Exec Wire Value
  unfolding api_call file_download
  api_pa_pc_stage_file_download upload keepalive config cid path wire =
      if str_eq keepalive "1"
      then after_upload config cid path (staged upload config path) wire
      else api_call config (stage_file_download cid path) wire

  -- Without config.json no function reaches the controller: each raises an AttributeError.
  pub no_config_no_call :
      (upload : Uploader) (keepalive path : String) (r : Request) (cid : ℤ) (wire : Wire)
      → (api_call none r wire ≡ (raised attribute_error, wire))
        × (api_pa_pc_stage_file_download upload keepalive none cid path wire
            ≡ (raised attribute_error, wire))
  unfolding api_pa_pc_stage_file_download
  no_config_no_call upload keepalive path r cid wire = ground arith
