-- ===== src/Types/Tests.antt =====
-- Concrete objects, messages and calls.
use sat_os_payload_sdk.Prelude.{
  String, true, List, [], ◌∷◌, some, ℤ, pos, negsuc, ◌≡◌, refl, if◌then◌else◌,
}
use sat_os_payload_sdk.Exec.{ok, raised, type_error, value_error, attribute_error, Result}
use sat_os_payload_sdk.Types.Runtime.{
  Protobuf, IsDocumented, Value, int, text, float, infos, is_int32, is_int64,
}
use sat_os_payload_sdk.Types.Peer.{Float, PayloadMetricsInfo}
use sat_os_payload_sdk.Types.Kinds.{Kind, peer_to_app, app_to_peer, str}
use sat_os_payload_sdk.Types.RoundTrip.{app_to_peer-peer_to_app}
use sat_os_payload_sdk.Types.Calls.{converted_call, converted_call_lem, upload_first}
use sat_os_payload_sdk.Types.Answers
use sat_os_payload_sdk.Types.Answers.{Handled, shuts_down, asks_metrics}
use sat_os_payload_sdk.Types.ToPeer
use sat_os_payload_sdk.Types.App
use sat_os_payload_sdk.Client.Calls.{Controller, stage_file_download}
use sat_os_payload_sdk.Client.Upload.{Config, Uploader, file_download}

abbrev int32 : Value → Result ℤ
int32 (int z) = if is_int32 z then ok z else raised value_error
int32 v = raised type_error

abbrev int64 : Value → Result ℤ
int64 (int z) = if is_int64 z then ok z else raised value_error
int64 v = raised type_error

abbrev string : Value → Result String
string (text s) = ok s
string v = raised type_error

abbrev float32 : Value → Result Float
float32 (float x) = ok x
float32 v = raised type_error

abbrev metrics_infos : Value → Result (List PayloadMetricsInfo)
metrics_infos (infos l) = ok l
metrics_infos v = raised type_error

abbrev protobuf : Protobuf
protobuf = record {
  int32 = int32;
  int64 = int64;
  return_code = int32;
  string = string;
  float32 = float32;
  metrics_infos = metrics_infos;
  single = λ x. x;
}

protobuf-IsDocumented : IsDocumented protobuf
protobuf-IsDocumented = record {
  int32_lem = λ z. refl;
  int64_lem = λ z. refl;
  return_code_lem = λ z. refl;
  string_lem = λ s. refl;
  float32_lem = λ x. refl;
  infos_lem = λ l. refl;
}

app_to_peer-peer_to_app_example :
    app_to_peer protobuf Kind.shutdown_params (
      peer_to_app Kind.shutdown_params
        (record { correlation_id = pos 7; grace_time = pos 2147483648 }))
    ≡ raised value_error
app_to_peer-peer_to_app_example =
    app_to_peer-peer_to_app protobuf protobuf-IsDocumented Kind.shutdown_params
      (record { correlation_id = pos 7; grace_time = pos 2147483648 })

abbrev controller : Controller
controller = λ wire rpc. ok (pos 0)

-- An upload that succeeds.
abbrev upload : Uploader
upload file conn share path = ok true

abbrev stage_config : Config
stage_config = record {
  cookie = some "cookie";
  file_conn_str = some "conn";
  truetwin_dir = some "dir";
  share_name = some "share";
}

converted_call_lem_example :
    converted_call protobuf controller upload "1"
      (some stage_config)
      (stage_file_download (negsuc 2147483648) "a.txt")
      []
    ≡ (raised value_error, [])
unfolding upload_first file_download
converted_call_lem_example =
    converted_call_lem protobuf controller upload "1" (some stage_config)
      (stage_file_download (negsuc 2147483648) "a.txt") [] protobuf-IsDocumented

abbrev handled : List Handled
handled =
    asks_metrics (record { correlation_id = pos 4 })
    ∷ shuts_down (record { correlation_id = pos 9; grace_time = pos 30 })
    ∷ asks_metrics (record { correlation_id = pos 5 })
    ∷ []

shown :
    str
      (λ v. "v")
      Kind.shutdown_params
      (record { correlation_id = int (pos 9); grace_time = int (pos 30) })
    ≡ "correlation_id:\nv\ngrace_time:\nv\n"
unfolding str
shown = refl

-- The callback list has no message.
no_message :
    (a : App.AntarisApiCallbackFuncList)
    → ToPeer.app_to_peer_antaris_api_callback_func_list a ≡ raised attribute_error
unfolding ToPeer.app_to_peer_antaris_api_callback_func_list
no_message a = refl
