-- ===== src/Client/Tests.antt =====
-- Concrete channels and calls.
use sat_os_payload_sdk.Prelude.{
  ◌≡◌, refl, true, false, [], ◌∷◌, none, some, String, pos, str_eq, if◌then◌else◌,
}
use sat_os_payload_sdk.Exec.{ok}
use sat_os_payload_sdk.Client.Channel.{
  Host, Settings, create_channel_common, connect_insecure, make_server, listen_insecure,
  start_server, channel_security, File,
}
use sat_os_payload_sdk.Client.Upload.{Azure, Config, azure_file_upload, file_download}
use sat_os_payload_sdk.Client.Staged.{IsStaged, sent-IsStaged}
use sat_os_payload_sdk.Client.Calls.{Controller, api_pa_pc_stage_file_download, stage_file_download}
use sat_os_payload_sdk.Prelude.{◌⊎◌}
use sat_os_payload_sdk.Client.Dispatch
use sat_os_payload_sdk.Client.Dispatch.{
  Callback, key, make_channel, serve, serve-make_channel, answer_with,
}

abbrev host : Host
host = record { endpoint_free = true; readable = λ f. false }

abbrev settings : Settings
settings = record { ssl_enable = "0"; keepalive_enable = "1" }

-- A channel that was asked to be secure.
channel_security_example :
    (true ≡ true)
    × (connect_insecure ∷ make_server true ∷ listen_insecure ∷ start_server ∷ []
        ≡ connect_insecure ∷ make_server true ∷ listen_insecure ∷ start_server ∷ [])
    × ((file : File) → str_eq "0" "0" ≡ false → host.readable file ≡ true)
unfolding create_channel_common
channel_security_example =
    channel_security host settings true {c = record { is_secure = true }}
      {t = connect_insecure ∷ make_server true ∷ listen_insecure ∷ start_server ∷ []} refl

-- Params are texts, and their conversion adds nothing; the handlers of metrics are not registered.
abbrev handler : Callback → Dispatch.Function String String
handler Callback.req_payload_metrics = none
handler _ = some (λ s. ok (pos 0))

abbrev funcs : Dispatch.FuncList String String
funcs k = if str_eq k "ReqPayloadMetrics" then some none else some (some (λ s. ok (pos 0)))

funcs-key : (d : Callback) → funcs (key d) ≡ some (handler d)
funcs-key Callback.start_sequence = refl
funcs-key Callback.shutdown_app = refl
funcs-key Callback.process_health_check = refl
funcs-key Callback.req_payload_metrics = refl
funcs-key Callback.process_resp_register = refl
funcs-key Callback.process_resp_get_curr_location = refl
funcs-key Callback.process_resp_stage_file_download = refl
funcs-key Callback.process_resp_payload_power_control = refl

-- A share that takes every file.
abbrev share : Azure (Unit {0})
share = record {
  from_connection_string = λ conn name path. ok tt;
  read_file = λ name. ok (1 ∷ 2 ∷ []);
  upload_file = λ client source. ok tt;
}

abbrev config : Config
config = record {
  cookie = some "cookie";
  file_conn_str = some "connection";
  truetwin_dir = some "twin";
  share_name = some "files";
}

abbrev controller : Controller
controller wire rpc = ok (pos 0)

sent-IsStaged_example :
    let (r, wire') =
      api_pa_pc_stage_file_download controller
        (azure_file_upload share)
        "1"
        (some config)
        (pos 4)
        "picture.png"
        [] in
    (wire' ≡ []) ⊎ IsStaged share config "picture.png"
sent-IsStaged_example = sent-IsStaged share controller config (pos 4) "picture.png" []

one_request :
    (api_pa_pc_stage_file_download controller
      (azure_file_upload share)
      "1"
      (some config)
      (pos 4)
      "picture.png"
      []).1
    ≡ record { request = stage_file_download (pos 4) "picture.png"; cookie = "cookie" } ∷ []
unfolding api_pa_pc_stage_file_download file_download azure_file_upload
one_request = refl
