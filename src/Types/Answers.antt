-- ===== src/Types/Answers.antt =====
-- The answers that the framework makes from the params of a request: `_handle_shutdown` and
-- `_disconnect`, and `_req_payload_metrics`.
use sat_os_payload_sdk.Prelude.{
  ℕ, ◌≤◌, ◌^◌, List, [], ◌∷◌, Option, none, some, ℤ, pos, ◌≡◌, String, arith,
}
use sat_os_payload_sdk.Exec.{raised, value_error}
use sat_os_payload_sdk.Types.Runtime.{Protobuf, IsDocumented, Value, int, none_value, infos}
use sat_os_payload_sdk.Types.Peer.{PayloadMetricsInfo}
use sat_os_payload_sdk.Types.Peer
use sat_os_payload_sdk.Types.App
use sat_os_payload_sdk.Types.ToApp
use sat_os_payload_sdk.Types.ToPeer
use sat_os_payload_sdk.Types.Calls.{converted_call, converted_call_lem, upload_first}
use sat_os_payload_sdk.Client.Upload.{Config, Uploader}
use sat_os_payload_sdk.Client.Calls.{Controller, Wire, get_current_location}

-- The ids that the handlers keep until the answer is made, in `PayloadApplication` and in its one object
-- `payload_metrics`: a later request of the same kind overwrites what an earlier one left.
pub record Shared : Type 0 where
  pub shutdown_correlation_id : Value
  pub metrics_correlation_id : Value

abbrev pub init : Shared
init = record { shutdown_correlation_id = none_value; metrics_correlation_id = int (pos 0) }

pub data Handled : Type 0 where
  shuts_down : Peer.ShutdownParams → Handled
  asks_metrics : Peer.ReqPayloadMetricsParams → Handled

-- What the handler of a request writes, from the converted params.
unfoldable pub handle : Handled → Shared → Shared
handle (shuts_down m) s = record s {
  shutdown_correlation_id = (ToApp.peer_to_app_shutdown_params m).correlation_id;
}
handle (asks_metrics q) s = record s {
  metrics_correlation_id = (ToApp.peer_to_app_req_payload_metrics_params q).correlation_id;
}

abbrev pub handle_all : List Handled → Shared → Shared
handle_all [] s = s
handle_all (q ∷ later) s = handle_all later (handle q s)

-- The params of the answer to a shutdown: the id that is kept, and An_SUCCESS.
unfoldable pub shutdown_answer : Shared → App.RespShutdownParams
shutdown_answer s = record { correlation_id = s.shutdown_correlation_id; req_status = int (pos 0) }

-- `payload_metrics`, which has the attributes of PayloadMetricsResponse.
unfoldable pub metrics_answer :
    (timestamp used_counter : ℤ) → List PayloadMetricsInfo → Shared → App.PayloadMetricsResponse
metrics_answer timestamp used_counter metrics s = record {
  correlation_id = s.metrics_correlation_id;
  timestamp = int timestamp;
  used_counter = int used_counter;
  metrics = infos metrics;
}

abbrev pub or_else : Option ℤ → Option ℤ → Option ℤ
or_else (some id) before = some id
or_else none before = before

-- The id of the last shutdown request, and of the last metrics request.
abbrev pub last_shutdown : List Handled → Option ℤ
last_shutdown [] = none
last_shutdown (shuts_down m ∷ later) = or_else (last_shutdown later) (some m.correlation_id)
last_shutdown (_ ∷ later) = last_shutdown later

abbrev pub last_metrics : List Handled → Option ℤ
last_metrics [] = none
last_metrics (asks_metrics q ∷ later) = or_else (last_metrics later) (some q.correlation_id)
last_metrics (_ ∷ later) = last_metrics later

abbrev kept : Option ℤ → Value → Value
kept none v = v
kept (some id) v = int id

module _ (pb : Protobuf) (doc : IsDocumented pb) where
  -- A request with a correlation id of 2 ^ 31 or more never reaches the controller.
  pub exhausted_id :
      (controller : Controller) (upload : Uploader) (keepalive : String) (config : Option Config)
      (wire : Wire) (n : ℕ)
      → 2 ^ 31 ≤ n
      → converted_call pb controller upload keepalive config (get_current_location (pos n)) wire
        ≡ (raised value_error, wire)
  unfolding upload_first
  exhausted_id controller upload keepalive config wire n h = ground (
    arith,
    converted_call_lem pb controller upload keepalive config (get_current_location (pos n)) wire
        doc,
  )
