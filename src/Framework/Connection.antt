-- ===== src/Framework/Connection.antt =====
-- `ChannelClient._connect` and `_disconnect`, and the calls of the application that wait for no
-- response: `_sequence_done` and `PayloadApplication._req_payload_metrics`.
pub mod Registered
mod Tests
use sat_os_payload_sdk.Prelude.{
  String, Bool, true, false, List, [], ◌∷◌, Option, none, some, ℤ, pos, map, if◌then◌else◌,
}
use sat_os_payload_sdk.Exec.{Error, Result, ok, raised, failure, Exec, ◌>>=◌, ◌>>◌, pure, throw}
use sat_os_payload_sdk.Client.Upload.{Config}
use sat_os_payload_sdk.Client.Channel.{
  Host, Settings, Channel, Trace, create_channel, delete_channel,
}
use sat_os_payload_sdk.Client.Calls.{
  Controller, Value, Wire, is_failure, api_pa_pc_register, api_pa_pc_response_shutdown,
  api_pa_pc_sequence_done, api_pa_pc_response_payload_metrics,
}
use sat_os_payload_sdk.Framework.Metrics.{Metrics, Info}

-- The channel, what was done on this machine, and the calls that reached the controller.
pub record Link : Type 0 where
  pub channel : Option Channel
  pub trace : Trace
  pub wire : Wire

-- A run of the channel functions, and a call of the controller.
abbrev on_trace : {A : Type 0} → Exec Trace A → Exec Link A
on_trace m k = let (r, t) = m k.trace in (r, record k { trace = t })

abbrev on_wire : {A : Type 0} → Exec Wire A → Exec Link A
on_wire m k = let (r, w) = m k.wire in (r, record k { wire = w })

abbrev set_channel : Option Channel → Exec Link (Unit {0})
set_channel c k = (ok tt, record k { channel = c })

-- `raise Exception(...)` unless the channel is there, and unless the call succeeded.
abbrev require_channel : Option Channel → Exec Link (Unit {0})
require_channel none = throw failure
require_channel (some c) = pure tt

abbrev require_success : Value → Exec Link (Unit {0})
require_success v k = if is_failure v then (raised failure, k) else (ok tt, k)

-- `DO_NOTHING_ON_HEALTH_CHECK_FAILURE`
abbrev pub do_nothing : ℤ
do_nothing = pos 0

module _ (controller : Controller) (config : Option Config) where
  -- `_connect`, with what creates the channel.
  unfoldable pub connect_with : Exec Link (Option Channel) → Exec Link (Unit {0})
  unfolding api_pa_pc_register
  connect_with create = do
    channel ← create
    set_channel channel
    require_channel channel
    resp ← on_wire (api_pa_pc_register controller config (pos 0) do_nothing)
    require_success resp

  unfoldable pub connect : Host → Settings → Exec Link (Unit {0})
  unfolding connect_with create_channel
  connect host settings = connect_with (on_trace (create_channel host settings))

  -- The return code of the response is not looked at; an exception of the call ends the method.
  unfoldable pub disconnect : ℤ → Exec Link (Unit {0})
  unfolding delete_channel api_pa_pc_response_shutdown
  disconnect cid = do
    resp ← on_wire (api_pa_pc_response_shutdown controller config cid (pos 0))
    code ← on_trace delete_channel
    pure tt

  -- `_sequence_done`: a failure is only logged.
  unfoldable pub sequence_done : String → Exec Link (Unit {0})
  unfolding api_pa_pc_sequence_done
  sequence_done sequence_id = do
    resp ← on_wire (api_pa_pc_sequence_done controller config sequence_id)
    pure tt

  -- `_req_payload_metrics`: the metrics take over the request's correlation id, and go to the
  -- controller; a failure is only logged. The return code is An_SUCCESS.
  unfoldable pub req_payload_metrics : ℤ → Exec (Metrics × Link) ℤ
  unfolding api_pa_pc_response_payload_metrics
  req_payload_metrics cid (m, k) =
      let m' = record m { correlation_id = cid } in
      let (r, k') =
        on_wire
          (api_pa_pc_response_payload_metrics controller config m'.correlation_id m'.timestamp
            m'.used_counter (map (λ i. (i.names, i.counter)) m'.metrics))
          k in
      elim r [ raised e ↦ (raised e, (m', k')) | ok v ↦ (ok (pos 0), (m', k')) ]
