-- ===== src/Client/Dispatch.antt =====
-- `class AntarisChannel` and `class PCToAppService`: the controller's remote calls, each handed to
-- the function that the application registered for it.
use sat_os_payload_sdk.Prelude.{String, List, [], ◌∷◌, Option, none, some, ◌≡◌, arith, ℤ, negsuc}
use sat_os_payload_sdk.Exec.{Result, ok, raised, key_error}

-- The remote calls, with the params that the peer sends, which are opaque here.
pub data Callback : Type 0 where
  start_sequence shutdown_app process_health_check req_payload_metrics : Callback
  process_resp_register process_resp_get_curr_location : Callback
  process_resp_stage_file_download process_resp_payload_power_control : Callback

-- The key of `callback_func_list` under which the function is registered.
abbrev pub key : Callback → String
key start_sequence = "StartSequence"
key shutdown_app = "Shutdown"
key process_health_check = "HealthCheck"
key process_resp_register = "RespRegister"
key process_resp_get_curr_location = "RespGetCurrentLocation"
key process_resp_stage_file_download = "RespStageFileDownload"
key process_resp_payload_power_control = "RespPayloadPowerControl"
key req_payload_metrics = "ReqPayloadMetrics"

abbrev all_callbacks : List Callback
all_callbacks =
    start_sequence ∷ shutdown_app ∷ process_health_check ∷ process_resp_register
    ∷ process_resp_get_curr_location ∷ process_resp_stage_file_download
    ∷ process_resp_payload_power_control ∷ req_payload_metrics ∷ []

-- AntarisReturnCode.An_NOT_IMPLEMENTED
abbrev pub an_not_implemented : ℤ
an_not_implemented = negsuc 1

-- `antaris_api_pb2.AntarisReturnType(return_code = ...)` of a function's value, or its exception.
-- A registered function takes the params, converted by `convert`; None may stand in its place.
module _ (P Q : Type 0) where
  abbrev pub Function : Type 0
  Function = Option (Q → Result ℤ)

  -- `callback_func_list`, `none` for a missing key.
  abbrev pub FuncList : Type 0
  FuncList = String → Option Function

  pub record Channel : Type 0 where
    pub function : Callback → Function

  -- The lookups of `AntarisChannel.__init__`, in their order.
  lookups : FuncList → List Callback → Result (Unit {0})
  lookups funcs [] = ok tt
  lookups funcs (c ∷ cs) = elim (funcs (key c)) [
    | none ↦ raised key_error
    | some f ↦ lookups funcs cs
  ]

  abbrev registered : Option Function → Function
  registered none = none
  registered (some f) = f

  pub make_channel : FuncList → Result Channel
  unfolding lookups
  make_channel funcs = elim (lookups funcs all_callbacks) [
    | raised e ↦ raised e
    | ok _ ↦ ok (record { function = λ c. registered (funcs (key c)) })
  ]

  -- The body that the methods of `PCToAppService` share.
  abbrev pub answer_with : Function → Q → Result ℤ
  answer_with none params = ok an_not_implemented
  answer_with (some f) params = f params

  -- The methods of `PCToAppService`, which differ in the function and the conversion alone.
  pub serve : (Callback → P → Q) → Channel → Callback → P → Result ℤ
  serve convert channel c request = answer_with (channel.function c) (convert c request)

  -- If all eight keys are there, a channel is made, and each remote call on it runs the
  -- function under its own key on the converted params, or answers An_NOT_IMPLEMENTED where None is
  -- registered.
  pub serve-make_channel :
      (convert : Callback → P → Q) (funcs : FuncList) (f : Callback → Function) (c : Callback)
      (request : P)
      → ((d : Callback) → funcs (key d) ≡ some (f d))
      → (channel : Channel) × (make_channel funcs ≡ ok channel)
        × (serve convert channel c request ≡ answer_with (f c) (convert c request))
  unfolding make_channel serve
  serve-make_channel convert funcs f c request h = (
    record { function = λ d. registered (funcs (key d)) },
    rw (
      h start_sequence,
      h shutdown_app,
      h process_health_check,
      h process_resp_register,
      h process_resp_get_curr_location,
      h process_resp_stage_file_download,
      h process_resp_payload_power_control,
      h req_payload_metrics,
    ),
    rw (h c),
  )

  -- One missing key, and there is no channel.
  pub missing_callback :
      (funcs : FuncList) (c : Callback)
      → funcs (key c) ≡ none
      → make_channel funcs ≡ raised key_error
  unfolding make_channel
  missing_callback funcs start_sequence h = rw h
  missing_callback funcs c h = ground (arith, h)
