-- ===== src/Framework/Requests/Tests.antt =====
-- Concrete schedules of the requests.
use sat_os_payload_sdk.Prelude.{ℕ, ◌≡◌, refl, true, false, List, [], ◌∷◌, none, some, pos, arith}
use sat_os_payload_sdk.Exec.{ok}
use sat_os_payload_sdk.Client.Upload.{Config, Uploader}
use sat_os_payload_sdk.Client.Calls.{Controller, code}
use sat_os_payload_sdk.Framework.Requests.{
  Response, init, Event, asks, answers, reads, writes, step, run, returned, woken, holding,
}
use sat_os_payload_sdk.Framework.Requests.Answers.{returned_value_matches}
use sat_os_payload_sdk.Framework.Requests.Deadlock.{
  response_completes_request, second_response_deadlocks,
}
use sat_os_payload_sdk.Framework.Requests.Counter.{payload_power_control}

-- A request of thread `r` whose call the controller accepts.
abbrev request : ℕ → Event
request r = asks (ok (code (pos 0))) r

abbrev location : Response
location = record { correlation_id = 1; payload = "(0, 0)" }

-- Two requests, and the response to the first; between them a power control with keepalive '1'.
abbrev answered : List Event
answered =
    request 5
    ∷ reads 8
    ∷ request 6
    ∷ writes 8
    ∷ request 5
    ∷ answers location 0
    ∷ answers location 0
    ∷ request 5
    ∷ request 5
    ∷ []

returned_value_matches_example : (v : Response) × (some location ≡ some v) × (v.correlation_id ≡ 1)
unfolding step
returned_value_matches_example =
    returned_value_matches "1" answered 5 1 (some location) (ground arith) refl

abbrev requester : ℕ
requester = 6

location_returned :
    let s' =
      run "1"
        (request 5 ∷ answers location 0 ∷ answers location 0 ∷ request 5 ∷ request 5 ∷ [])
        (run "1" (request 5 ∷ []) init) in
    (s'.asking 5 ≡ returned 1 (some location)) × (s'.responses 1 ≡ none) × (s'.cond ≡ none)
unfolding step
location_returned =
    response_completes_request "1" (run "1" (request 5 ∷ []) init) 5 0 1 location
      (ok (code (pos 0))) (record { held = true; notified = false; value = none }) refl refl refl
      refl refl

-- The response comes twice; the second one takes `_cond` when the requester has been woken.
abbrev answered_twice : List Event
answered_twice =
    request 5
    ∷ request 5
    ∷ answers location 0
    ∷ answers location 0
    ∷ request 5
    ∷ answers location 1
    ∷ []

second_response_deadlocks_example :
    let s =
      run "1" (request 5 ∷ answers location 1 ∷ request 6 ∷ []) (run "1" answered_twice init) in
    (s.asking 5 ≡ woken 1) × (s.answering 1 ≡ holding location) × (s.cond ≡ some 1)
unfolding step
second_response_deadlocks_example =
    second_response_deadlocks "1" answered_twice (request 5 ∷ answers location 1 ∷ request 6 ∷ []) 5
      1 1 location (ground arith) (ground arith) refl refl refl

abbrev config : Config
config = record {
  cookie = some "cookie";
  file_conn_str = some "conn";
  truetwin_dir = some "dir";
  share_name = some "share";
}

-- An upload service that is down, and a controller that accepts all.
abbrev upload : Uploader
upload file conn share path = ok false

abbrev controller : Controller
controller wire rpc = ok (pos 0)

power_control_calls_nothing :
    payload_power_control controller "1" (some config) (pos 3) (pos 1) [] ≡ (ok (code (pos 0)), [])
unfolding payload_power_control
power_control_calls_nothing = refl
