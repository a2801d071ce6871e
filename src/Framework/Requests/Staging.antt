-- ===== src/Framework/Requests/Staging.antt =====
-- `stage_file_download` of ChannelClient over the API function of that name.
use sat_os_payload_sdk.Prelude.{ℕ, suc, String, false, Option, none, some, ◌≡◌, arith, pos}
use sat_os_payload_sdk.Exec.{ok}
use sat_os_payload_sdk.Client.Upload.{Config, Uploader, file_download}
use sat_os_payload_sdk.Client.Calls.{Controller, Wire, api_pa_pc_stage_file_download}
use sat_os_payload_sdk.Framework.Requests.{Client, idle, registered, get_next_cid, step, asks}

-- `ChannelClient.stage_file_download(loc)` up to its wait, on the thread `r`.
pub stage_file_download :
    Controller → Uploader → String → Option Config → String → ℕ → Client × Wire → Client × Wire
unfolding api_pa_pc_stage_file_download get_next_cid step
stage_file_download controller upload keepalive config loc r (s, wire) =
    let cid = (get_next_cid s).1 in
    let (outcome, wire') =
      api_pa_pc_stage_file_download controller upload keepalive config (pos cid) loc wire in
    (step keepalive (asks outcome r) s, wire')

-- With the keepalive flag '1', an upload that fails is taken for a success: the API function answers
-- False, which equals An_SUCCESS, so the request is registered and waits for a response, though the
-- controller was never called.
pub failed_upload_waits :
    (controller : Controller) (upload : Uploader) (config : Config) (loc : String) (r : ℕ)
    (s : Client) (wire : Wire)
    → file_download upload config loc ≡ ok false
    → s.asking r ≡ idle
    → s.cond ≡ none
    → let (s', wire') = stage_file_download controller upload "1" (some config) loc r (s, wire) in
      (wire' ≡ wire) × (s'.asking r ≡ registered (suc s.next_cid))
unfolding stage_file_download
failed_upload_waits controller upload config loc r s wire failed e free = ground arith
