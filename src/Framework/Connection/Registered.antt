-- ===== src/Framework/Connection/Registered.antt =====
-- What a connection has done when it stands, and when it is taken down.
use sat_os_payload_sdk.Prelude.{
  String, true, ◌≡◌, refl, [], ◌∷◌, ◌++◌, Option, none, some, ℤ, pos, arith, is_some, ap, ◌∙◌, inl,
  inr, append_assoc,
}
use sat_os_payload_sdk.Exec.{Error, Result, ok, raised, Result-cases}
use sat_os_payload_sdk.Client.Upload.{Config}
use sat_os_payload_sdk.Client.Channel.{
  Host, Settings, Channel, Trace, stop_server, sleep, delete_channel, create_channel,
}
use sat_os_payload_sdk.Client.Calls.{
  Controller, Wire, code, Rpc, Request, register, response_shutdown, api_call, api_pa_pc_register,
  api_pa_pc_response_shutdown,
}
use sat_os_payload_sdk.Framework.Connection.{
  Link, connect, connect_with, require_success, disconnect, do_nothing,
}

-- The registration, with the cookie of the configuration.
abbrev pub registration : String → Rpc
registration cookie = record { request = register (pos 0) do_nothing; cookie = cookie }

abbrev cookie_rpc : Request → String → Rpc
cookie_rpc r cookie = record { request = r; cookie = cookie }

api_call-eq :
    (controller : Controller) (config : Config) (r : Request) (w : Wire) {cookie : String}
    → config.cookie ≡ some cookie
    → api_call controller (some config) r w ≡ elim (controller w (cookie_rpc r cookie)) [
      | ok c ↦ (ok (code c), w ++ cookie_rpc r cookie ∷ [])
      | raised e ↦ (raised e, w ++ cookie_rpc r cookie ∷ [])
    ]
unfolding api_call
api_call-eq controller config r w has = rw has

api_call-ok :
    (controller : Controller) (config : Config) (r : Request) (w : Wire) {cookie : String} {c : ℤ}
    → config.cookie ≡ some cookie
    → controller w (cookie_rpc r cookie) ≡ ok c
    → api_call controller (some config) r w ≡ (ok (code c), w ++ cookie_rpc r cookie ∷ [])
api_call-ok controller config r w has is = rw (api_call-eq controller config r w has, is)

api_call-raised :
    (controller : Controller) (config : Config) (r : Request) (w : Wire) {cookie : String}
    {e : Error}
    → config.cookie ≡ some cookie
    → controller w (cookie_rpc r cookie) ≡ raised e
    → api_call controller (some config) r w ≡ (raised e, w ++ cookie_rpc r cookie ∷ [])
api_call-raised controller config r w has is = rw (api_call-eq controller config r w has, is)

succeeded :
    (v : ℤ) (l : Link) {k' : Link}
    → require_success (code v) l ≡ (ok tt, k')
    → (v ≡ pos 0) × (k' ≡ l)
succeeded (pos n) l h = ground (arith, h)
succeeded (ℤ.negsuc n) l h = cc h

connect_with-registers :
    (controller : Controller) (config : Config) (k : Link) (r : Result (Option Channel)) (t : Trace)
    → {cookie : String} {k' : Link} → config.cookie ≡ some cookie
    → connect_with controller (some config) (λ l. (r, record l { trace = t })) k ≡ (ok tt, k')
    → (is_some k'.channel ≡ true)
      × (k'.wire ≡ k.wire ++ registration cookie ∷ [])
      × (controller k.wire (registration cookie) ≡ ok (pos 0))
unfolding connect_with api_pa_pc_register
connect_with-registers controller config k (raised x) t has e = cc e
connect_with-registers controller config k (ok none) t has e = cc e
connect_with-registers controller config k (ok (some c)) t {cookie} {k'} has e =
    elim (Result-cases (controller k.wire (registration cookie))) [
      | inl (v, is) ↦
          let h =
            rw (api_call-ok controller config (register (pos 0) do_nothing) k.wire has is) at e in
          let (zero, same) =
            succeeded v
              (record { channel = some c; trace = t; wire = k.wire ++ registration cookie ∷ [] })
              h in
          (rw same refl, rw same refl, is ∙ ap ok zero)
      | inr (x, is) ↦
          let h =
            rw (api_call-raised controller config (register (pos 0) do_nothing) k.wire has is) at
              e in
          cc h
    ]

-- Where the connection comes about, there is a channel, and the last call that reached the
-- controller is the registration with the cookie of config.json, which the controller answered with
-- An_SUCCESS.
pub connect-registers :
    (host : Host) (settings : Settings) (controller : Controller) (config : Config) (k : Link)
    {cookie : String} {k' : Link}
    → config.cookie ≡ some cookie
    → connect controller (some config) host settings k ≡ (ok tt, k')
    → (is_some k'.channel ≡ true)
      × (k'.wire ≡ k.wire ++ registration cookie ∷ [])
      × (controller k.wire (registration cookie) ≡ ok (pos 0))
unfolding connect
connect-registers host settings controller config k has e =
    let made = create_channel host settings k.trace in
    connect_with-registers controller config k made.0 made.1 has e

-- Taking the connection down sends the answer to the shutdown first. If that call comes back, with
-- whatever code, the server is stopped and the pause made; if it raises, the exception leaves the method and the
-- server keeps running.
pub disconnect_lem :
    (controller : Controller) (config : Config) (cid : ℤ) {cookie : String} (k : Link)
    → config.cookie ≡ some cookie
    → let rpc : Rpc = record { request = response_shutdown cid (pos 0); cookie = cookie } in
      let sent = record k { wire = k.wire ++ rpc ∷ [] } in
      disconnect controller (some config) cid k ≡ elim (controller k.wire rpc) [
        | ok c ↦ (ok tt, record sent { trace = k.trace ++ stop_server 5 ∷ sleep 7 ∷ [] })
        | raised e ↦ (raised e, sent)
      ]
unfolding disconnect api_pa_pc_response_shutdown delete_channel
disconnect_lem controller config cid {cookie} k has =
    let rpc : Rpc = record { request = response_shutdown cid (pos 0); cookie = cookie } in
    let r = response_shutdown cid (pos 0) in
    elim (Result-cases (controller k.wire rpc)) [
      | inl (c, is) ↦
          rw (api_call-ok controller config r k.wire has is, is)
            (rw (append_assoc k.trace (stop_server 5 ∷ []) (sleep 7 ∷ [])))
      | inr (e, is) ↦ rw (api_call-raised controller config r k.wire has is, is)
    ]
