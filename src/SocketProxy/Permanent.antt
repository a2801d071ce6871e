-- ===== src/SocketProxy/Permanent.antt =====
-- `HalfPerma` brings up its second leg at most once, and closes what it should.
use sat_os_payload_sdk.Prelude.{
  ℕ, suc, ◌+◌, ◌≤◌, ◌≡◌, ◌≢◌, List, [], ◌∷◌, ◌++◌, Option, none, some, arith, length, if◌then◌else◌,
  length-append,
}
use sat_os_payload_sdk.Exec.{ok, raised, os_error}
use sat_os_payload_sdk.SocketProxy.Net.{Net, Os, Sock, Bytes, stream, dgram}
use sat_os_payload_sdk.SocketProxy.Pair.{ProxySocket, Kind}
use sat_os_payload_sdk.SocketProxy.HalfPerma
use sat_os_payload_sdk.SocketProxy.HalfPerma.{HalfPerma, Permanent}

-- The agent reads on after an event whatever came of it.
abbrev pub relay : Os → List (Sock × Bytes) → Permanent → Permanent
relay os [] st = st
relay os ((s, buf) ∷ events) st = relay os events (HalfPerma.on_data os s buf st).1

-- A proxy, once there, is an `OnTheFly` pair with both legs.
abbrev pub IsUp : Option ProxySocket → Type 0
IsUp none = Unit
IsUp (some p) = (p.kind ≡ Kind.on_the_fly) × (p.leg1 ≢ none) × (p.leg2 ≢ none)

-- Connections that may still be made.
abbrev pub room : Option ProxySocket → ℕ
room none = 1
room (some p) = 0

on_data-IsUp :
    (os : Os) (s : Sock) (buf : Bytes) (h : HalfPerma) (net : Net)
    → IsUp h.proxy
    → let (h', net') = (HalfPerma.on_data os s buf (h, net)).1 in
      IsUp h'.proxy × (length net'.connected + room h'.proxy ≤ length net.connected + room h.proxy)
unfolding HalfPerma.on_data
on_data-IsUp os s buf h net up =
    ground (arith, length-append {0} net.connected ((net.next_sock, h.peer_ip, h.peer_port) ∷ []))

-- Whatever data arrives on either side and whatever calls fail, the permanent socket's relay makes
-- at most one successful connection to its peer before any is up, and none once one is up; the pair
-- that it keeps always has both legs.
pub connects_once :
    (os : Os) (events : List (Sock × Bytes)) (h : HalfPerma) (net : Net)
    → IsUp h.proxy
    → let (h', net') = relay os events (h, net) in
      IsUp h'.proxy × (length net'.connected ≤ length net.connected + room h.proxy)
connects_once os [] h net up = (up, omega arith)
connects_once os ((s, buf) ∷ events) h net up =
    let (h', net') = (HalfPerma.on_data os s buf (h, net)).1 in
    let step : IsUp h'.proxy
        × (length net'.connected + room h'.proxy ≤ length net.connected + room h.proxy) =
      on_data-IsUp os s buf h net up in
    let rest : (let (h'', net'') = relay os events (h', net') in
        IsUp h''.proxy × (length net''.connected ≤ length net'.connected + room h'.proxy)) =
      connects_once os events h' net' step.0 in
    (rest.0, omega (arith, step.1, rest.1))

-- The first data from the permanent socket: a new socket of the chosen family is created. If the
-- peer refuses, the exception comes out of `on_data`, the proxy stays unset, and the new socket is
-- left behind; if it accepts, the proxy is kept, and the data goes to it unless the write fails.
pub first_data :
    (os : Os) (buf : Bytes) (h : HalfPerma) (net : Net)
    → h.proxy ≡ none
    → HalfPerma.on_data os h.leg1 buf (h, net) ≡ (
        let leg2 = net.next_sock in
        let fresh = record net {
          next_sock = suc leg2;
          created = net.created ++ (leg2, if h.udp_mode then dgram else stream) ∷ [];
        } in
        let joined = record fresh {
          connected = net.connected ++ (leg2, h.peer_ip, h.peer_port) ∷ [];
        } in
        let kept = record h {
          proxy = some (record {
            kind = Kind.on_the_fly;
            leg1 = some h.leg1;
            leg2 = some leg2;
            peer_ip = h.peer_ip;
            peer_port = h.peer_port;
          });
        } in
        if os.connect_fails fresh leg2 h.peer_ip h.peer_port
        then (raised os_error, (h, fresh))
        else if os.send_fails joined leg2 buf
        then (raised os_error, (kept, joined))
        else (ok (some leg2), (kept, record joined { sent = net.sent ++ (leg2, buf) ∷ [] })))
unfolding HalfPerma.on_data
first_data os buf h net none_yet = ground arith
