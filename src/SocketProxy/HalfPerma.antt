-- ===== src/SocketProxy/HalfPerma.antt =====
-- `class HalfPerma`: the permanent socket of the user side, whose second leg is an `OnTheFly`
-- pair that the first data from the permanent socket brings up.
use sat_os_payload_sdk.Prelude.{
  ℕ, String, Bool, List, [], ◌∷◌, Option, none, some, ◌==◌, if◌then◌else◌,
}
use sat_os_payload_sdk.Exec.{
  Result, ok, attribute_error, system_exit, Exec, throw, ◌>>=◌, ◌>>◌, pure,
}
use sat_os_payload_sdk.SocketProxy.Net
use sat_os_payload_sdk.SocketProxy.Net.{Net, Os, Sock, Bytes}
use sat_os_payload_sdk.SocketProxy.Pair
use sat_os_payload_sdk.SocketProxy.Pair.{ProxySocket, Proxied}

pub record HalfPerma : Type 0 where
  pub leg1 : Sock
  pub peer_ip : String
  pub peer_port : ℕ
  pub proxy : Option ProxySocket
  pub udp_mode : Bool

abbrev pub Permanent : Type 0
Permanent = HalfPerma × Net

-- `HalfPerma(sock1, peer_ip, peer_port, gUDPMode)`
unfoldable pub half_perma : Sock → String → ℕ → Bool → HalfPerma
half_perma sock1 ip port udp_mode = record {
  leg1 = sock1;
  peer_ip = ip;
  peer_port = port;
  proxy = none;
  udp_mode = udp_mode;
}

-- A method of `self.proxy`, which is `p`.
abbrev on_proxy : {A : Type 0} → ProxySocket → Exec Proxied A → Exec Permanent A
on_proxy p m (h, net) =
    let (r, (p', net')) = m (p, net) in (r, (record h { proxy = some p' }, net'))

abbrev proxy_leg2 : Option ProxySocket → Option Sock
proxy_leg2 none = none
proxy_leg2 (some p) = p.leg2

-- Always two entries; the second is None before the first data.
unfoldable pub get_closable_connections : HalfPerma → List (Option Sock)
get_closable_connections h = some h.leg1 ∷ proxy_leg2 h.proxy ∷ []

abbrev close_proxy : Option ProxySocket → Exec Permanent (Option Sock)
close_proxy none st = throw attribute_error st
close_proxy (some p) (h, net) = on_proxy p (Pair.on_close h.leg1) (h, net)

unfoldable pub on_close : Sock → Exec Permanent (Option Sock)
unfolding Pair.on_close
on_close s (h, net) =
    if s == h.leg1 then throw system_exit (h, net) else (do close_proxy h.proxy; pure none) (h, net)

unfoldable pub close_connections : Exec Permanent (Unit {0})
unfolding Pair.on_close
close_connections (h, net) =
    (do close_proxy h.proxy; λ (k, n). (ok tt, (record k { proxy = none }, n))) (h, net)

-- An action of the network alone.
abbrev on_permanent : {A : Type 0} → Exec Net A → Exec Permanent A
on_permanent m (h, net) = let (r, net') = m net in (r, (h, net'))

module _ (os : Os) where
  abbrev keep_proxy : HalfPerma → Result ProxySocket × Net → Result ProxySocket × Permanent
  keep_proxy h (ok p, net) = (ok p, (record h { proxy = some p }, net))
  keep_proxy h (Result.raised e, net) = (Result.raised e, (h, net))

  ensure_proxy : Option ProxySocket → Exec Permanent ProxySocket
  ensure_proxy (some p) st = (ok p, st)
  ensure_proxy none (h, net) =
      keep_proxy h (Pair.on_the_fly_pair os h.leg1 h.peer_ip h.peer_port h.udp_mode net)

  unfoldable pub on_data : Sock → Bytes → Exec Permanent (Option Sock)
  unfolding ensure_proxy Pair.on_the_fly_pair Pair.on_data
  on_data s buf (h, net) =
      if h.leg1 == s
      then (do p ← ensure_proxy h.proxy; on_proxy p (Pair.on_data os s buf)) (h, net)
      else (do on_permanent (Net.sendall os h.leg1 buf); pure (some h.leg1)) (h, net)
