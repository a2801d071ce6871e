-- ===== src/SocketProxy/Pair.antt =====
-- `class ProxySocket` and its subclasses `OnTheFly`, `OnTheFlyDeferredConnect` and
-- `HalfPermaConnectedSockets`. A method takes the object and the network and returns both.
use sat_os_payload_sdk.Prelude.{
  ℕ, String, Bool, false, not, List, [], ◌∷◌, ◌++◌, Option, none, some, ◌==◌, if◌then◌else◌,
}
use sat_os_payload_sdk.Exec.{Error, attribute_error, Exec, ok, raised, ◌>>=◌, ◌>>◌, pure}
use sat_os_payload_sdk.SocketProxy.Net
use sat_os_payload_sdk.SocketProxy.Net.{Net, Os, Sock, Bytes, stream, dgram}

-- The class of the object. A deferred connection holds the socket that it will connect.
pub data Kind : Type 0 where
  proxy_socket on_the_fly half_perma_connected_sockets : Kind
  on_the_fly_deferred_connect : Sock → Kind

pub record ProxySocket : Type 0 where
  pub kind : Kind
  pub leg1 : Option Sock
  pub leg2 : Option Sock
  pub peer_ip : String
  pub peer_port : ℕ

abbrev pub Proxied : Type 0
Proxied = ProxySocket × Net

-- `leg == sock`, where `leg` may be None.
abbrev pub is_sock : Option Sock → Sock → Bool
is_sock none s = false
is_sock (some t) s = t == s

-- An action of the network alone.
abbrev pub on_net : {A : Type 0} → Exec Net A → Exec Proxied A
on_net m (p, net) = let (r, net') = m net in (r, (p, net'))

-- `HalfPermaConnectedSockets(perma_sock, other_sock)`
unfoldable pub half_perma_connected : Sock → Sock → ProxySocket
half_perma_connected perma other = record {
  kind = half_perma_connected_sockets;
  leg1 = some perma;
  leg2 = some other;
  peer_ip = "";
  peer_port = 0;
}

-- `OnTheFlyDeferredConnect(sock1, peer_ip, peer_port)`
unfoldable pub deferred : Sock → String → ℕ → Exec Net ProxySocket
deferred sock1 ip port = do
  leg2_socket ← Net.create stream
  pure (record {
    kind = on_the_fly_deferred_connect leg2_socket;
    leg1 = some sock1;
    leg2 = none;
    peer_ip = ip;
    peer_port = port;
  })

unfoldable pub other_leg : ProxySocket → Sock → Option Sock
other_leg p s = if is_sock p.leg1 s then p.leg2 else p.leg1

abbrev pub present : Option Sock → List (Option Sock)
present none = []
present (some s) = some s ∷ []

unfoldable pub get_closable_connections : ProxySocket → List (Option Sock)
get_closable_connections p = present p.leg1 ++ present p.leg2

abbrev close_leg : Option Sock → Exec Net (Unit {0})
close_leg none net = (raised attribute_error, net)
close_leg (some s) net = Net.close s net

abbrev close_other : Option Sock → Exec Net (Option Sock)
close_other none net = (ok none, net)
close_other (some s) net = let (r, net') = Net.close s net in (ok (some s), net')

on_close_by : Kind → Option Sock → Exec Net (Option Sock)
on_close_by half_perma_connected_sockets other net = (ok none, net)
on_close_by _ other net = close_other other net

unfoldable pub on_close : Sock → Exec Proxied (Option Sock)
unfolding on_close_by other_leg
on_close s (p, net) = on_net (on_close_by p.kind (other_leg p s)) (p, net)

forget_legs : Kind → ProxySocket → ProxySocket
forget_legs half_perma_connected_sockets p = record p { leg2 = none }
forget_legs _ p = record p { leg1 = none; leg2 = none }

close_legs : Kind → ProxySocket → Exec Net (Unit {0})
close_legs half_perma_connected_sockets p = close_leg p.leg2
close_legs _ p = close_leg p.leg1 >> close_leg p.leg2

unfoldable pub close_connections : Exec Proxied (Unit {0})
unfolding close_legs forget_legs
close_connections (p, net) =
    (do on_net (close_legs p.kind p); λ (q, n). (ok tt, (forget_legs q.kind q, n))) (p, net)

module _ (os : Os) where
  -- `OnTheFly(sock1, peer_ip, peer_port, gUDPMode)`
  unfoldable pub on_the_fly_pair : Sock → String → ℕ → Bool → Exec Net ProxySocket
  on_the_fly_pair sock1 ip port udp_mode = do
    leg2 ← Net.create (if udp_mode then dgram else stream)
    Net.connect os leg2 ip port
    pure (record {
      kind = on_the_fly;
      leg1 = some sock1;
      leg2 = some leg2;
      peer_ip = ip;
      peer_port = port;
    })

  abbrev adopt : Sock → Option Error → Exec Proxied (Option Sock)
  adopt s none (p, net) = (ok (some s), (record p { leg2 = some s }, net))
  adopt s (some e) st = (ok none, st)

  confirm_by : Kind → Bool → Exec Proxied (Option Sock)
  confirm_by (on_the_fly_deferred_connect s) is_leg1 (p, net) =
      if is_leg1
      then (ok none, (p, net))
      else (on_net (Net.socket_connect os s p.peer_ip p.peer_port) >>= adopt s) (p, net)
  confirm_by _ is_leg1 st = (ok none, st)

  unfoldable pub confirm_connection : Bool → Exec Proxied (Option Sock)
  unfolding confirm_by Net.socket_connect
  confirm_connection is_leg1 (p, net) = confirm_by p.kind is_leg1 (p, net)

  abbrev or_confirm : Option Sock → Bool → Exec Proxied (Option Sock)
  or_confirm (some t) is_leg1 st = (ok (some t), st)
  or_confirm none is_leg1 st = confirm_connection is_leg1 st

  abbrev send_to : Option Sock → Bytes → Exec Proxied (Unit {0})
  send_to none buf st = (ok tt, st)
  send_to (some t) buf st = on_net (Net.sendall os t buf) st

  unfoldable pub on_data : Sock → Bytes → Exec Proxied (Option Sock)
  unfolding confirm_connection
  on_data s buf (p, net) =
      let from_leg1 = is_sock p.leg1 s in
      let target_leg = if from_leg1 then p.leg2 else p.leg1 in
      (do target ← or_confirm target_leg (not from_leg1); send_to target buf; pure target) (p, net)
