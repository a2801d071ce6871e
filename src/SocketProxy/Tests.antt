-- ===== src/SocketProxy/Tests.antt =====
-- Concrete relays.
use sat_os_payload_sdk.Prelude.{
  ◌≡◌, refl, false, List, [], ◌∷◌, ◌++◌, none, some, inl, inr, arith, length, ◌≤◌,
}
use sat_os_payload_sdk.Exec.{ok}
use sat_os_payload_sdk.SocketProxy.Net.{Net, Os, Sock, Bytes}
use sat_os_payload_sdk.SocketProxy.Pair
use sat_os_payload_sdk.SocketProxy.Pair.{ProxySocket, Kind}
use sat_os_payload_sdk.SocketProxy.HalfPerma.{HalfPerma}
use sat_os_payload_sdk.SocketProxy.Relay.{
  bytes_of, on_data_both_legs, relay_forwards, relay_streams, deferred_on_data, on_data_dropped,
}
use sat_os_payload_sdk.SocketProxy.Relay
use sat_os_payload_sdk.SocketProxy.Tunnel.{tunnel_streams, after, Hop}
use sat_os_payload_sdk.SocketProxy.Tunnel
use sat_os_payload_sdk.SocketProxy.Permanent
use sat_os_payload_sdk.SocketProxy.Permanent.{connects_once, first_data, IsUp, room}

-- A network on which every call succeeds.
abbrev calm : Os
calm = record {
  connect_fails = λ net s ip port. false;
  send_fails = λ net s buf. false;
  recv = λ net s n. some [];
}

abbrev net : Net
net = record { next_sock = 3; created = []; sent = []; connected = []; closed = [] }

-- A pair of the sockets 1 and 2.
abbrev pair : ProxySocket
pair = record {
  kind = Kind.on_the_fly;
  leg1 = some 1;
  leg2 = some 2;
  peer_ip = "10.0.0.1";
  peer_port = 80;
}

abbrev events : List (Sock × Bytes)
events = (1, 10 ∷ 11 ∷ []) ∷ (2, 20 ∷ []) ∷ (1, 12 ∷ []) ∷ []

relay_streams_example :
    let (r, (p', net')) = Relay.relay calm events (pair, net) in
    (r ≡ ok tt)
    × (p' ≡ pair)
    × (bytes_of 2 net'.sent ≡ 10 ∷ 11 ∷ 12 ∷ [])
    × (bytes_of 1 net'.sent ≡ 20 ∷ [])
relay_streams_example =
    relay_streams calm 1 2 events pair net (λ n s buf. refl) (λ e. absurd (omega (arith, e)))
      (inl refl, (inr refl, (inl refl, tt))) refl refl

abbrev permanent : HalfPerma
permanent = record {
  leg1 = 1;
  peer_ip = "10.0.0.1";
  peer_port = 80;
  proxy = none;
  udp_mode = false;
}

connects_once_example :
    let (h', net') = Permanent.relay calm events (permanent, net) in
    IsUp h'.proxy × (length net'.connected ≤ 1)
connects_once_example = connects_once calm events permanent net tt

-- Two hops, with the byte 21 still on its way to the second one's near end.
abbrev first_hop : Hop
first_hop = record {
  os = calm;
  near = 1;
  far = 2;
  pair = pair;
  net = net;
  events = (1, 10 ∷ 11 ∷ []) ∷ (2, 30 ∷ 31 ∷ []) ∷ (1, 12 ∷ 21 ∷ []) ∷ [];
}

abbrev second_hop : Hop
second_hop = record first_hop { events = (2, 30 ∷ []) ∷ (1, 10 ∷ 11 ∷ 12 ∷ []) ∷ (2, 31 ∷ []) ∷ [] }

first_hop-IsUp : Tunnel.IsUp first_hop
first_hop-IsUp = record {
  accepts = λ n s buf. refl;
  distinct = λ e. absurd (omega (arith, e));
  from_legs = (inl refl, (inr refl, (inl refl, tt)));
  near_leg = refl;
  far_leg = refl;
  near_fresh = refl;
  far_fresh = refl;
}

second_hop-IsUp : Tunnel.IsUp second_hop
second_hop-IsUp = record {
  accepts = λ n s buf. refl;
  distinct = λ e. absurd (omega (arith, e));
  from_legs = (inr refl, (inl refl, (inr refl, tt)));
  near_leg = refl;
  far_leg = refl;
  near_fresh = refl;
  far_fresh = refl;
}

tunnel_streams_example :
    (bytes_of 2 (after second_hop).sent ++ 21 ∷ [] ≡ 10 ∷ 11 ∷ 12 ∷ 21 ∷ [])
    × (bytes_of 1 (after first_hop).sent ++ [] ≡ 30 ∷ 31 ∷ [])
unfolding Pair.on_data
tunnel_streams_example =
    tunnel_streams first_hop second_hop (21 ∷ []) [] first_hop-IsUp second_hop-IsUp refl refl
