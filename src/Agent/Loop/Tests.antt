-- ===== src/Agent/Loop/Tests.antt =====
-- Concrete agents.
use sat_os_payload_sdk.Prelude.{
  ◌≡◌, refl, true, false, [], ◌∷◌, none, some, arith, if◌then◌else◌, ◌==◌,
}
use sat_os_payload_sdk.Exec.{ok}
use sat_os_payload_sdk.SocketProxy.Pair
use sat_os_payload_sdk.SocketProxy.Pair.{ProxySocket}
use sat_os_payload_sdk.Agent.Packets.{bytes}
use sat_os_payload_sdk.Agent.Loop.{Mode, atmos, Config, a_pair, Agent, mem, handle_exceptions}
use sat_os_payload_sdk.Agent.Loop.Recovery.{IsWatched}
use sat_os_payload_sdk.Agent.Loop.FlatSat.{flat_sat_keeps_closed_leg}

abbrev pub config : Mode → Config
config m = record {
  mode = m;
  flat_sat = true;
  udp = false;
  public_ip = "10.0.0.1";
  public_port = 80;
  server_ip = some "10.0.0.2";
  server_port = some 82;
  internal_peer_ip = "127.0.0.1";
  internal_peer_port = 81;
  bind_fails = λ net ip port. false;
}

abbrev pub pair : ProxySocket
pair = Pair.half_perma_connected 1 3

-- An agent with the permanent socket 1, the internal listener 2, and the peer 3 that has connected.
abbrev pub agent : Agent
agent = record {
  perma_socket = 1;
  internal_listener = some 2;
  web_listener = some 0;
  peer_connected = some 3;
  flat_sat_handler = some 0;
  action_map = λ s. if s == 1 then some 0 else if s == 3 then some 0 else none;
  known_sockets = 0 ∷ 1 ∷ 2 ∷ 3 ∷ [];
  handlers = λ h. a_pair pair;
  next_handler = 1;
  udppacket = bytes [];
  net = record { next_sock = 4; created = []; sent = []; connected = []; closed = [] };
}

pub agent-IsWatched : IsWatched agent
agent-IsWatched = record { perma = refl; mapped = λ s. ground arith }

flat_sat_keeps_closed_leg_example :
    let (r, a') = handle_exceptions (config atmos) 3 agent in
    (r ≡ ok tt)
    × (a'.handlers 0 ≡ a_pair (record pair { leg2 = some a'.perma_socket }))
    × (a'.action_map a'.perma_socket ≡ some 0)
    × (mem 1 a'.net.closed ≡ true)
    × (a'.perma_socket ≡ 4)
unfolding Pair.half_perma_connected
flat_sat_keeps_closed_leg_example =
    flat_sat_keeps_closed_leg (config atmos) agent 3 0 pair refl refl agent-IsWatched refl refl refl
      refl refl (λ e. absurd (omega (arith, e))) (omega arith)
