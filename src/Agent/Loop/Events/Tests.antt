-- ===== src/Agent/Loop/Events/Tests.antt =====
-- Concrete rounds of the agent.
use sat_os_payload_sdk.Prelude.{false, List, [], ◌∷◌, none, some}
use sat_os_payload_sdk.SocketProxy.Net.{Os, Sock}
use sat_os_payload_sdk.SocketProxy.Pair
use sat_os_payload_sdk.Agent.Loop.{Agent}
use sat_os_payload_sdk.Agent.Loop.Tests.{agent}
use sat_os_payload_sdk.Exec.{}

-- A network on which every call succeeds, and where every read answers one byte.
abbrev calm : Os
calm = record {
  connect_fails = λ net s ip port. false;
  send_fails = λ net s buf. false;
  recv = λ net s n. some (65 ∷ []);
}

-- The globals of a new process.
abbrev process : Agent
process = record agent {
  internal_listener = none;
  web_listener = none;
  peer_connected = none;
  flat_sat_handler = none;
  action_map = λ s. none;
  known_sockets = [];
  next_handler = 0;
}

-- The web listener is 4, the permanent socket 5, the internal listener 6: a connection of the peer,
-- then data from it.
abbrev first_rounds : List (List Sock × List Sock)
first_rounds = (6 ∷ [], []) ∷ (5 ∷ [], []) ∷ (7 ∷ [], []) ∷ []
