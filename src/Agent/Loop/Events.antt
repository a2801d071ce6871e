-- ===== src/Agent/Loop/Events.antt =====
-- A readable socket: `handle_readable` of agent.py, and the rounds of `worker`. What a read answers
-- is the operating system's; the packets of UDP mode go through `Packets`. A connection that is
-- accepted is a new socket. `worker` ends on an error of `select`, which is the end of its list.
pub mod Connections
pub mod Watched
mod Tests
use sat_os_payload_sdk.Prelude.{
  update, ℕ, zero, suc, ◌+◌, ◌≤◌, ◌<◌, String, ◌≡◌, ◌≢◌, refl, Bool, true, false, not, ◌&&◌, ◌||◌,
  List, [], ◌∷◌, ◌++◌, Option, none, some, ◌==◌, is_some, if◌then◌else◌, arith,
}
use sat_os_payload_sdk.Exec.{
  Error, Result, ok, raised, key_error, system_exit, type_error, attribute_error, Exec, ◌>>=◌, ◌>>◌,
  pure, throw, gets, modify, or_raise,
}
use sat_os_payload_sdk.SocketProxy.Net
use sat_os_payload_sdk.SocketProxy.Net.{Net, Os, Sock, Bytes, stream}
use sat_os_payload_sdk.SocketProxy.Pair
use sat_os_payload_sdk.SocketProxy.Pair.{ProxySocket, is_sock}
use sat_os_payload_sdk.SocketProxy.HalfPerma
use sat_os_payload_sdk.SocketProxy.HalfPerma.{HalfPerma}
use sat_os_payload_sdk.Agent.Packets.{
  Buffer, bytes, list, content, Outcome, saved, dropped, still_running, forwarded, failed, Udp,
  handle_udp,
}
use sat_os_payload_sdk.Agent.Loop.{
  Mode, Config, is_user, Handler, a_pair, a_half_perma, Agent, on_net, watch, assign, new_handler,
  handle_exceptions, recover_perma_sock, mem,
}

module _ (os : Os) (c : Config) (g_udp_cmd_size : ℕ) where
  -- `handler.on_data(sock, databuf)` on the handler's object.
  abbrev object_on_data : Handler → Sock → Bytes → Exec (Handler × Net) (Option Sock)
  object_on_data (a_pair p) s buf (h, net) =
      let (r, (p', net')) = Pair.on_data os s buf (p, net) in (r, (a_pair p', net'))
  object_on_data (a_half_perma p) s buf (h, net) =
      let (r, (p', net')) = HalfPerma.on_data os s buf (p, net) in (r, (a_half_perma p', net'))

  handler_on_data : ℕ → Sock → Bytes → Exec Agent (Option Sock)
  handler_on_data h s buf a =
      let (r, (new, net')) = object_on_data (a.handlers h) s buf (a.handlers h, a.net) in
      (r, record a { handlers = update a.handlers h new; net = net' })

  -- A socket that data was forwarded to for the first time.
  pub register_leg : ℕ → Sock → Exec Agent (Unit {0})
  register_leg h s a =
      if is_some (a.action_map s) then (ok tt, a) else (watch s >>= λ _. assign s h) a

  after_on_data : ℕ → Option Sock → Exec Agent (Unit {0})
  unfolding register_leg
  after_on_data h none a = (ok tt, a)
  after_on_data h (some s) a = register_leg h s a

  -- Data that goes to the handler.
  pub forward : Sock → Bytes → Exec Agent (Unit {0})
  unfolding handler_on_data after_on_data
  forward s buf = do
    h ← λ a. or_raise (a.action_map s) key_error a
    t ← handler_on_data h s buf
    after_on_data h t

  -- In UDP mode a dropped packet leaves a list behind, and `sendall` of a list raises a TypeError.
  udp_on_data : Sock → Buffer → Exec Agent (Option Sock)
  unfolding handler_on_data
  udp_on_data s (bytes b) a = (or_raise (a.action_map s) key_error >>= λ h. handler_on_data h s b) a
  udp_on_data s (list b) a = (raised type_error, a)

  after_udp : Sock → Outcome → Exec Agent (Unit {0})
  unfolding register_leg
  after_udp s (forwarded t) a = (or_raise (a.action_map s) key_error >>= λ h. register_leg h t) a
  after_udp s (failed e) a = (raised e, a)
  after_udp s _ a = (ok tt, a)

  read_udp : Sock → Bytes → Exec Agent (Unit {0})
  unfolding udp_on_data after_udp
  read_udp s buf a =
      let (o, u) = handle_udp g_udp_cmd_size (udp_on_data s) a.udppacket buf a in
      after_udp s o (record u.world { udppacket = u.udppacket })

  -- A readable socket that has a handler.
  read_data : Sock → Option Bytes → Exec Agent (Unit {0})
  unfolding forward read_udp
  read_data s none a = handle_exceptions c s a
  read_data s (some []) a = handle_exceptions c s a
  read_data s (some (b ∷ buf)) a =
      if (s == a.perma_socket) && (c.udp && is_user c.mode)
      then read_udp s (b ∷ buf) a
      else forward s (b ∷ buf) a

  -- Both legs of a new handler; `other_leg.fileno()` raises if there is none.
  join : ℕ → Sock → Option Sock → Exec Agent (Unit {0})
  join h s none a = (raised attribute_error, a)
  join h s (some t) a = (do assign s h; assign t h; watch s; watch t) a

  -- `socket_proxy.OnTheFly(newsock, gAgentPublicIp, gAgentPublicPort)` for a connection from the
  -- application on the user's side. The constructor's exception goes through.
  accept_user : Exec Agent (Unit {0})
  unfolding join
  accept_user = do
    s ← on_net (Net.create stream)
    p ← on_net (Pair.on_the_fly_pair os s c.public_ip c.public_port false)
    h ← new_handler (a_pair p)
    join h s p.leg2

  -- A connection of the peer to the internal listener on the ATMOS side, where none is connected.
  accept_peer : Sock → Exec Agent (Unit {0})
  accept_peer s = do
    h ← λ a. new_handler (a_pair (Pair.half_perma_connected a.perma_socket s)) a
    assign s h
    λ a. assign a.perma_socket h a
    modify (λ a. record a { flat_sat_handler = if c.flat_sat then some h else a.flat_sat_handler })
    watch s
    modify (λ a. record a { peer_connected = some s })

  -- A second connection drops both, and recovers the permanent socket.
  drop_peer : Option Sock → Exec Agent (Unit {0})
  drop_peer none a = (ok tt, a)
  drop_peer (some t) a = handle_exceptions c t a

  refuse_peer : Sock → Exec Agent (Unit {0})
  unfolding drop_peer
  refuse_peer s = do
    λ a. handle_exceptions c a.perma_socket a
    λ a. drop_peer a.peer_connected a
    on_net (Net.close s)

  accept_internal : Exec Agent (Unit {0})
  unfolding accept_peer refuse_peer
  accept_internal = do
    s ← on_net (Net.create stream)
    λ a. if is_some a.peer_connected then refuse_peer s a else accept_peer s a

  -- A connection from the web, whose second leg is connected at once if the peer accepts.
  install : ℕ → Sock → Exec Agent (Unit {0})
  install h s = do assign s h; watch s

  adopt : ℕ → Option Sock → Exec Agent (Unit {0})
  unfolding install
  adopt h none a = (ok tt, a)
  adopt h (some t) a = install h t a

  confirm : ℕ → ProxySocket → Exec Agent (Option Sock)
  confirm h p a =
      let (r, (p', net')) = Pair.confirm_connection os false (p, a.net) in
      (r, record a { handlers = update a.handlers h (a_pair p'); net = net' })

  accept_web : Exec Agent (Unit {0})
  unfolding install adopt confirm
  accept_web = do
    s ← on_net (Net.create stream)
    p ← on_net (Pair.deferred s c.internal_peer_ip c.internal_peer_port)
    h ← new_handler (a_pair p)
    install h s
    t ← confirm h p
    adopt h t

  pub accept : Mode → Sock → Exec Agent (Unit {0})
  unfolding accept_user accept_internal accept_web
  accept Mode.user s a =
      if is_sock a.internal_listener s then accept_user a else (raised system_exit, a)
  accept Mode.atmos s a =
      if is_sock a.internal_listener s
      then accept_internal a
      else if is_sock a.web_listener s
      then accept_web a
      else (raised system_exit, a)

  -- `handle_readable(sock)`
  pub handle_readable : Sock → Exec Agent (Unit {0})
  unfolding read_data accept
  handle_readable s a =
      if is_some (a.action_map s)
      then read_data s (Net.socket_recv os s 8192 a.net).0 a
      else if s == a.perma_socket
      then recover_perma_sock c a
      else accept c.mode s a

  -- The readable sockets of one `select`, behind the permanent socket; a socket that was closed
  -- earlier in the round is passed over.
  read_all : List Sock → Exec Agent (Unit {0})
  unfolding handle_readable
  read_all [] a = (ok tt, a)
  read_all (s ∷ more) a =
      if mem s a.net.closed then read_all more a else (handle_readable s >>= λ _. read_all more) a

  except_all : List Sock → Exec Agent (Unit {0})
  except_all [] a = (ok tt, a)
  except_all (s ∷ more) a =
      if mem s a.net.closed
      then except_all more a
      else (handle_exceptions c s >>= λ _. except_all more) a

  -- One round of `worker`, by the sets that `select` answers: the permanent socket goes first, and
  -- then the round is over.
  pub worker_round : List Sock → List Sock → Exec Agent (Unit {0})
  unfolding read_all except_all
  worker_round rd_set except_set a =
      let perma = a.perma_socket in
      if mem perma rd_set
      then (handle_readable perma >>= λ _ b.
            if mem b.perma_socket except_set
            then handle_exceptions c b.perma_socket b
            else (ok tt, b))
          a
      else if mem perma except_set
      then handle_exceptions c perma a
      else (read_all rd_set >>= λ _. except_all except_set) a

  pub worker : List (List Sock × List Sock) → Exec Agent (Unit {0})
  unfolding worker_round
  worker [] a = (ok tt, a)
  worker ((rd_set, except_set) ∷ rounds) a =
      (worker_round rd_set except_set >>= λ _. worker rounds) a
