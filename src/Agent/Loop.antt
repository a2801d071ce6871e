-- ===== src/Agent/Loop.antt =====
-- The sockets and handlers of agent.py: `setup_permanent_socket`, `install_permanent_handler`,
-- `recover_perma_sock` and `handle_exceptions`. A socket's descriptor is its number in the network: a
-- descriptor that the system gives again after a close was taken out of the action map before. The
-- waits for a connection end with one; a failed attempt of the user's side to connect changes nothing.
pub mod Events
pub mod FlatSat
pub mod Recovery
pub mod Start
mod Tests
use sat_os_payload_sdk.Prelude.{
  update, ℕ, suc, String, Bool, true, false, not, ◌&&◌, ◌||◌, List, [], ◌∷◌, ◌++◌, Option, none,
  some, ◌==◌, is_some, if◌then◌else◌,
}
use sat_os_payload_sdk.Exec.{
  Error, Result, ok, raised, key_error, value_error, os_error, type_error, index_error,
  attribute_error, Exec, ◌>>=◌, ◌>>◌, pure, throw, gets, modify, or_raise,
}
use sat_os_payload_sdk.SocketProxy.Net
use sat_os_payload_sdk.SocketProxy.Net.{Net, Os, Sock, Bytes, stream, Family}
use sat_os_payload_sdk.SocketProxy.Pair
use sat_os_payload_sdk.SocketProxy.Pair.{ProxySocket, is_sock}
use sat_os_payload_sdk.SocketProxy.HalfPerma
use sat_os_payload_sdk.SocketProxy.HalfPerma.{HalfPerma}
use sat_os_payload_sdk.Agent.Packets.{Buffer}

pub data Mode : Type 0 where
  user atmos : Mode

abbrev pub is_user : Mode → Bool
is_user user = true
is_user atmos = false

-- The globals that `parse_opts` sets, of which flat-sat mode does not ask for the server's address, and
-- the addresses that the operating system refuses to bind.
pub record Config : Type 0 where
  pub mode : Mode
  pub flat_sat : Bool
  pub udp : Bool
  pub public_ip : String
  pub public_port : ℕ
  pub server_ip : Option String
  pub server_port : Option ℕ
  pub internal_peer_ip : String
  pub internal_peer_port : ℕ
  pub bind_fails : Net → String → ℕ → Bool

pub data Handler : Type 0 where
  a_pair : ProxySocket → Handler
  a_half_perma : HalfPerma → Handler

-- The other globals. A handler is an object that several descriptors may share, so the action map
-- leads to handlers by their number.
pub record Agent : Type 0 where
  pub perma_socket : Sock
  pub internal_listener : Option Sock
  pub web_listener : Option Sock
  pub peer_connected : Option Sock
  pub flat_sat_handler : Option ℕ
  pub action_map : Sock → Option ℕ
  pub known_sockets : List Sock
  pub handlers : ℕ → Handler
  pub next_handler : ℕ
  pub udppacket : Buffer
  pub net : Net

abbrev pub mem : Sock → List Sock → Bool
mem s [] = false
mem s (t ∷ l) = (t == s) || mem s l

-- `l.remove(s)` where `s` is there
abbrev pub without : Sock → List Sock → List Sock
without s [] = []
without s (t ∷ l) = if t == s then l else t ∷ without s l

abbrev pub on_net : {A : Type 0} → Exec Net A → Exec Agent A
on_net m a = let (r, net) = m a.net in (r, record a { net = net })

abbrev pub watch : Sock → Exec Agent (Unit {0})
watch s = modify (λ a. record a { known_sockets = a.known_sockets ++ s ∷ [] })

-- `gKnownSockets.remove(s)`
abbrev pub unwatch : Sock → Exec Agent (Unit {0})
unwatch s a =
    if mem s a.known_sockets
    then (ok tt, record a { known_sockets = without s a.known_sockets })
    else (raised value_error, a)

-- `gActionMap[s.fileno()] = handler`
abbrev pub assign : Sock → ℕ → Exec Agent (Unit {0})
assign s h = modify (λ a. record a { action_map = update a.action_map s (some h) })

-- `del gActionMap[s.fileno()]`
abbrev pub unassign : Sock → Exec Agent (Unit {0})
unassign s a =
    if is_some (a.action_map s)
    then (ok tt, record a { action_map = update a.action_map s none })
    else (raised key_error, a)

-- A new handler object.
abbrev pub new_handler : Handler → Exec Agent ℕ
new_handler h a = (
  ok a.next_handler,
  record a { handlers = update a.handlers a.next_handler h; next_handler = suc a.next_handler },
)

-- The next two are called on the ATMOS side alone, where every handler is a pair.
-- `if handler.leg1 == None: handler.leg1 = s  else: handler.leg2 = s`
abbrev pub attach : Sock → Handler → Handler
attach s (a_pair p) =
    a_pair (if is_some p.leg1 then record p { leg2 = some s } else record p { leg1 = some s })
attach s (a_half_perma h) = a_half_perma h

-- `if handler.leg1 == s: handler.leg1 = None  else: handler.leg2 = None`
abbrev pub detach : Sock → Handler → Handler
detach s (a_pair p) =
    a_pair (if is_sock p.leg1 s then record p { leg1 = none } else record p { leg2 = none })
detach s (a_half_perma h) = a_half_perma h

abbrev pub closable : Handler → List (Option Sock)
closable (a_pair p) = Pair.get_closable_connections p
closable (a_half_perma h) = HalfPerma.get_closable_connections h

abbrev when : Bool → Exec Agent (Unit {0}) → Exec Agent (Unit {0})
when b m a = if b then m a else (ok tt, a)

module _ (c : Config) where
  -- In flat-sat mode the new permanent socket joins the old handler.
  rejoin : Option ℕ → Sock → Exec Agent (Unit {0})
  rejoin none s a = (ok tt, a)
  rejoin (some h) s a =
      if c.flat_sat
      then (
        ok tt,
        record a {
          handlers = update a.handlers h (attach s (a.handlers h));
          action_map = update a.action_map s (some h);
        },
      )
      else (ok tt, a)

  -- `sock.bind((ip, int(port)))` and `listen`: None as an address or a port is a TypeError.
  bind : Option String → Option ℕ → Exec Agent (Unit {0})
  bind (some ip) (some port) a =
      if c.bind_fails a.net ip port then (raised os_error, a) else (ok tt, a)
  bind _ _ a = (raised type_error, a)

  unfoldable pub socket_create_listener : Option String → Option ℕ → Exec Agent Sock
  unfolding bind
  socket_create_listener ip port = do s ← on_net (Net.create stream); bind ip port; pure s

  -- `gWebListerer = socket_create_listener(...)`
  listen_web : Exec Agent (Unit {0})
  unfolding socket_create_listener
  listen_web = do
    s ← socket_create_listener (some c.public_ip) (some c.public_port)
    modify (λ a. record a { web_listener = some s })
    watch s

  connect_perma : Mode → Bool → Exec Agent (Unit {0})
  unfolding rejoin listen_web
  connect_perma atmos skip_bind = do
    when (not skip_bind) listen_web
    s ← on_net (Net.create stream)
    modify (λ a. record a { perma_socket = s })
    λ a. rejoin a.flat_sat_handler s a
  connect_perma user skip_bind = do
    s ← on_net (Net.create stream)
    modify (λ a. record a {
      perma_socket = s;
      net = record a.net { connected = a.net.connected ++ (s, c.public_ip, c.public_port) ∷ [] };
    })

  pub setup_permanent_socket : Bool → Exec Agent (Unit {0})
  unfolding connect_perma
  setup_permanent_socket skip_bind = do connect_perma c.mode skip_bind; λ a. watch a.perma_socket a

  pub install_permanent_handler : Exec Agent (Unit {0})
  unfolding HalfPerma.half_perma
  install_permanent_handler a =
      if is_user c.mode
      then (do
        h ← new_handler (
            a_half_perma
              (HalfPerma.half_perma a.perma_socket c.internal_peer_ip c.internal_peer_port c.udp))
        assign a.perma_socket h)
          a
      else (ok tt, a)

  pub recover_perma_sock : Exec Agent (Unit {0})
  unfolding setup_permanent_socket install_permanent_handler
  recover_perma_sock a =
      (do
        unwatch a.perma_socket
        modify (λ b. record b { action_map = update b.action_map a.perma_socket none })
        on_net (Net.close a.perma_socket)
        setup_permanent_socket true
        install_permanent_handler)
        a

  -- The flat-sat branch of `handle_exceptions`, for the permanent socket on the ATMOS side.
  flat_sat_lost : Sock → Exec Agent (Unit {0})
  flat_sat_lost s = do
    h ← λ a. or_raise (a.action_map s) key_error a
    modify (λ a. record a { handlers = update a.handlers h (detach s (a.handlers h)) })

  forget_peer : Option Sock → Exec Agent (Unit {0})
  forget_peer s a =
      if elim s [ none ↦ not (is_some a.peer_connected) | some t ↦ is_sock a.peer_connected t ]
      then (ok tt, record a { peer_connected = none })
      else (ok tt, a)

  drop_other : Option Sock → Exec Agent (Unit {0})
  drop_other none a = (ok tt, a)
  drop_other (some t) a = (do unassign t; on_net (Net.close t); unwatch t) a

  -- `connection_legs[1]` where the first leg is the permanent socket, else `connection_legs[0]`.
  other_of : Sock → List (Option Sock) → Exec Agent (Option Sock)
  other_of perma [] a = (raised index_error, a)
  other_of perma (none ∷ legs) a = (ok none, a)
  other_of perma (some s ∷ []) a = if s == perma then (raised index_error, a) else (ok (some s), a)
  other_of perma (some s ∷ t ∷ legs) a = (ok (if s == perma then t else some s), a)

  -- The branch for the permanent socket.
  perma_lost : Sock → Exec Agent (Unit {0})
  unfolding forget_peer drop_other other_of
  perma_lost s = do
    h ← λ a. or_raise (a.action_map s) key_error a
    other ← λ a. other_of a.perma_socket (closable (a.handlers h)) a
    forget_peer other
    drop_other other

  -- The body of the loop over the sockets to clean up; `None.fileno()` raises.
  clean_up_one : Option Sock → Exec Agent (Unit {0})
  clean_up_one none a = (raised attribute_error, a)
  clean_up_one (some s) a =
      (do
        (if a.perma_socket == s
            then recover_perma_sock
            else (do unassign s; unwatch s; on_net (Net.close s)))
        λ b. (ok tt, if is_sock b.peer_connected s then record b { peer_connected = none } else b))
        a

  clean_up : List (Option Sock) → Exec Agent (Unit {0})
  clean_up [] a = (ok tt, a)
  clean_up (s ∷ legs) a = (clean_up_one s >>= λ _. clean_up legs) a

  pub handle_exceptions : Sock → Exec Agent (Unit {0})
  unfolding flat_sat_lost perma_lost clean_up clean_up_one recover_perma_sock
  handle_exceptions s a =
      if a.perma_socket == s
      then (if c.flat_sat && not (is_user c.mode)
          then (do flat_sat_lost s; recover_perma_sock) a
          else (do perma_lost s; recover_perma_sock) a)
      else (do h ← or_raise (a.action_map s) key_error; clean_up (closable (a.handlers h))) a
