-- ===== src/SocketProxy/Net.antt =====
-- The sockets that socket_proxy.py creates, connects, writes to and closes, and the helper
-- functions at the top of that file. What the operating system answers is a parameter.
use sat_os_payload_sdk.Prelude.{
  ℕ, suc, String, Bool, List, [], ◌∷◌, ◌++◌, Option, none, some, if◌then◌else◌,
}
use sat_os_payload_sdk.Exec.{Error, os_error, Result, ok, raised, Exec}

-- Socket objects are numbered in the order of their creation.
abbrev pub Sock : Type 0
Sock = ℕ

abbrev pub Bytes : Type 0
Bytes = List ℕ

-- SOCK_STREAM and SOCK_DGRAM.
pub data Family : Type 0 where
  stream dgram : Family

-- What has happened on the network so far, the latest last: the sockets that were created, the
-- completed `sendall` calls, the completed `connect` calls, the `close` calls.
pub record Net : Type 0 where
  pub next_sock : Sock
  pub created : List (Sock × Family)
  pub sent : List (Sock × Bytes)
  pub connected : List (Sock × String × ℕ)
  pub closed : List Sock

-- Which calls the operating system lets fail; the answer may depend on all that came before.
pub record Os : Type 0 where
  pub connect_fails : Net → Sock → String → ℕ → Bool
  pub send_fails : Net → Sock → Bytes → Bool
  pub recv : Net → Sock → ℕ → Option Bytes

-- `socket.socket(socket.AF_INET, family)`
abbrev pub create : Family → Exec Net Sock
create family net = (
  ok net.next_sock,
  record net {
    next_sock = suc net.next_sock;
    created = net.created ++ (net.next_sock, family) ∷ [];
  },
)

-- `s.close()`
abbrev pub close : Sock → Exec Net (Unit {0})
close s net = (ok tt, record net { closed = net.closed ++ s ∷ [] })

module _ (os : Os) where
  -- `s.sendall(buf)`
  abbrev pub sendall : Sock → Bytes → Exec Net (Unit {0})
  sendall s buf net =
      if os.send_fails net s buf
      then (raised os_error, net)
      else (ok tt, record net { sent = net.sent ++ (s, buf) ∷ [] })

  -- `s.connect((ip, port))`
  abbrev pub connect : Sock → String → ℕ → Exec Net (Unit {0})
  connect s ip port net =
      if os.connect_fails net s ip port
      then (raised os_error, net)
      else (ok tt, record net { connected = net.connected ++ (s, ip, port) ∷ [] })

  -- The exception, if there was one, comes back as a value.
  abbrev caught : Result (Unit {0}) × Net → Result (Option Error) × Net
  caught (ok _, net) = (ok none, net)
  caught (raised e, net) = (ok (some e), net)

  unfoldable pub socket_connect : Sock → String → ℕ → Exec Net (Option Error)
  socket_connect s ip port net = caught (connect s ip port net)

  -- The data, or the error, of a read of at most `read_size` bytes.
  unfoldable pub socket_recv : Sock → ℕ → Net → Option Bytes × Option Error
  socket_recv s read_size net = elim (os.recv net s read_size) [
    | none ↦ (none, some os_error)
    | some b ↦ (some b, none)
  ]
