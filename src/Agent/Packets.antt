-- ===== src/Agent/Packets.antt =====
-- `handle_udp` of agent.py: the bytes from the permanent socket, cut into packets of
-- `g_UDP_Cmd_Size` bytes. What the handler does with a packet is a parameter: it may answer with
-- the socket that it forwarded to, answer None, or raise, and it may change the world.
pub mod Delivery
pub mod Keeps
mod Tests
use sat_os_payload_sdk.Prelude.{
  ℕ, zero, suc, ◌+◌, ◌-◌, List, [], ◌∷◌, ◌++◌, Option, none, some, length, take, drop, ltb, ◌==◌,
  if◌then◌else◌,
}
use sat_os_payload_sdk.Exec.{Error, Result, ok, raised, name_error, Exec}
use sat_os_payload_sdk.SocketProxy.Net.{Sock, Bytes}

-- `udppacket` is a `bytes` object, but for a dropped packet the code sets it to a list, and
-- `+=` then extends the list by numbers.
pub data Buffer : Type 0 where
  bytes list : Bytes → Buffer

abbrev pub content : Buffer → Bytes
content (bytes b) = b
content (list b) = b

abbrev pub extend : Buffer → Bytes → Buffer
extend (bytes b) more = bytes (b ++ more)
extend (list b) more = list (b ++ more)

-- How a call of `handle_udp` ended: it kept what it has for the next call, it forwarded a packet to
-- a socket last (whose registration follows), a packet was dropped, the handler raised, or the loop
-- was still running when the fuel was used up.
pub data Outcome : Type 0 where
  saved dropped still_running : Outcome
  forwarded : Sock → Outcome
  failed : Error → Outcome

-- `udppacket`, what remains of `databuf`, and the world that the handler changes.
pub record Udp (W : Type 0) : Type 0 where
  pub udppacket : Buffer
  pub databuf : Bytes
  pub world : W

module _ {W : Type 0} (g_udp_cmd_size : ℕ) (on_data : Buffer → Exec W (Option Sock)) where
  -- What follows `handler.on_data(sock, udppacket)` in the body of the loop.
  after_send : Buffer → Bytes → Result (Option Sock) × W → Outcome × Udp W
  after_send packet rest (raised e, w) =
      (failed e, record { udppacket = packet; databuf = rest; world = w })
  after_send packet rest (ok none, w) =
      (dropped, record { udppacket = list []; databuf = rest; world = w })
  after_send packet rest (ok (some s), w) =
      (forwarded s, record { udppacket = bytes []; databuf = rest; world = w })

  -- One round of `while len(databuf) > 0`.
  unfoldable pub round : Udp W → Outcome × Udp W
  unfolding after_send
  round u =
      let have = length (content u.udppacket) in
      let total = have + length u.databuf in
      let n = g_udp_cmd_size - have in
      let whole = extend u.udppacket u.databuf in
      let filled = extend u.udppacket (take n u.databuf) in
      if total == g_udp_cmd_size
      then after_send whole [] (on_data whole u.world)
      else if ltb total g_udp_cmd_size
      then (saved, record u { udppacket = whole })
      else after_send filled (drop n u.databuf) (on_data filled u.world)

  -- Only a forwarded packet lets the loop go on.
  abbrev go_on : (Outcome → Udp W → Outcome × Udp W) → Outcome × Udp W → Outcome × Udp W
  go_on again (forwarded s, u) = again (forwarded s) u
  go_on again (o, u) = (o, u)

  unfoldable pub loop : ℕ → Outcome → Udp W → Outcome × Udp W
  loop zero last u = (still_running, u)
  loop (suc fuel) last u = elim u.databuf [ [] ↦ (last, u) | b ∷ bs ↦ go_on (loop fuel) (round u) ]

  -- Behind a loop without a round the name `forwarded_leg_sock` is unbound (UnboundLocalError).
  unfoldable pub handle_udp : Buffer → Bytes → W → Outcome × Udp W
  unfolding loop round
  handle_udp packet buf w =
      loop (suc (length buf)) (failed name_error)
        (record { udppacket = packet; databuf = buf; world = w })
