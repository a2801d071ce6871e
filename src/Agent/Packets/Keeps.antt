-- ===== src/Agent/Packets/Keeps.antt =====
-- What holds of the world and is kept by the handler is kept by `handle_udp`.
use sat_os_payload_sdk.Prelude.{
  ℕ, zero, suc, ◌+◌, ◌-◌, [], ◌∷◌, Option, none, some, length, take, drop, ltb, ◌==◌, if-holds,
}
use sat_os_payload_sdk.Exec.{Result, ok, raised, name_error, Exec}
use sat_os_payload_sdk.SocketProxy.Net.{Sock, Bytes}
use sat_os_payload_sdk.Agent.Packets.{
  Buffer, content, extend, Outcome, forwarded, failed, Udp, after_send, round, go_on, loop,
  handle_udp,
}

module _ {W : Type 0} (g_udp_cmd_size : ℕ) (on_data : Buffer → Exec W (Option Sock))
    (I : W → Type 0) (keeps : (b : Buffer) (w : W) → I w → I (on_data b w).1) where
  after_send-keeps :
      (packet : Buffer) (rest : Bytes) (r : Result (Option Sock)) (w : W)
      → I w
      → I (after_send g_udp_cmd_size on_data packet rest (r, w)).1.world
  unfolding after_send
  after_send-keeps packet rest (raised e) w i = i
  after_send-keeps packet rest (ok none) w i = i
  after_send-keeps packet rest (ok (some s)) w i = i

  round-keeps : (u : Udp W) → I u.world → I (round g_udp_cmd_size on_data u).1.world
  unfolding round
  round-keeps u i =
      let have = length (content u.udppacket) in
      let total = have + length u.databuf in
      let n = g_udp_cmd_size - have in
      let whole = extend u.udppacket u.databuf in
      let filled = extend u.udppacket (take n u.databuf) in
      let P : Outcome × Udp W → Type 0 = λ r. I r.1.world in
      if-holds P (total == g_udp_cmd_size)
        (after_send-keeps whole [] (on_data whole u.world).0 (on_data whole u.world).1
          (keeps whole u.world i))
        (if-holds P (ltb total g_udp_cmd_size) i (
          after_send-keeps filled (drop n u.databuf) (on_data filled u.world).0
            (on_data filled u.world).1 (keeps filled u.world i)))

  go_on-keeps :
      (again : Outcome → Udp W → Outcome × Udp W)
      → ((o : Outcome) (u : Udp W) → I u.world → I (again o u).1.world)
      → (o : Outcome) (u : Udp W) → I u.world
      → I (go_on g_udp_cmd_size on_data again (o, u)).1.world
  go_on-keeps again h (forwarded s) u i = h (forwarded s) u i
  go_on-keeps again h _ u i = i

  ends-keeps :
      (d : Bytes) (x y : Outcome × Udp W)
      → I x.1.world
      → I y.1.world
      → let r : Outcome × Udp W = elim d [ [] ↦ x | b ∷ bs ↦ y ] in I r.1.world
  ends-keeps [] x y i j = i
  ends-keeps (b ∷ bs) x y i j = j

  loop-keeps :
      (fuel : ℕ) (last : Outcome) (u : Udp W)
      → I u.world
      → I (loop g_udp_cmd_size on_data fuel last u).1.world
  unfolding loop
  loop-keeps zero last u i = i
  loop-keeps (suc fuel) last u i =
      let (o, v) = round g_udp_cmd_size on_data u in
      ends-keeps u.databuf (last, u)
        (go_on g_udp_cmd_size on_data (loop g_udp_cmd_size on_data fuel) (o, v)) i
        (go_on-keeps (loop g_udp_cmd_size on_data fuel) (loop-keeps fuel) o v (round-keeps u i))

  pub handle_udp-keeps :
      (packet : Buffer) (buf : Bytes) (w : W)
      → I w
      → I (handle_udp g_udp_cmd_size on_data packet buf w).1.world
  unfolding handle_udp
  handle_udp-keeps packet buf w i = loop-keeps (suc (length buf)) (failed name_error) _ i
