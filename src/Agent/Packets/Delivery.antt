-- ===== src/Agent/Packets/Delivery.antt =====
-- The packets that `handle_udp` makes, when the handler forwards all that it is given.
use sat_os_payload_sdk.Prelude.{
  ℕ, zero, suc, ◌+◌, ◌-◌, ◌<◌, ◌≡◌, ◌≢◌, refl, List, [], ◌∷◌, ◌++◌, Option, some, length, take,
  drop, ltb, ◌==◌, inl, inr, arith, append_assoc, append-nil, length-append, take-append-drop,
  length-take, length-drop, flatten, All, All-append, flatten_chain, Bool-cases, ==_iff, ltb→lt,
  ◌∙◌, ◌⊎◌,
}
use sat_os_payload_sdk.Exec.{ok, name_error, Exec}
use sat_os_payload_sdk.SocketProxy.Net.{Sock, Bytes}
use sat_os_payload_sdk.Agent.Packets.{
  Buffer, bytes, Outcome, saved, forwarded, failed, still_running, Udp, after_send, round, loop,
  handle_udp,
}

-- From a buffer and data, the packets were forwarded that cut their bytes up, and less than a
-- packet is left.
pub record Delivers {W : Type 0} (g_udp_cmd_size : ℕ) (view : W → List Bytes) (packet buf : Bytes)
    (w : W) (result : Outcome × Udp W) : Type 0 where
  pub packets : List Bytes
  pub left : Bytes
  pub kept : result.1.udppacket ≡ bytes left
  pub ended : result.0 ≢ still_running
  pub logged : view result.1.world ≡ view w ++ packets
  pub sized : All (λ p. length p ≡ g_udp_cmd_size) packets
  pub conserved : flatten packets ++ left ≡ packet ++ buf
  pub short : length left < g_udp_cmd_size

-- A buffer and a world after several reads; how each ended does not matter to the next.
pub receive :
    {W : Type 0} → ℕ → (Buffer → Exec W (Option Sock)) → Buffer → List Bytes → W → Buffer × W
receive size on_data packet [] w = (packet, w)
receive size on_data packet (buf ∷ reads) w =
    let (o, u) = handle_udp size on_data packet buf w in
    receive size on_data u.udppacket reads u.world

pub record Streams {W : Type 0} (g_udp_cmd_size : ℕ) (view : W → List Bytes) (packet : Bytes)
    (reads : List Bytes) (w : W) (result : Buffer × W) : Type 0 where
  pub packets : List Bytes
  pub left : Bytes
  pub kept : result.0 ≡ bytes left
  pub logged : view result.1 ≡ view w ++ packets
  pub sized : All (λ p. length p ≡ g_udp_cmd_size) packets
  pub conserved : flatten packets ++ left ≡ packet ++ flatten reads
  pub short : length left < g_udp_cmd_size

module _ {W : Type 0} (g_udp_cmd_size : ℕ) (on_data : Buffer → Exec W (Option Sock))
    (view : W → List Bytes)
    (accepts : (b : Bytes) (w : W)
      → (s : Sock) × (w' : W) × (on_data (bytes b) w ≡ (ok (some s), w'))
        × (view w' ≡ view w ++ b ∷ [])) where
  -- What one round does: it saves less than a packet, or it forwards a packet.
  abbrev Forwards : Bytes → Bytes → W → Outcome × Udp W → Type 0
  Forwards packet buf w result =
      (s : Sock) × (w' : W) × (rest : Bytes) × (chunk : Bytes) × (result
        ≡ (forwarded s, record { udppacket = bytes []; databuf = rest; world = w' }))
      × (view w' ≡ view w ++ chunk ∷ [])
      × (length chunk ≡ g_udp_cmd_size)
      × (chunk ++ rest ≡ packet ++ buf)
      × (length rest < length buf)

  send-Forwards :
      (packet filled : Bytes) (buf rest : Bytes) (w : W)
      → length filled ≡ g_udp_cmd_size
      → filled ++ rest ≡ packet ++ buf
      → length rest < length buf
      → Forwards packet buf w
          (after_send g_udp_cmd_size on_data (bytes filled) rest (on_data (bytes filled) w))
  unfolding after_send
  send-Forwards packet filled buf rest w size same less =
      let (s, w', e, v) = accepts filled w in (s, w', rest, filled, rw e, v, size, same, less)

  round-cases :
      (packet : Bytes) (buf : Bytes) (w : W)
      → length packet < g_udp_cmd_size
      → 0 < length buf
      → (let u : Udp W = record { udppacket = bytes packet; databuf = buf; world = w } in
          ((length packet + length buf < g_udp_cmd_size)
            × (round g_udp_cmd_size on_data u
                ≡ (saved, record u { udppacket = bytes (packet ++ buf) })))
          ⊎ Forwards packet buf w (round g_udp_cmd_size on_data u))
  unfolding round
  round-cases packet buf w k pos =
      let have = length packet in
      let n = g_udp_cmd_size - have in
      elim (Bool-cases ((have + length buf) == g_udp_cmd_size)) [
        | inl e ↦
            let full : have + length buf ≡ g_udp_cmd_size = (==_iff _ _).0 e in
            inr (
              rw e (
                send-Forwards packet (packet ++ buf) buf [] w
                  (omega (arith, length-append packet buf)) (rw append-nil) pos))
        | inr e ↦ elim (Bool-cases (ltb (have + length buf) g_udp_cmd_size)) [
          | inl l ↦ inl (ltb→lt _ _ l, rw (e, l))
          | inr l ↦
              let over : g_udp_cmd_size < have + length buf = ground arith in
              inr (
                rw (e, l)
                  (send-Forwards packet (packet ++ take n buf) buf (drop n buf) w
                    (omega (arith, length-append packet (take n buf), length-take n buf))
                    (rw (append_assoc, take-append-drop n buf)) (omega (arith, length-drop n buf))))
        ]
      ]

  forwarded_first :
      (packet : Bytes) (buf : Bytes) (w w' : W) (rest chunk : Bytes) {result : Outcome × Udp W}
      → view w' ≡ view w ++ chunk ∷ []
      → length chunk ≡ g_udp_cmd_size
      → chunk ++ rest ≡ packet ++ buf
      → Delivers g_udp_cmd_size view [] rest w' result
      → Delivers g_udp_cmd_size view packet buf w result
  forwarded_first packet buf w w' rest chunk v size same d = record {
    packets = chunk ∷ d.packets;
    left = d.left;
    kept = d.kept;
    ended = d.ended;
    logged = d.logged ∙ rw (v, append_assoc);
    sized = (size, d.sized);
    conserved = append_assoc chunk (flatten d.packets) _ ∙ rw d.conserved same;
    short = d.short;
  }

  loop-Delivers :
      (fuel : ℕ) (last : Outcome) (packet : Bytes) (buf : Bytes) (w : W)
      → last ≢ still_running
      → length buf < fuel
      → length packet < g_udp_cmd_size
      → Delivers g_udp_cmd_size view packet buf w (
          loop g_udp_cmd_size on_data fuel last
            (record { udppacket = bytes packet; databuf = buf; world = w }))
  unfolding loop
  loop-Delivers zero last packet buf w o h k = absurd (omega arith)
  loop-Delivers (suc fuel) last packet [] w o h k = record {
    packets = [];
    left = packet;
    kept = refl;
    ended = o;
    logged = rw append-nil;
    sized = tt;
    conserved = rw append-nil;
    short = k;
  }
  loop-Delivers (suc fuel) last packet (b ∷ bs) w o h k =
      elim (round-cases packet (b ∷ bs) w k (omega arith)) [
        | inl (fits, e) ↦ rw e (record {
          packets = [];
          left = packet ++ b ∷ bs;
          kept = refl;
          ended = λ q. cc q;
          logged = rw append-nil;
          sized = tt;
          conserved = refl;
          short = omega (arith, length-append packet (b ∷ bs));
        })
        | inr (s, w', rest, chunk, e, v, size, same, less) ↦ rw e (
            forwarded_first packet (b ∷ bs) w w' rest chunk v size same
              (loop-Delivers fuel (forwarded s) [] rest w' (λ q. cc q) (omega arith) (omega arith)))
      ]

  -- For a handler that forwards every packet, in every state (it never answers None and never raises):
  -- whatever has been buffered, if it is less than a packet, and whatever data arrives, the loop ends
  -- within the fuel, every packet that is forwarded has exactly the packet size, the packets and what
  -- stays in the buffer are together the bytes that were buffered and received, none lost, added or
  -- reordered, and less than a packet stays in the buffer.
  pub handle_udp-Delivers :
      (packet : Bytes) (buf : Bytes) (w : W)
      → length packet < g_udp_cmd_size
      → Delivers g_udp_cmd_size view packet buf w
          (handle_udp g_udp_cmd_size on_data (bytes packet) buf w)
  unfolding handle_udp
  handle_udp-Delivers packet buf w k =
      loop-Delivers (suc (length buf)) (failed name_error) packet buf w (λ q. cc q) (omega arith) k

  -- `receive` hands one read after another to `handle_udp`, as the agent's event loop does. For a
  -- handler that forwards every packet, in every state (it never answers None and never raises), and a
  -- buffer with less than a packet at first: however the stream was cut into reads, the packets that were forwarded are the whole packets of the
  -- stream: each has the packet size, in order they are the stream up to the last bytes, and those,
  -- less than a packet, stay in the buffer.
  pub receive-Delivers :
      (packet : Bytes) (reads : List Bytes) (w : W)
      → length packet < g_udp_cmd_size
      → Streams g_udp_cmd_size view packet reads w
          (receive g_udp_cmd_size on_data (bytes packet) reads w)
  unfolding receive
  receive-Delivers packet [] w k = record {
    packets = [];
    left = packet;
    kept = refl;
    logged = rw append-nil;
    sized = tt;
    conserved = rw append-nil;
    short = k;
  }
  receive-Delivers packet (buf ∷ reads) w k =
      let u = (handle_udp g_udp_cmd_size on_data (bytes packet) buf w).1 in
      let d : Delivers g_udp_cmd_size view packet buf w
          (handle_udp g_udp_cmd_size on_data (bytes packet) buf w) =
        handle_udp-Delivers packet buf w k in
      let rest : Streams g_udp_cmd_size view d.left reads u.world
          (receive g_udp_cmd_size on_data (bytes d.left) reads u.world) =
        receive-Delivers d.left reads u.world d.short in
      rw d.kept (record {
        packets = d.packets ++ rest.packets;
        left = rest.left;
        kept = rest.kept;
        logged = rest.logged ∙ rw (d.logged, append_assoc);
        sized = All-append _ d.packets rest.packets d.sized rest.sized;
        conserved =
            flatten_chain d.packets rest.packets d.left rest.left packet buf (flatten reads)
              d.conserved rest.conserved;
        short = rest.short;
      })
