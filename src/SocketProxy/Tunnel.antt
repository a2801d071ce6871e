-- ===== src/SocketProxy/Tunnel.antt =====
-- Two relays in a row, as a payload's connection crosses them: what the first proxy sends to its
-- far leg is what the second proxy reads from its near leg, and the other way round.
use sat_os_payload_sdk.Prelude.{◌≡◌, ◌≢◌, false, ◌∙◌, List, [], ◌++◌, some}
use sat_os_payload_sdk.SocketProxy.Net.{Net, Os, Sock, Bytes}
use sat_os_payload_sdk.SocketProxy.Pair.{ProxySocket}
use sat_os_payload_sdk.SocketProxy.Relay.{relay, bytes_of, FromLegs, relay_streams}

-- One proxy of the tunnel: its pair, its network, and the readable events that it has handled.
pub record Hop : Type 0 where
  pub os : Os
  pub near : Sock
  pub far : Sock
  pub pair : ProxySocket
  pub net : Net
  pub events : List (Sock × Bytes)

-- Its network after the events.
abbrev pub after : Hop → Net
after h = (relay h.os h.events (h.pair, h.net)).1.1

-- Both legs are up and different, nothing has been sent to them yet, the events come from them,
-- and the network accepts every write.
pub record IsUp (h : Hop) : Type 0 where
  pub accepts : (n : Net) (s : Sock) (buf : Bytes) → h.os.send_fails n s buf ≡ false
  pub distinct : h.near ≢ h.far
  pub from_legs : FromLegs h.near h.far h.events
  pub near_leg : h.pair.leg1 ≡ some h.near
  pub far_leg : h.pair.leg2 ≡ some h.far
  pub near_fresh : bytes_of h.near h.net.sent ≡ []
  pub far_fresh : bytes_of h.far h.net.sent ≡ []

-- A hop has sent to each leg what it has read from the other.
pub hop_streams :
    (h : Hop)
    → IsUp h
    → (bytes_of h.far (after h).sent ≡ bytes_of h.near h.events)
      × (bytes_of h.near (after h).sent ≡ bytes_of h.far h.events)
hop_streams h up =
    let streams =
      relay_streams h.os h.near h.far h.events h.pair h.net up.accepts up.distinct up.from_legs
        up.near_leg up.far_leg in
    (streams.2 ∙ rw up.far_fresh, streams.3 ∙ rw up.near_fresh)

-- Two hops joined by a byte stream. The second has read from its near leg what the first has sent
-- to its far leg but for `outbound`, bytes still in flight, however the stream was cut into events;
-- the first has read from its far leg what the second has sent to its near leg but for `inbound`.
-- Then the second has sent to its far leg what the first read from its near leg but for `outbound`,
-- and the first has sent to its near leg what the second read from its far leg but for `inbound`:
-- the bytes come out whole, in order and unchanged on both ends.
pub tunnel_streams :
    (a b : Hop) (outbound inbound : Bytes)
    → IsUp a
    → IsUp b
    → bytes_of b.near b.events ++ outbound ≡ bytes_of a.far (after a).sent
    → bytes_of a.far a.events ++ inbound ≡ bytes_of b.near (after b).sent
    → (bytes_of b.far (after b).sent ++ outbound ≡ bytes_of a.near a.events)
      × (bytes_of a.near (after a).sent ++ inbound ≡ bytes_of b.far b.events)
tunnel_streams a b outbound inbound up_a up_b there back =
    let first = hop_streams a up_a in
    let second = hop_streams b up_b in (rw second.0 (there ∙ first.0), rw first.1 (back ∙ second.1))
