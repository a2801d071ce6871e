-- ===== src/SocketProxy/Relay.antt =====
-- What the relays do with data: who gets which bytes, in which order, and what happens when the
-- second leg cannot be reached.
use sat_os_payload_sdk.Prelude.{
  ◌≡◌, ◌≢◌, ◌⊎◌, refl, false, List, [], ◌∷◌, ◌++◌, append_assoc, append-nil, none, some, arith,
  ◌==◌, if◌then◌else◌,
}
use sat_os_payload_sdk.Exec.{ok, raised, os_error, Exec, ◌>>=◌}
use sat_os_payload_sdk.SocketProxy.Net.{Net, Os, Sock, Bytes}
use sat_os_payload_sdk.SocketProxy.Pair
use sat_os_payload_sdk.SocketProxy.Pair.{ProxySocket, Kind, Proxied}

-- Readable events in the order in which the agent handles them.
abbrev pub relay : Os → List (Sock × Bytes) → Exec Proxied (Unit {0})
relay os [] st = (ok tt, st)
relay os ((s, buf) ∷ events) st = (Pair.on_data os s buf >>= λ _. relay os events) st

-- The bytes of the entries for `s`, in order: what it sent, or what was sent to it.
abbrev pub bytes_of : Sock → List (Sock × Bytes) → Bytes
bytes_of s [] = []
bytes_of s ((t, buf) ∷ events) = if t == s then buf ++ bytes_of s events else bytes_of s events

-- `record net { sent = ... }` extended by the events, each to the leg opposite of its source.
abbrev pub crossed : Sock → Sock → List (Sock × Bytes) → List (Sock × Bytes)
crossed a b [] = []
crossed a b ((s, buf) ∷ events) = (if a == s then b else a, buf) ∷ crossed a b events

-- One event on a pair with both legs up is one `sendall` to the opposite leg, or an exception
-- that leaves the pair and the network as they were.
pub on_data_both_legs :
    (os : Os) (s a b : Sock) (buf : Bytes) (p : ProxySocket) (net : Net)
    → p.leg1 ≡ some a
    → p.leg2 ≡ some b
    → Pair.on_data os s buf (p, net) ≡ (
        let t = if a == s then b else a in
        if os.send_fails net t buf
        then (raised os_error, (p, net))
        else (ok (some t), (p, record net { sent = net.sent ++ (t, buf) ∷ [] })))
unfolding Pair.on_data
on_data_both_legs os s a b buf p net ha hb = ground arith

-- Over a network that accepts every write, a pair with two different legs forwards every event to
-- the opposite leg, whole and in order, and nothing else happens.
pub relay_forwards :
    (os : Os) (a b : Sock) (events : List (Sock × Bytes)) (p : ProxySocket) (net : Net)
    → ((n : Net) (s : Sock) (buf : Bytes) → os.send_fails n s buf ≡ false)
    → p.leg1 ≡ some a
    → p.leg2 ≡ some b
    → relay os events (p, net) ≡ (ok tt, (p, record net { sent = net.sent ++ crossed a b events }))
relay_forwards os a b [] p net never ha hb = rw append-nil
relay_forwards os a b ((s, buf) ∷ events) p net never ha hb =
    rw (on_data_both_legs os s a b buf p net ha hb, never _ _ _)
      (rw (relay_forwards os a b events p _ never ha hb) (rw append_assoc))

bytes_of-append :
    (s : Sock) (xs ys : List (Sock × Bytes))
    → bytes_of s (xs ++ ys) ≡ bytes_of s xs ++ bytes_of s ys
bytes_of-append s [] ys = refl
bytes_of-append s ((t, buf) ∷ xs) ys =
    ground (arith, bytes_of-append s xs ys, append_assoc buf (bytes_of s xs) (bytes_of s ys))

-- Every event comes from one of the two legs.
abbrev pub FromLegs : Sock → Sock → List (Sock × Bytes) → Type 0
FromLegs a b [] = Unit
FromLegs a b ((s, buf) ∷ events) = ((s ≡ a) ⊎ (s ≡ b)) × FromLegs a b events

bytes_of-crossed :
    (a b : Sock) (events : List (Sock × Bytes))
    → a ≢ b
    → FromLegs a b events
    → (bytes_of b (crossed a b events) ≡ bytes_of a events)
      × (bytes_of a (crossed a b events) ≡ bytes_of b events)
bytes_of-crossed a b [] ne h = (refl, refl)
bytes_of-crossed a b ((s, buf) ∷ events) ne h = ground (arith, bytes_of-crossed a b events ne h.1)

-- A pair with two different legs is a pair of byte streams: after any events from its legs, over a
-- network that accepts every write, each leg has been sent exactly the bytes that the other leg
-- produced, in their order, behind what it had been sent before.
pub relay_streams :
    (os : Os) (a b : Sock) (events : List (Sock × Bytes)) (p : ProxySocket) (net : Net)
    → ((n : Net) (s : Sock) (buf : Bytes) → os.send_fails n s buf ≡ false)
    → a ≢ b
    → FromLegs a b events
    → p.leg1 ≡ some a
    → p.leg2 ≡ some b
    → let (r, (p', net')) = relay os events (p, net) in
      (r ≡ ok tt)
      × (p' ≡ p)
      × (bytes_of b net'.sent ≡ bytes_of b net.sent ++ bytes_of a events)
      × (bytes_of a net'.sent ≡ bytes_of a net.sent ++ bytes_of b events)
relay_streams os a b events p net never ne from ha hb =
    rw (relay_forwards os a b events p net never ha hb) (
      refl,
      refl,
      rw (bytes_of-append, (bytes_of-crossed a b events ne from).0),
      rw (bytes_of-append, (bytes_of-crossed a b events ne from).1),
    )

-- Data from the first leg of a deferred connection that has no second leg: if the connection is
-- refused, or its socket refuses the write, nothing is sent; the second leg is adopted exactly
-- when the connection was made, and then the data goes to it.
pub deferred_on_data :
    (os : Os) (a spare : Sock) (buf : Bytes) (p : ProxySocket) (net : Net)
    → p.kind ≡ Kind.on_the_fly_deferred_connect spare
    → p.leg1 ≡ some a
    → p.leg2 ≡ none
    → Pair.on_data os a buf (p, net) ≡ (
        let joined : Net = record net {
          connected = net.connected ++ (spare, p.peer_ip, p.peer_port) ∷ [];
        } in
        let up = record p { leg2 = some spare } in
        if os.connect_fails net spare p.peer_ip p.peer_port
        then (ok none, (p, net))
        else if os.send_fails joined spare buf
        then (raised os_error, (up, joined))
        else (ok (some spare), (up, record joined { sent = net.sent ++ (spare, buf) ∷ [] })))
unfolding Pair.on_data
deferred_on_data os a spare buf p net hk ha hb = ground arith

-- A pair whose first leg is gone drops all data, whatever its class, and changes nothing.
pub on_data_dropped :
    (os : Os) (s : Sock) (buf : Bytes) (p : ProxySocket) (net : Net)
    → p.leg1 ≡ none
    → Pair.on_data os s buf (p, net) ≡ (ok none, (p, net))
unfolding Pair.on_data
on_data_dropped os s buf p net ha = ground arith
