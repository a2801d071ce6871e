-- ===== src/Agent/Loop/FlatSat.antt =====
-- What an exception on the connected peer leaves behind on the ATMOS side in flat-sat mode.
use sat_os_payload_sdk.Prelude.{
  ◌<◌, update, ℕ, ◌≡◌, ◌≢◌, true, [], ◌∷◌, ◌++◌, Option, none, some, is_some, arith,
}
use sat_os_payload_sdk.Exec.{ok}
use sat_os_payload_sdk.SocketProxy.Net.{Sock}
use sat_os_payload_sdk.SocketProxy.Pair
use sat_os_payload_sdk.SocketProxy.Pair.{ProxySocket, Kind}
use sat_os_payload_sdk.Agent.Loop.{
  atmos, Config, a_pair, Agent, mem, without, closable, recover_perma_sock, clean_up, clean_up_one,
  handle_exceptions,
}
use sat_os_payload_sdk.Agent.Loop.Recovery.{mem-append, mem-without, IsWatched}

module _ (c : Config) where
  flat_sat_recover :
      (a : Agent)
      → (h : ℕ) → (pair : ProxySocket) → c.mode ≡ atmos
      → c.flat_sat ≡ true
      → mem a.perma_socket a.known_sockets ≡ true
      → a.flat_sat_handler ≡ some h
      → a.handlers h ≡ a_pair pair
      → pair.leg1 ≡ some a.perma_socket
      → let (r, a') = clean_up_one c (some a.perma_socket) a in
        (r ≡ ok tt)
        × (a'.perma_socket ≡ a.net.next_sock)
        × (a'.handlers h ≡ a_pair (record pair { leg2 = some a.net.next_sock }))
        × (a'.action_map
            ≡ update (update a.action_map a.perma_socket none) a.net.next_sock (some h))
        × (a'.known_sockets ≡ without a.perma_socket a.known_sockets ++ a.net.next_sock ∷ [])
        × (a'.net.closed ≡ a.net.closed ++ a.perma_socket ∷ [])
  unfolding clean_up_one recover_perma_sock
  flat_sat_recover a h pair m f known fh eh l1 = ground (arith, m, f, known, fh, eh, l1)

  drop_lem :
      (a : Agent)
      → (q : ℕ) → a.perma_socket ≢ q
      → is_some (a.action_map q) ≡ true
      → mem q a.known_sockets ≡ true
      → let (r, a') = clean_up_one c (some q) a in
        (r ≡ ok tt)
        × (a'.perma_socket ≡ a.perma_socket)
        × (a'.handlers ≡ a.handlers)
        × (a'.action_map ≡ update a.action_map q none)
        × (a'.net.closed ≡ a.net.closed ++ q ∷ [])
  unfolding clean_up_one
  drop_lem a q ne qh known = ground (arith, ne, qh, known)

  handle_exceptions_lem :
      (a : Agent)
      → (q h : ℕ) → (p : Option Sock) → a.perma_socket ≢ q
      → a.action_map q ≡ some h
      → closable (a.handlers h) ≡ p ∷ some q ∷ []
      → (clean_up_one c p a).0 ≡ ok tt
      → (clean_up_one c (some q) (clean_up_one c p a).1).0 ≡ ok tt
      → handle_exceptions c q a ≡ (ok tt, (clean_up_one c (some q) (clean_up_one c p a).1).1)
  unfolding handle_exceptions clean_up
  handle_exceptions_lem a q h p ne qh legs first second =
      ground (arith, ne, qh, legs, first, second)

  -- On the ATMOS side in flat-sat mode, an exception on the peer that is connected to the internal
  -- listener, whose handler joins it to the permanent socket, ends without an exception. The
  -- handler is left with the permanent socket that was closed as its first leg and the new one as
  -- its second, and it is still the handler of the new one.
  pub flat_sat_keeps_closed_leg :
      (a : Agent)
      → (q h : ℕ) → (pair : ProxySocket) → c.mode ≡ atmos
      → c.flat_sat ≡ true
      → IsWatched a
      → a.flat_sat_handler ≡ some h
      → a.action_map q ≡ some h
      → a.handlers h ≡ a_pair pair
      → pair.leg1 ≡ some a.perma_socket
      → pair.leg2 ≡ some q
      → q ≢ a.perma_socket
      → q < a.net.next_sock
      → let (r, a') = handle_exceptions c q a in
        (r ≡ ok tt)
        × (a'.handlers h ≡ a_pair (record pair { leg2 = some a'.perma_socket }))
        × (a'.action_map a'.perma_socket ≡ some h)
        × (mem a.perma_socket a'.net.closed ≡ true)
        × (a'.perma_socket ≡ a.net.next_sock)
  unfolding Pair.get_closable_connections
  flat_sat_keeps_closed_leg a q h pair m f w fh qh eh l1 l2 ne old =
      let b = (clean_up_one c (some a.perma_socket) a).1 in
      let first = flat_sat_recover a h pair m f w.perma fh eh l1 in
      let young : a.net.next_sock ≢ q = omega (arith, old) in
      let known : mem q b.known_sockets ≡ true = ground (
        arith,
        first,
        w.mapped q,
        qh,
        ne,
        mem-append q (without a.perma_socket a.known_sockets) (a.net.next_sock ∷ []),
        mem-without q a.perma_socket a.known_sockets,
      ) in
      let second =
        drop_lem b q (ground (arith, first, young)) (ground (arith, first, qh, ne, young)) known in
      let closable_lem : closable (a.handlers h) ≡ some a.perma_socket ∷ some q ∷ [] =
        ground (arith, eh, l1, l2) in
      let end : handle_exceptions c q a ≡ (ok tt, (clean_up_one c (some q) b).1) =
        handle_exceptions_lem a q h (some a.perma_socket) (ground (arith, ne)) qh closable_lem
          first.0 second.0 in
      rw end (
        ground (
          arith,
          first,
          second,
          mem-append a.perma_socket a.net.closed (a.perma_socket ∷ []),
          mem-append a.perma_socket b.net.closed (q ∷ []),
        ))
