-- ===== src/Agent/Packets/Tests.antt =====
-- Concrete packets.
use sat_os_payload_sdk.Prelude.{◌≡◌, refl, List, [], ◌∷◌, ◌++◌, Option, some, arith}
use sat_os_payload_sdk.Exec.{ok, Exec}
use sat_os_payload_sdk.SocketProxy.Net.{Sock, Bytes}
use sat_os_payload_sdk.Agent.Packets.{Buffer, bytes, content, handle_udp}
use sat_os_payload_sdk.Agent.Packets.Delivery.{
  Delivers, Streams, receive, handle_udp-Delivers, receive-Delivers,
}

-- A handler that forwards each packet to the socket 2 and keeps a list of them.
abbrev on_data : Buffer → Exec (List Bytes) (Option Sock)
on_data b log = (ok (some 2), log ++ content b ∷ [])

abbrev all_of : List Bytes → List Bytes
all_of log = log

accepts :
    (b : Bytes) (w : List Bytes)
    → (s : Sock) × (w' : List Bytes) × (on_data (bytes b) w ≡ (ok (some s), w'))
      × (all_of w' ≡ all_of w ++ b ∷ [])
accepts b w = (2, w ++ b ∷ [], refl, refl)

handle_udp-Delivers_example :
    Delivers 4 all_of
      (1 ∷ [])
      (2 ∷ 3 ∷ 4 ∷ 5 ∷ 6 ∷ [])
      []
      (handle_udp 4 on_data (bytes (1 ∷ [])) (2 ∷ 3 ∷ 4 ∷ 5 ∷ 6 ∷ []) [])
handle_udp-Delivers_example =
    handle_udp-Delivers 4 on_data all_of accepts (1 ∷ []) (2 ∷ 3 ∷ 4 ∷ 5 ∷ 6 ∷ []) [] (omega arith)

abbrev reads : List Bytes
reads = (1 ∷ 2 ∷ 3 ∷ []) ∷ (4 ∷ []) ∷ (5 ∷ 6 ∷ 7 ∷ 8 ∷ 9 ∷ []) ∷ []

receive-Delivers_example : Streams 4 all_of [] reads [] (receive 4 on_data (bytes []) reads [])
receive-Delivers_example = receive-Delivers 4 on_data all_of accepts [] reads [] (omega arith)
