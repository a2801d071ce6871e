-- ===== src/Can/Tests.antt =====
-- Concrete messages on the bus.
use sat_os_payload_sdk.Prelude.{refl, ℕ, ◌≡◌, true, some, List, [], ◌∷◌}
use sat_os_payload_sdk.Exec.{ok}
use sat_os_payload_sdk.Can.{get_can_dev, Can, init, message, nothing, bus_error, Recv}
use sat_os_payload_sdk.Can.Bus.{starts, receives, Use}

abbrev answers : List (Recv ℕ)
answers = message 7 ∷ nothing ∷ message 8 ∷ bus_error ∷ message 9 ∷ []

abbrev quiet : Can ℕ
quiet = init

abbrev uses : List (Use ℕ)
uses = starts "can0" ∷ receives true answers ∷ []

two_devices : get_can_dev (λ i. some "can0") 2 0 ≡ ok ("can0" ∷ "can0" ∷ [])
unfolding get_can_dev
two_devices = refl
