-- ===== src/Example/CanBus/Outcome.antt =====
-- What the sequence sends, and how it ends.
use sat_os_payload_sdk.Prelude.{
  ℕ, zero, suc, ◌+◌, String, true, false, List, [], ◌∷◌, ◌++◌, map, append_assoc, append-nil, some,
  length, ◌==◌, if◌then◌else◌, ℤ, pos, ◌+ℤ◌, ◌≡◌, ◌∙◌, refl, arith,
}
use sat_os_payload_sdk.Exec.{ok, raised, attribute_error}
use sat_os_payload_sdk.Can.{
  Can, minus_one, message, looping, receive_loop, send_can_message, get_can_dev,
  start_can_receiver_thread, read_can_data, get_can_message_received_count,
}
use sat_os_payload_sdk.Example.CanBus.{
  Library, Round, Devices, parsed, send_round, send_loop, read_loop, read_all, handle_test_can_bus,
}

-- The `n` numbers after `a`.
abbrev pub following : ℕ → ℕ → List ℕ
following a zero = []
following a (suc n) = (a + 1) ∷ following (a + 1) n

next_id : (a : ℕ) → pos a +ℤ pos 1 ≡ pos (a + 1)
unfolding ◌+ℤ◌
next_id a = ground arith

module _ {M : Type 0} where
  -- What arrives in the `n` rounds from `counter` on.
  abbrev pub arrivals : (ℕ → Round M) → ℕ → ℕ → List M
  arrivals world counter zero = []
  arrivals world counter (suc n) = (world counter).arrives ++ arrivals world (counter + 1) n

  receive_arrivals :
      (ms : List M) (s : Can M)
      → receive_loop (map message ms) s ≡ (ok looping, record s { data_array = s.data_array ++ ms })
  unfolding receive_loop
  receive_arrivals [] s = rw append-nil refl
  receive_arrivals (m ∷ ms) s =
      receive_arrivals ms (record s { data_array = s.data_array ++ m ∷ [] }) ∙ rw append_assoc refl

  module _ (lib : Library M) (world : ℕ → Round M) (data_bytes : List ℤ) (make : ℕ → M)
      (made : (k : ℕ) → lib.can_message (pos k) data_bytes ≡ some (make k))
      (opens : (k : ℕ) → (world k).opens ≡ true) (goes : (k : ℕ) → (world k).goes ≡ true) where
    send_round_lem :
        (counter k : ℕ) (s : Can M)
        → send_round lib (world counter) (pos k) data_bytes s ≡ (
          ok tt,
          record s {
            sent = s.sent ++ make k ∷ [];
            data_array = s.data_array ++ (world counter).arrives;
            shutdowns = suc s.shutdowns;
          },
        )
    unfolding send_round send_can_message
    send_round_lem counter k s =
        rw (made k, opens counter, goes counter)
          (rw
            (receive_arrivals (world counter).arrives
              (record s { sent = s.sent ++ make k ∷ []; shutdowns = suc s.shutdowns }))
            refl)

    send_loop_lem :
        (n counter a : ℕ) (s : Can M)
        → send_loop lib world n counter (pos a) data_bytes s ≡ (
          ok tt,
          record s {
            sent = s.sent ++ map make (following a n);
            data_array = s.data_array ++ arrivals world counter n;
            shutdowns = s.shutdowns + n;
          },
        )
    unfolding send_loop
    send_loop_lem zero counter a s =
        let none_left : s.shutdowns + 0 ≡ s.shutdowns = omega arith in
        rw (append-nil s.sent, append-nil s.data_array, none_left) refl
    send_loop_lem (suc n) counter a s =
        let more : suc s.shutdowns + n ≡ s.shutdowns + suc n = omega arith in
        rw (next_id a, send_round_lem counter (a + 1) s)
          (send_loop_lem n (counter + 1) (a + 1) (record s {
            sent = s.sent ++ make (a + 1) ∷ [];
            data_array = s.data_array ++ (world counter).arrives;
            shutdowns = suc s.shutdowns;
          })
            ∙ rw (append_assoc s.data_array, append_assoc s.sent, more) refl)

  read_loop_lem :
      (fuel : ℕ) (s : Can M)
      → s.thread_lock ≡ minus_one
      → length s.data_array ≡ fuel
      → read_loop fuel s ≡ (if fuel == 0 then ok tt else raised attribute_error, s)
  unfolding read_loop read_can_data get_can_message_received_count
  read_loop_lem zero s lock e = refl
  read_loop_lem (suc fuel) s lock e =
      let more : (suc fuel == 0) ≡ false = ground arith in rw (e, lock) (rw more refl)

  -- On a bus that opens and accepts, with params that name an id and data, and a message for every id:
  -- the ten messages with the ids after the given one go out, in order and each with the data; all
  -- that arrives meanwhile is appended in order; and the sequence ends normally when no message has
  -- been received, and otherwise with an AttributeError at the first read (the lock is still the number -1), with every message left.
  pub handle_test_can_bus_lem :
      (lib : Library M) (world : ℕ → Round M) (devices : Devices) (params : String) (a : ℕ)
      (data_bytes : List ℤ) (make : ℕ → M) (channel : String) (others : List String) (s : Can M)
      → parsed lib params s ≡ (ok (pos a, data_bytes), s)
      → get_can_dev devices.path devices.can_port_count 0 ≡ ok (channel ∷ others)
      → ((k : ℕ) → lib.can_message (pos k) data_bytes ≡ some (make k))
      → ((k : ℕ) → (world k).opens ≡ true)
      → ((k : ℕ) → (world k).goes ≡ true)
      → s.thread_lock ≡ minus_one
      → let received = s.data_array ++ arrivals world 0 10 in
        handle_test_can_bus lib devices world params s ≡ (
          if length received == 0 then ok tt else raised attribute_error,
          record s {
            sent = s.sent ++ map make (following a 10);
            data_array = received;
            receivers = s.receivers ++ channel ∷ [];
            shutdowns = s.shutdowns + 10;
          },
        )
  unfolding handle_test_can_bus read_all start_can_receiver_thread get_can_message_received_count
  handle_test_can_bus_lem lib world devices params a data_bytes make channel others s asked dev made
        opens goes lock =
      rw (asked, dev)
        (rw
          (send_loop_lem lib world data_bytes make made opens goes 10 0 a
            (record s { receivers = s.receivers ++ channel ∷ [] }))
          (read_loop_lem _ _ lock refl))
