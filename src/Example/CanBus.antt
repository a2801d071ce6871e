-- ===== src/Example/CanBus.antt =====
-- `Controller.handle_test_can_bus`: ten messages go out, one in a second, and what the receiver thread
-- has got by then is read. `str.split`, `int(s, 16)` and the message class of python-can are parameters.
pub mod Outcome
use sat_os_payload_sdk.Prelude.{
  ℕ, zero, suc, ◌+◌, String, Bool, List, [], ◌∷◌, map, Option, none, some, length, get_elem?, ◌==◌,
  if◌then◌else◌, ℤ, pos, ◌+ℤ◌,
}
use sat_os_payload_sdk.Exec.{
  Result, ok, raised, index_error, value_error, Exec, ◌>>=◌, ◌>>◌, pure, or_raise,
}
use sat_os_payload_sdk.Can.{
  Can, Recv, message, send_can_message, receive_loop, start_can_receiver_thread, read_can_data,
  get_can_message_received_count, get_can_dev,
}

-- What the texts and messages are made of.
pub record Library (M : Type 0) : Type 0 where
  -- `s.split()` and `s.split(",")`
  pub split : String → List String
  pub split_commas : String → List String
  -- `int(s, 16)`, with `none` for a ValueError
  pub int16 : String → Option ℤ
  -- `can.Message(arbitration_id=..., data=...)`
  pub can_message : ℤ → List ℤ → Option M

-- One round of the sending loop: what the bus answers, and what arrives in the second after it.
pub record Round (M : Type 0) : Type 0 where
  pub opens : Bool
  pub goes : Bool
  pub arrives : List M

-- The entries CAN_BUS of config.json: the path of each device, and how many there are.
pub record Devices : Type 0 where
  pub path : ℕ → Option String
  pub can_port_count : ℕ

abbrev pub default_data : String
default_data = "0x123 0x11,0x12,0x13,0x14,0x15,0x16,0x17"

module _ {M : Type 0} where
  -- `while count() > 0`, for at most `fuel` messages.
  unfoldable pub read_loop : ℕ → Exec (Can M) (Unit {0})
  unfolding read_can_data
  read_loop zero s = (ok tt, s)
  read_loop (suc fuel) s =
      if get_can_message_received_count s == 0
      then (ok tt, s)
      else (read_can_data >>= λ _. read_loop fuel) s

  -- The messages that are there when the loop begins; one that arrives during the loop is left out.
  unfoldable pub read_all : Exec (Can M) (Unit {0})
  read_all s = read_loop (get_can_message_received_count s) s

  abbrev of_result {ℓ} : {A : Type ℓ} → Result A → Can M → Result A × Can M
  of_result r s = (r, s)

module _ {M : Type 0} (lib : Library M) where
  -- `[int(byte, 16) for byte in ...]`
  abbrev bytes_of : List String → Option (List ℤ)
  bytes_of [] = some []
  bytes_of (s ∷ l) =
      let rest = bytes_of l in
      elim (lib.int16 s) [
        | none ↦ none
        | some b ↦ elim rest [ none ↦ none | some bs ↦ some (b ∷ bs) ]
      ]

  abbrev parts_of : String → List String
  parts_of params =
      let parts = lib.split params in if length parts == 2 then parts else lib.split default_data

  -- The arbitration id and the data bytes of the params.
  unfoldable pub parsed : String → Exec (Can M) (ℤ × List ℤ)
  parsed params = do
    let parts = parts_of params
    id_text ← or_raise (get_elem? parts 0) index_error
    arb_id ← or_raise (lib.int16 id_text) value_error
    data_str ← or_raise (get_elem? parts 1) index_error
    data_bytes ← or_raise (bytes_of (lib.split_commas data_str)) value_error
    pure (arb_id, data_bytes)

  -- `api_pa_pc_send_can_message` and `time.sleep(1)`, while the receiver thread runs.
  unfoldable pub send_round : Round M → ℤ → List ℤ → Exec (Can M) (Unit {0})
  unfolding send_can_message receive_loop
  send_round round arb_id data_bytes = do
    send_can_message round.opens (lib.can_message arb_id data_bytes) round.goes
    receive_loop (map message round.arrives)
    pure tt

  -- The loop, with `n` rounds to go.
  unfoldable pub send_loop : (ℕ → Round M) → ℕ → ℕ → ℤ → List ℤ → Exec (Can M) (Unit {0})
  send_loop world zero counter arb_id data_bytes s = (ok tt, s)
  send_loop world (suc n) counter arb_id data_bytes s =
      (send_round (world counter) (arb_id +ℤ pos 1) data_bytes
          >> send_loop world n (counter + 1) (arb_id +ℤ pos 1) data_bytes)
        s

  unfoldable pub handle_test_can_bus : Devices → (ℕ → Round M) → String → Exec (Can M) (Unit {0})
  unfolding parsed send_loop read_all start_can_receiver_thread get_can_dev
  handle_test_can_bus devices world params = do
    (arb_id, data_bytes) ← parsed params
    can_dev ← of_result (get_can_dev devices.path devices.can_port_count 0)
    channel ← or_raise (get_elem? can_dev 0) index_error
    start_can_receiver_thread channel
    send_loop world 10 0 arb_id data_bytes
    read_all
