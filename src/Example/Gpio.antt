-- ===== src/Example/Gpio.antt =====
-- `Controller.handle_test_gpio`: the pins of config.json in pairs, of which the first is read and the
-- second written with the opposite level, and the first is read again. Python's `int` is a parameter.
pub mod Pairs
pub mod Toggles
use Prim.Native.Nat.{bit_xor}
use sat_os_payload_sdk.Prelude.{
  ℕ, zero, suc, ◌+◌, String, Bool, List, Option, none, some, get_elem?, ltb, str_eq, if◌then◌else◌,
  ℤ, pos, negsuc, ◌==ℤ◌,
}
use sat_os_payload_sdk.Exec.{
  Result, ok, raised, index_error, value_error, Exec, ◌>>=◌, pure, or_raise,
}
use sat_os_payload_sdk.Gpio.{
  Config, Device, Gpio, gpio_error, get_gpio_info, verify_gpio_pin, api_pa_pc_read_gpio,
  api_pa_pc_write_gpio,
}

abbrev swapped : {A B : Type 0} → A × B → B × A
swapped (a, b) = (b, a)

module _ (int : String → Option ℤ) where
  -- `int(pins[i])` of an entry; the entry -1 that a list begins with is a number.
  unfoldable pub pin_number : Option String → Exec Device ℤ
  pin_number none d = (ok gpio_error, d)
  pin_number (some s) d = or_raise (int s) value_error d

  -- A call at a negative pin: behind the guards `1 << pin` and `>> pin` raise.
  unfoldable pub below : Config → ℕ → Exec Device ℤ
  below c n d = elim (verify_gpio_pin int c (negsuc n)) [
    | raised e ↦ (raised e, d)
    | ok status ↦
        if status ==ℤ gpio_error
        then (ok gpio_error, d)
        else if str_eq c.adapter_type "FTDI"
        then (if d.present then raised value_error else ok gpio_error, d)
        else (ok gpio_error, d)
  ]

  unfoldable pub read_pin : Config → ℤ → Exec Device ℤ
  read_pin c (pos n) d = swapped (api_pa_pc_read_gpio int c n d)
  read_pin c (negsuc n) d = below c n d

  unfoldable pub write_pin : Config → ℤ → ℤ → Exec Device ℤ
  write_pin c (pos n) value d = swapped (api_pa_pc_write_gpio int c n value d)
  write_pin c (negsuc n) value d = below c n d

  -- `val ^ 1` of a level.
  abbrev pub opposite : ℤ → ℤ
  opposite (pos n) = pos (bit_xor n 1)
  opposite (negsuc n) = negsuc n

  -- What follows an answer, unless it is the error code, at which the sequence returns.
  abbrev unless_error : ℤ → Exec Device Bool → Exec Device Bool
  unless_error val next d = if val ==ℤ gpio_error then (ok Bool.false, d) else next d

  -- The two pins at `i`, where `read_number` is that of the first: whether the loop goes on.
  unfoldable pub test_pair : Config → List (Option String) → ℕ → ℤ → Exec Device Bool
  test_pair c pins i read_number = do
    second ← or_raise (get_elem? pins (i + 1)) index_error
    val ← read_pin c read_number
    unless_error val (do
      write_number ← pin_number second
      written ← write_pin c write_number (opposite val)
      unless_error written (do final ← read_pin c read_number; unless_error final (pure Bool.true)))

  abbrev go_on : Exec Device (Unit {0}) → Bool → Exec Device (Unit {0})
  go_on next Bool.true d = next d
  go_on next Bool.false d = (ok tt, d)

  -- One round at `i`, before a round at the next entry or behind the pair.
  unfoldable pub test_round :
      Config → Gpio → ℕ → (skip next : Exec Device (Unit {0})) → Exec Device (Unit {0})
  test_round c info i skip next = do
    first ← or_raise (get_elem? info.pins i) index_error
    read_number ← pin_number first
    (if read_number ==ℤ gpio_error
        then skip
        else (test_pair c info.pins i read_number >>= go_on next))

  -- The loop from `i`; each round takes one entry at least, so `pin_count` rounds are enough.
  unfoldable pub test_loop : Config → Gpio → ℕ → ℕ → Exec Device (Unit {0})
  test_loop c info zero i d = (ok tt, d)
  test_loop c info (suc fuel) i d =
      let skip = test_loop c info fuel (i + 1) in
      let next = test_loop c info fuel (i + 2) in
      if ltb i info.pin_count then test_round c info i skip next d else (ok tt, d)

  abbrev with_info : Config → Result Gpio → Exec Device (Unit {0})
  with_info c (raised e) d = (raised e, d)
  with_info c (ok info) d = test_loop c info info.pin_count 0 d

  unfoldable pub handle_test_gpio : Config → Exec Device (Unit {0})
  handle_test_gpio c = with_info c (get_gpio_info c)
