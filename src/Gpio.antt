-- ===== src/Gpio.antt =====
-- lib/python/satos_payload_sdk/antaris_api_gpio.py: the pins of an FTDI adapter, by the pins that
-- config.json names. The adapter's driver is not part of the repository: it is a port of eight bits
-- with a direction, opened and closed; which interface is selected does not matter to the byte.
pub mod Pins
pub mod Info
pub mod Uart
mod Tests
use sat_os_payload_sdk.Prelude.{
  ℕ, zero, suc, ◌+◌, ◌-◌, ◌*◌, ◌/◌, ◌%◌, ◌^◌, String, Bool, true, false, List, [], ◌∷◌, ◌++◌,
  Option, none, some, ◌==◌, str_eq, leb, length, set, replicate, if◌then◌else◌, ℤ, pos, negsuc,
  ◌==ℤ◌,
}
use Prim.Native.Nat.{bit_and, bit_or, bit_xor}
use sat_os_payload_sdk.Exec.{Error, Result, ok, raised, key_error, value_error, index_error, Exec}

-- The section IO_Access.GPIO of config.json; `pin i` is the entry GPIO_PIN_i, `none` if it is missing,
-- and `int` is Python's conversion of an entry.
pub record Config : Type 0 where
  pub pin_count : ℕ
  pub pin : ℕ → Option String
  pub port : String
  pub adapter_type : String
  pub interrupt_pin : String

abbrev pub gpio_error : ℤ
gpio_error = negsuc 0

abbrev pub gpio_available : ℤ
gpio_available = pos 1

-- The adapter: whether the driver finds one, the pins that are outputs, the port's byte.
pub record Device : Type 0 where
  pub present : Bool
  pub direction : ℕ
  pub port : ℕ

-- `1 << pin`
abbrev pub bit : ℕ → ℕ
bit pin = 2 ^ pin

-- `(port >> pin) & 1`
abbrev pub level : ℕ → ℕ → ℕ
level port pin = (port / 2 ^ pin) % 2

-- `pin[i] = ...` for each i of the count, in a list of eight entries; `none` is the entry -1.
unfoldable pub fill_pins : Config → ℕ → ℕ → List (Option String) → Result (List (Option String))
fill_pins c zero i pins = ok pins
fill_pins c (suc k) i pins =
    let rest = λ (s : String). fill_pins c k (suc i) (set pins i (some s)) in
    elim (c.pin i) [
      | none ↦ raised key_error
      | some s ↦ if leb (length pins) i then raised index_error else rest s
    ]

-- `api_pa_pc_get_gpio_info()`
pub record Gpio : Type 0 where
  pub pin_count : ℕ
  pub pins : List (Option String)
  pub interrupt_pin : String

abbrev with_pins : Config → Result (List (Option String)) → Result Gpio
with_pins c (raised e) = raised e
with_pins c (ok pins) =
    ok (record { pin_count = c.pin_count; pins = pins; interrupt_pin = c.interrupt_pin })

unfoldable pub get_gpio_info : Config → Result Gpio
unfolding fill_pins
get_gpio_info c = with_pins c (fill_pins c c.pin_count 0 (replicate 8 none))

module _ (int : String → Option ℤ) where
  -- The loop of `verify_gpio_pin` from index `i`: all entries are read, also behind a match.
  verify_from : Config → ℤ → ℕ → ℕ → ℤ → Result ℤ
  verify_from c input zero i status = ok status
  verify_from c input (suc k) i status =
      let rest = λ (s : ℤ). verify_from c input k (suc i) s in
      elim (c.pin i) [
        | none ↦ raised key_error
        | some s ↦ elim (int s) [
          | none ↦ raised value_error
          | some value ↦ rest (if input ==ℤ value then gpio_available else status)
        ]
      ]

  pub verify_gpio_pin : Config → ℤ → Result ℤ
  unfolding verify_from
  verify_gpio_pin c input = verify_from c input c.pin_count 0 gpio_error

  -- `api_read_gpio(port, pin)` at a pin that is not negative.
  unfoldable pub read_gpio : ℕ → Device → ℤ
  read_gpio pin d = if d.present then pos (level d.port pin) else gpio_error

  -- `api_write_gpio(port, pin, value)`: the pin becomes the only output.
  unfoldable pub write_gpio : ℕ → ℤ → Device → Device × ℤ
  write_gpio pin value d =
      if d.present
      then (let wr_port = bit pin in
          let new =
            if value ==ℤ pos 0
            then bit_and d.port (bit_xor 0xFF wr_port)
            else bit_or d.port wr_port in
          (record d { direction = wr_port; port = new }, pos (level new pin)))
      else (d, gpio_error)

  -- What stands before the call of the driver in `api_pa_pc_read_gpio` and `api_pa_pc_write_gpio`.
  guarded : Config → ℕ → (Device → Device × ℤ) → Device → Device × Result ℤ
  guarded c pin use_driver d = elim (verify_gpio_pin c (pos pin)) [
    | raised e ↦ (d, raised e)
    | ok status ↦
        if status ==ℤ gpio_error
        then (d, ok gpio_error)
        else if str_eq c.adapter_type "FTDI"
        then (let (d', op) = use_driver d in (d', ok op))
        else (d, ok gpio_error)
  ]

  unfoldable pub api_pa_pc_read_gpio : Config → ℕ → Device → Device × Result ℤ
  unfolding guarded read_gpio
  api_pa_pc_read_gpio c pin d = guarded c pin (λ e. (e, read_gpio pin e)) d

  unfoldable pub api_pa_pc_write_gpio : Config → ℕ → ℤ → Device → Device × Result ℤ
  unfolding guarded write_gpio
  api_pa_pc_write_gpio c pin value d = guarded c pin (write_gpio pin value) d
