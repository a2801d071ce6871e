-- ===== src/Gpio/Tests.antt =====
-- Concrete pins.
use sat_os_payload_sdk.Prelude.{
  ◌≡◌, refl, true, Option, none, some, arith, String, ℤ, pos, str_eq, if◌then◌else◌,
}
use sat_os_payload_sdk.Exec.{ok}
use sat_os_payload_sdk.Gpio.{Config, Device, read_gpio, write_gpio}
use sat_os_payload_sdk.Gpio.Pins.{write_gpio_levels}
use sat_os_payload_sdk.Prelude.{[], ◌∷◌}
use sat_os_payload_sdk.Gpio.{get_gpio_info}

abbrev int : String → Option ℤ
int s = if str_eq s "3" then some (pos 3) else none

-- Two pins, both of them pin 3.
abbrev config : Config
config = record {
  pin_count = 2;
  pin = λ i. some "3";
  port = "1";
  adapter_type = "FTDI";
  interrupt_pin = "-1";
}

abbrev device : Device
device = record { present = true; direction = 0; port = 0b10010 }

write_gpio_levels_example :
    let (d', op) = write_gpio int 3 (pos 1) device in
    (read_gpio int 4 d' ≡ pos 1) × (op ≡ pos 1) × (d'.direction ≡ 8)
write_gpio_levels_example =
    write_gpio_levels int 3 4 (pos 1) device refl (omega arith) (omega arith) (omega arith)

two_pins :
    get_gpio_info config
    ≡ ok (record {
      pin_count = 2;
      pins = some "3" ∷ some "3" ∷ none ∷ none ∷ none ∷ none ∷ none ∷ none ∷ [];
      interrupt_pin = "-1";
    })
unfolding get_gpio_info
two_pins = refl
