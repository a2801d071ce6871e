-- ===== src/Example/Tests.antt =====
-- Concrete runs of the sample application.
use sat_os_payload_sdk.Prelude.{
  ℕ, zero, suc, ◌+◌, ◌*◌, ◌<◌, ◌≤◌, String, true, [], ◌∷◌, Option, none, some, ℤ, pos, ◌+ℤ◌, str_eq,
  if◌then◌else◌, ◌≡◌, refl, arith,
}
use sat_os_payload_sdk.Exec.{ok, raised, attribute_error}
use sat_os_payload_sdk.Can.{Can, init, get_can_dev}
use sat_os_payload_sdk.Example.CanBus.{Library, Round, Devices, parsed, handle_test_can_bus}
use sat_os_payload_sdk.Example.CanBus.Outcome.{handle_test_can_bus_lem}
use sat_os_payload_sdk.Gpio.{Config, Device, level}
use sat_os_payload_sdk.Example.Gpio.{handle_test_gpio}
use sat_os_payload_sdk.Example.Gpio.Toggles.{handle_test_gpio_lem}
use sat_os_payload_sdk.Framework.Metrics.{init as no_counters, define_counter, inc_counter}
use sat_os_payload_sdk.Framework.App
use sat_os_payload_sdk.Example.Start.{set_payload_values, sequences, mount_all}

-- Params "5 1": the id 5 and one data byte, on a bus where one message arrives in each second.
abbrev library : Library ℕ
library = record {
  split = λ s. "5" ∷ "1" ∷ [];
  split_commas = λ s. "1" ∷ [];
  int16 = λ s. if str_eq s "5" then some (pos 5) else some (pos 1);
  can_message = λ id data_bytes. elim id [ pos n ↦ some n | ℤ.negsuc n ↦ none ];
}

abbrev world : ℕ → Round ℕ
world = λ k. record { opens = true; goes = true; arrives = 7 ∷ [] }

abbrev devices : Devices
devices = record { path = λ i. some "can0"; can_port_count = 1 }

abbrev fresh : Can ℕ
fresh = init

handle_test_can_bus_lem_example : handle_test_can_bus library devices world "5 1" fresh ≡ (
  raised attribute_error,
  record fresh {
    sent = 6 ∷ 7 ∷ 8 ∷ 9 ∷ 10 ∷ 11 ∷ 12 ∷ 13 ∷ 14 ∷ 15 ∷ [];
    data_array = 7 ∷ 7 ∷ 7 ∷ 7 ∷ 7 ∷ 7 ∷ 7 ∷ 7 ∷ 7 ∷ 7 ∷ [];
    receivers = "can0" ∷ [];
    shutdowns = 10;
  },
)
unfolding parsed get_can_dev
handle_test_can_bus_lem_example =
    handle_test_can_bus_lem library world devices "5 1" 5 (pos 1 ∷ []) (λ k. k) "can0" [] fresh refl
      refl (λ k. refl) (λ k. refl) (λ k. refl) refl

-- One pair of pins, 3 and 4.
abbrev name : ℕ → String
name zero = "3"
name (suc j) = "4"

abbrev number : ℕ → ℕ
number zero = 3
number (suc j) = 4

abbrev int : String → Option ℤ
int s = if str_eq s "3" then some (pos 3) else some (pos 4)

abbrev config : Config
config = record {
  pin_count = 2;
  pin = λ j. some (name j);
  port = "1";
  adapter_type = "FTDI";
  interrupt_pin = "-1";
}

numbers : (j : ℕ) → int (name j) ≡ some (pos (number j))
numbers zero = refl
numbers (suc j) = refl

small : (j : ℕ) → j < 2 → number j < 8
small zero h = omega arith
small (suc j) h = omega arith

distinct : (j k : ℕ) → j < 2 → k < 2 → number j ≡ number k → j ≡ k
distinct zero zero a b e = refl
distinct zero (suc k) a b e = absurd (omega (arith, e))
distinct (suc j) zero a b e = absurd (omega (arith, e))
distinct (suc j) (suc k) a b e = omega arith

number_ge : (j : ℕ) → 3 ≤ number j
number_ge zero = omega arith
number_ge (suc j) = omega arith

abbrev device : Device
device = record { present = true; direction = 0; port = 0b10001 }

pair_toggled :
    let (r, d') = handle_test_gpio int config device in
    (r ≡ ok tt) × (level d'.port 4 ≡ 1) × (level d'.port 0 ≡ 1)
pair_toggled =
    handle_test_gpio_lem int config name number 1 0 0 device (λ j. refl) numbers refl refl
      (omega arith) small distinct refl (omega arith) (omega arith) (omega arith)
      (λ m h e. absurd (omega (arith, e, number_ge (2 * m + 1))))

abbrev digit : ℕ → String
digit zero = "0"
digit (suc zero) = "1"
digit (suc (suc zero)) = "2"
digit (suc (suc (suc zero))) = "3"
digit _ = "4"

-- The second counter has been renamed and counted up.
first_counters : set_payload_values (λ z. true) digit no_counters ≡ (
  ok tt,
  record {
    correlation_id = pos 0;
    used_counter = pos 5;
    timestamp = pos 0;
    metrics =
        record { names = "Counter 0"; counter = pos 1 }
        ∷ record { names = "MetricName_1"; counter = pos 3 }
        ∷ record { names = "Counter 2"; counter = pos 3 }
        ∷ record { names = "Counter 3"; counter = pos 4 }
        ∷ record { names = "Counter 4"; counter = pos 5 }
        ∷ record { names = ""; counter = pos 0 }
        ∷ record { names = ""; counter = pos 0 }
        ∷ record { names = ""; counter = pos 0 }
        ∷ [];
  },
)
unfolding set_payload_values define_counter inc_counter ◌+ℤ◌
first_counters = refl

-- A mounted sequence is found under its name.
gpio_sequence : (mount_all sequences App.init).sequence_handler_func_idx "TestGPIO" ≡ some 3
unfolding mount_all App.mount_sequence
gpio_sequence = refl
