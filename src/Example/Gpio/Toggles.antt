-- ===== src/Example/Gpio/Toggles.antt =====
-- The sequence on an adapter whose pins are configured in pairs.
use Prim.Native.Nat.{bit_xor}
use sat_os_payload_sdk.Prelude.{
  ℕ, zero, suc, ◌+◌, ◌-◌, ◌*◌, ◌≤◌, ◌<◌, String, true, false, Option, some, get_elem?, ltb, ◌==◌,
  str_eq, ℤ, pos, ◌≡◌, ◌≢◌, ◌∙◌, refl, ap, arith, Bool-cases, inl, inr,
}
use sat_os_payload_sdk.Exec.{ok, Exec}
use sat_os_payload_sdk.Gpio.{
  Config, Device, Gpio, gpio_available, level, verify_gpio_pin, read_gpio, write_gpio,
  api_pa_pc_read_gpio, api_pa_pc_write_gpio,
}
use sat_os_payload_sdk.Gpio.Pins.{is_listed, verify_gpio_pin-is_listed}
use sat_os_payload_sdk.Example.Gpio.{
  pin_number, read_pin, write_pin, test_pair, test_round, test_loop, handle_test_gpio,
}
use sat_os_payload_sdk.Gpio.Info.{get_gpio_info_lem}
use sat_os_payload_sdk.Example.Gpio.Pairs.{
  toggle_all_untouched, toggle_all_toggled, level-lt, toggled, toggle_all, still_present,
  answer_is_level,
}

flip : (n : ℕ) → n < 2 → bit_xor n 1 ≡ 1 - n
flip zero h = refl
flip (suc zero) h = refl
flip (suc (suc n)) h = absurd (omega (arith, h))

opposite-level : (port pin : ℕ) → bit_xor (level port pin) 1 ≡ 1 - level port pin
opposite-level port pin = flip (level port pin) (level-lt port pin)

is_listed-at :
    (int : String → Option ℤ) (value : ℕ → ℤ) (input : ℤ) (k i j : ℕ)
    → i ≤ j
    → j < i + k
    → value j ≡ input
    → is_listed int value input k i ≡ true
is_listed-at int value input zero i j low high e = absurd (omega arith)
is_listed-at int value input (suc k) i j low high e = elim (Bool-cases (i == j)) [
  | inl same ↦ let here : i ≡ j = ground arith in rw (here, e) (ground arith)
  | inr later ↦
      let rest = is_listed-at int value input k (suc i) j (ground arith) (omega arith) e in
      rw rest (ground arith)
]

module _ (int : String → Option ℤ) (c : Config) (name : ℕ → String) (number : ℕ → ℕ)
    (entries : (j : ℕ) → c.pin j ≡ some (name j))
    (numbers : (j : ℕ) → int (name j) ≡ some (pos (number j)))
    (ftdi : str_eq c.adapter_type "FTDI" ≡ true) where
  -- The pin of an entry can be used.
  available : (j : ℕ) → j < c.pin_count → verify_gpio_pin int c (pos (number j)) ≡ ok gpio_available
  available j h =
      verify_gpio_pin-is_listed int c name (λ k. pos (number k)) (pos (number j)) entries numbers
      ∙ rw
          (is_listed-at int (λ k. pos (number k)) (pos (number j)) c.pin_count 0 j (omega arith)
            (omega arith) refl)
          refl

  read_pin_lem :
      (j : ℕ) (d : Device)
      → j < c.pin_count
      → d.present ≡ true
      → read_pin int c (pos (number j)) d ≡ (ok (pos (level d.port (number j))), d)
  unfolding read_pin api_pa_pc_read_gpio read_gpio
  read_pin_lem j d h there = ground (arith, available j h)

  write_pin_lem :
      (j : ℕ) (value : ℤ) (d : Device)
      → j < c.pin_count
      → d.present ≡ true
      → let (d', op) = write_gpio int (number j) value d in
        write_pin int c (pos (number j)) value d ≡ (ok op, d')
  unfolding write_pin api_pa_pc_write_gpio
  write_pin_lem j value d h there = ground (arith, available j h)

  module _ (info : Gpio) (count : info.pin_count ≡ c.pin_count)
      (listed : (j : ℕ) → j < c.pin_count → get_elem? info.pins j ≡ some (some (name j))) where
    test_pair_lem :
        (i : ℕ) (d : Device)
        → i + 1 < c.pin_count
        → d.present ≡ true
        → test_pair int c info.pins i (pos (number i)) d ≡ (ok true, toggled int number i d)
    unfolding test_pair pin_number
    test_pair_lem i d h there =
        let value = pos (1 - level d.port (number i)) in
        rw
          (
            listed (i + 1) h,
            read_pin_lem i d (omega arith) there,
            numbers (i + 1),
            opposite-level d.port (number i),
            write_pin_lem (i + 1) value d h there,
            answer_is_level int (number (i + 1)) value d there,
            read_pin_lem i (toggled int number i d) (omega arith)
                (still_present int (number (i + 1)) value d there),
          )
          refl

    test_round_lem :
        (i : ℕ) (skip next : Exec Device (Unit {0})) (d : Device)
        → i + 1 < c.pin_count
        → d.present ≡ true
        → test_round int c info i skip next d ≡ next (toggled int number i d)
    unfolding test_round pin_number
    test_round_lem i skip next d h there =
        rw (listed i (omega arith), numbers i, test_pair_lem i d h there) refl

    test_loop_lem :
        (n fuel i : ℕ) (d : Device)
        → n ≤ fuel
        → i + 2 * n ≡ c.pin_count
        → d.present ≡ true
        → test_loop int c info fuel i d ≡ (ok tt, toggle_all int number n i d)
    unfolding test_loop
    test_loop_lem zero zero i d bound e there = refl
    test_loop_lem zero (suc fuel) i d bound e there =
        let past : ltb i info.pin_count ≡ false = ground arith in rw past refl
    test_loop_lem (suc n) zero i d bound e there = absurd (omega arith)
    test_loop_lem (suc n) (suc fuel) i d bound e there =
        let inside : ltb i info.pin_count ≡ true = ground arith in
        rw (inside, test_round_lem i _ _ d (omega arith) there)
          (test_loop_lem n fuel (i + 2) (toggled int number i d) (omega arith) (omega arith)
            (still_present int (number (i + 1)) (pos (1 - level d.port (number i))) d there))

-- The port here is a latch: what is written to one pin is not read at another, as it would be on the
-- sample's board, where the two pins of a pair are wired together. An adapter that the driver finds, of the supported kind, and a configuration of `n` pairs of pins,
-- eight pins at most and each below eight, no two alike. The sequence comes to its end, each second
-- pin has the opposite of the level that its first pin had at the start, and every pin that is not
-- the second of a pair has kept its level.
pub handle_test_gpio_lem :
    (int : String → Option ℤ) (c : Config) (name : ℕ → String) (number : ℕ → ℕ) (n p q : ℕ)
    (d : Device)
    → ((j : ℕ) → c.pin j ≡ some (name j))
    → ((j : ℕ) → int (name j) ≡ some (pos (number j)))
    → str_eq c.adapter_type "FTDI" ≡ true
    → c.pin_count ≡ 2 * n
    → c.pin_count ≤ 8
    → ((j : ℕ) → j < c.pin_count → number j < 8)
    → ((j k : ℕ) → j < c.pin_count → k < c.pin_count → number j ≡ number k → j ≡ k)
    → d.present ≡ true
    → d.port < 256
    → p < n
    → q < 8
    → ((m : ℕ) → m < n → q ≢ number (2 * m + 1))
    → let (r, d') = handle_test_gpio int c d in
      (r ≡ ok tt)
      × (level d'.port (number (2 * p + 1)) ≡ 1 - level d.port (number (2 * p)))
      × (level d'.port q ≡ level d.port q)
unfolding handle_test_gpio
handle_test_gpio_lem int c name number n p q d entries numbers ftdi pairs few small distinct found
      byte lp lq other =
    let (info, got, count, listed) = get_gpio_info_lem c name entries few in
    let run =
      test_loop_lem int c name number entries numbers ftdi info count listed n info.pin_count 0 d
        (omega (arith, count)) (omega arith) found in
    let toggles =
      toggle_all_toggled int number c.pin_count small distinct n 0 p d (omega arith) lp found
        byte in
    let rest =
      toggle_all_untouched int number c.pin_count small distinct n 0 q d (omega arith) lq
        (λ m lt e.
          let same : 0 + 2 * m + 1 ≡ 2 * m + 1 = omega arith in other m lt (e ∙ ap number same))
        found byte in
    let first : 0 + 2 * p ≡ 2 * p = omega arith in
    let levels = rw first at toggles in rw got (rw run (refl, levels, rest))
