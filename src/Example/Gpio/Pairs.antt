-- ===== src/Example/Gpio/Pairs.antt =====
-- The pins of an adapter when pairs of them are toggled.
use sat_os_payload_sdk.Prelude.{
  ℕ, zero, suc, ◌+◌, ◌-◌, ◌*◌, ◌≤◌, ◌<◌, String, true, Option, ◌==◌, if◌then◌else◌, ℤ, pos, ◌≡◌,
  ◌≢◌, ◌∙◌, refl, sym, ap, arith,
}
use sat_os_payload_sdk.Gpio.{Device, level, read_gpio, write_gpio}
use sat_os_payload_sdk.Gpio.Pins.{write_gpio_levels, write_gpio-lt}

pub level-lt : (port pin : ℕ) → level port pin < 2
level-lt port pin = omega arith

module _ (int : String → Option ℤ) where
  pub still_present :
      (pin : ℕ) (value : ℤ) (d : Device)
      → d.present ≡ true
      → (write_gpio int pin value d).0.present ≡ true
  unfolding write_gpio
  still_present pin value d there = ground (arith, there)

  pub answer_is_level :
      (pin : ℕ) (value : ℤ) (d : Device)
      → d.present ≡ true
      → let (d', op) = write_gpio int pin value d in op ≡ pos (level d'.port pin)
  unfolding write_gpio
  answer_is_level pin value d there = rw there refl

  module _ (number : ℕ → ℕ) where
    -- Writing the opposite of the level of entry `i` to entry `i + 1`.
    abbrev pub toggled : ℕ → Device → Device
    toggled i d = (write_gpio int (number (i + 1)) (pos (1 - level d.port (number i))) d).0

    -- The `n` pairs from `i` on, one after the other.
    abbrev pub toggle_all : ℕ → ℕ → Device → Device
    toggle_all zero i d = d
    toggle_all (suc n) i d = toggle_all n (i + 2) (toggled i d)

    level-toggled :
        (i q : ℕ) (d : Device)
        → number (i + 1) < 8
        → q < 8
        → d.present ≡ true
        → d.port < 256
        → level (toggled i d).port q
          ≡ (if q == number (i + 1) then 1 - level d.port (number i) else level d.port q)
    unfolding read_gpio
    level-toggled i q d h k found byte =
        let value = pos (1 - level d.port (number i)) in
        let facts = write_gpio_levels int (number (i + 1)) q value d found byte h k in
        let there = still_present (number (i + 1)) value d found in
        ground (arith, facts.0, there, level-lt d.port (number i))

    module _ (count : ℕ) (small : (j : ℕ) → j < count → number j < 8)
        (distinct : (j k : ℕ) → j < count → k < count → number j ≡ number k → j ≡ k) where
      -- A pin that is written in none of the pairs keeps its level.
      pub toggle_all_untouched :
          (n i q : ℕ) (d : Device)
          → i + 2 * n ≤ count
          → q < 8
          → ((m : ℕ) → m < n → q ≢ number (i + 2 * m + 1))
          → d.present ≡ true
          → d.port < 256
          → level (toggle_all n i d).port q ≡ level d.port q
      toggle_all_untouched zero i q d bound k other found byte = refl
      toggle_all_untouched (suc n) i q d bound k other found byte =
          let value = pos (1 - level d.port (number i)) in
          let written = small (i + 1) (omega arith) in
          let here : i + 2 * 0 + 1 ≡ i + 1 = omega arith in
          let ne = other 0 (omega arith) in
          let first : level (toggled i d).port q ≡ level d.port q =
            ground (arith, level-toggled i q d written k found byte, ap number here) in
          toggle_all_untouched n (i + 2) q (toggled i d) (omega arith) k
            (λ m lt e.
              let there : i + 2 * suc m + 1 ≡ i + 2 + 2 * m + 1 = omega arith in
              other (suc m) (omega arith) (e ∙ sym (ap number there)))
            (still_present (number (i + 1)) value d found)
            (write_gpio-lt int (number (i + 1)) value d byte written)
          ∙ first

      -- The second pin of each pair ends with the opposite of the level that the first began with.
      pub toggle_all_toggled :
          (n i p : ℕ) (d : Device)
          → i + 2 * n ≤ count
          → p < n
          → d.present ≡ true
          → d.port < 256
          → level (toggle_all n i d).port (number (i + 2 * p + 1))
            ≡ 1 - level d.port (number (i + 2 * p))
      toggle_all_toggled zero i p d bound k found byte = absurd (omega arith)
      toggle_all_toggled (suc n) i zero d bound k found byte =
          let value = pos (1 - level d.port (number i)) in
          let written = small (i + 1) (omega arith) in
          let at : i + 0 ≡ i = omega arith in
          rw at (
            toggle_all_untouched n (i + 2) (number (i + 1)) (toggled i d) (omega arith) written
              (λ m lt e.
                absurd (
                  omega
                    (arith, distinct (i + 1) (i + 2 + 2 * m + 1) (omega arith) (omega arith) e)))
              (still_present (number (i + 1)) value d found)
              (write_gpio-lt int (number (i + 1)) value d byte written)
            ∙ ground (arith, level-toggled i (number (i + 1)) d written written found byte))
      toggle_all_toggled (suc n) i (suc p) d bound k found byte =
          let value = pos (1 - level d.port (number i)) in
          let written = small (i + 1) (omega arith) in
          let second : i + 2 * suc p + 1 ≡ i + 2 + 2 * p + 1 = omega arith in
          let first : i + 2 * suc p ≡ i + 2 + 2 * p = omega arith in
          let rest =
            toggle_all_toggled n (i + 2) p (toggled i d) (omega arith) (omega arith)
              (still_present (number (i + 1)) value d found)
              (write_gpio-lt int (number (i + 1)) value d byte written) in
          let q = number (i + 2 + 2 * p) in
          let kept : level (toggled i d).port q ≡ level d.port q = ground (
            arith,
            distinct (i + 2 + 2 * p) (i + 1) (omega arith) (omega arith),
            level-toggled i q d written (small (i + 2 + 2 * p) (omega arith)) found byte,
          ) in
          rw (second, first) (rest ∙ ap (λ (l : ℕ). 1 - l) kept)
