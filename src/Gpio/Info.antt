-- ===== src/Gpio/Info.antt =====
-- `api_pa_pc_get_gpio_info()`: the list of the pins.
use sat_os_payload_sdk.Prelude.{
  ℕ, zero, suc, ◌+◌, ◌≤◌, ◌<◌, String, List, [], ◌∷◌, Option, none, some, length, get_elem?, set,
  replicate, leb, ltb, ◌&&◌, false, ◌==◌, if◌then◌else◌, ◌≡◌, refl, arith,
}
use sat_os_payload_sdk.Exec.{ok}
use sat_os_payload_sdk.Gpio.{Config, Gpio, fill_pins, get_gpio_info}

length-set {ℓ} : {A : Type ℓ} (xs : List A) (i : ℕ) (v : A) → length (set xs i v) ≡ length xs
length-set [] i v = refl
length-set (x ∷ xs) zero v = refl
length-set (x ∷ xs) (suc i) v = omega (arith, length-set xs i v)

get_elem?-set :
    {A : Type 0} (xs : List A) (i : ℕ) (v : A) (j : ℕ)
    → i < length xs
    → get_elem? (set xs i v) j ≡ (if j == i then some v else get_elem? xs j)
get_elem?-set [] i v j h = absurd (omega arith)
get_elem?-set (x ∷ xs) zero v zero h = refl
get_elem?-set (x ∷ xs) zero v (suc j) h = ground arith
get_elem?-set (x ∷ xs) (suc i) v zero h = ground arith
get_elem?-set (x ∷ xs) (suc i) v (suc j) h = ground (arith, get_elem?-set xs i v j)

module _ (c : Config) (name : ℕ → String) (entries : (j : ℕ) → c.pin j ≡ some (name j)) where
  abbrev filled : ℕ → ℕ → List (Option String) → List (Option String)
  filled zero i pins = pins
  filled (suc k) i pins = filled k (suc i) (set pins i (some (name i)))

  fill_pins_lem :
      (k i : ℕ) (pins : List (Option String))
      → i + k ≤ length pins
      → fill_pins c k i pins ≡ ok (filled k i pins)
  unfolding fill_pins
  fill_pins_lem zero i pins h = refl
  fill_pins_lem (suc k) i pins h =
      let room : leb (length pins) i ≡ false = ground arith in
      rw (entries i, room, fill_pins)
        (fill_pins_lem k (suc i) (set pins i (some (name i)))
          (omega (arith, length-set pins i (some (name i)))))

  get_elem?-filled :
      (k i j : ℕ) (pins : List (Option String))
      → i + k ≤ length pins
      → get_elem? (filled k i pins) j
        ≡ (if leb i j && ltb j (i + k) then some (some (name j)) else get_elem? pins j)
  get_elem?-filled zero i j pins h = ground arith
  get_elem?-filled (suc k) i j pins h =
      let entry : Option String = some (name i) in
      ground (
        arith,
        length-set pins i entry,
        get_elem?-set pins i entry j,
        get_elem?-filled k (suc i) j (set pins i entry),
      )

  -- With at most eight entries, each of them in the file, the list has them in their order.
  pub get_gpio_info_lem :
      c.pin_count ≤ 8
      → (info : Gpio) × (get_gpio_info c ≡ ok info)
        × (info.pin_count ≡ c.pin_count)
        × ((j : ℕ) → j < c.pin_count → get_elem? info.pins j ≡ some (some (name j)))
  unfolding get_gpio_info
  get_gpio_info_lem few =
      let blank : List (Option String) = replicate 8 none in
      (
        record {
          pin_count = c.pin_count;
          pins = filled c.pin_count 0 blank;
          interrupt_pin = c.interrupt_pin;
        },
        rw (fill_pins_lem c.pin_count 0 blank (omega arith)) refl,
        refl,
        λ j h. ground (arith, get_elem?-filled c.pin_count 0 j blank),
      )
