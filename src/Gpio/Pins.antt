-- ===== src/Gpio/Pins.antt =====
-- What the pins do.
use Prim.Native.Nat.{bit_and, bit_or, bit_xor}
use sat_os_payload_sdk.Prelude.{
  ℕ, zero, suc, ◌^◌, ◌<◌, String, Bool, true, false, ◌||◌, ◌⊎◌, inl, inr, Option, some, ◌==◌,
  str_eq, if◌then◌else◌, ℤ, pos, ◌==ℤ◌, ◌≡◌, ◌≢◌, refl, arith, ==_iff, ltb, ltb→lt,
}
use sat_os_payload_sdk.Exec.{Result, ok, raised, Result-cases}
use sat_os_payload_sdk.Gpio.{
  Config, Device, gpio_error, gpio_available, bit, level, verify_from, verify_gpio_pin, read_gpio,
  write_gpio, api_pa_pc_read_gpio, api_pa_pc_write_gpio,
}

-- Whether `p` holds of the numbers before `n`.
holds_to : (ℕ → Bool) → ℕ → Bool
holds_to p zero = true
holds_to p (suc n) = if p n then holds_to p n else false

holds_to-at : (p : ℕ → Bool) (n x : ℕ) → x < n → holds_to p n ≡ true → p x ≡ true
unfolding holds_to
holds_to-at p zero x k h = absurd (omega (arith, k))
holds_to-at p (suc n) x k h = ground (arith, holds_to-at p n x)

-- The byte after a write, and whether pin `q` reads what it should.
written : ℕ → Bool → ℕ → ℕ
written pin high port =
    if high then bit_or port (bit pin) else bit_and port (bit_xor 0xFF (bit pin))

reads_right : Bool → ℕ → ℕ → ℕ → Bool
reads_right high port pin q =
    level (written pin high port) q == (if q == pin then (if high then 1 else 0) else level port q)

table : Bool → Bool
table high = holds_to (λ port. holds_to (λ pin. holds_to (reads_right high port pin) 8) 8) 256

table-high : table true ≡ true
unfolding table holds_to reads_right written
table-high = refl

table-low : table false ≡ true
unfolding table holds_to reads_right written
table-low = refl

table-holds : (high : Bool) → table high ≡ true
table-holds true = table-high
table-holds false = table-low

table_at :
    (high : Bool) (port pin q : ℕ)
    → port < 256
    → pin < 8
    → q < 8
    → reads_right high port pin q ≡ true
unfolding table
table_at high port pin q a b c =
    let cell = λ (y : ℕ). holds_to (reads_right high port y) 8 in
    let row = λ (x : ℕ). holds_to (λ y. holds_to (reads_right high x y) 8) 8 in
    holds_to-at (reads_right high port pin) 8 q c
      (holds_to-at cell 8 pin b (holds_to-at row 256 port a (table-holds high)))

level-written :
    (high : Bool) (port pin q : ℕ)
    → port < 256
    → pin < 8
    → q < 8
    → level (written pin high port) q ≡ (if q == pin then (if high then 1 else 0) else level port q)
level-written high port pin q a b c =
    (==_iff _ _).0 (unfold reads_right in table_at high port pin q a b c)

stays_byte : Bool → ℕ → ℕ → Bool
stays_byte high port pin = ltb (written pin high port) 256

bytes : Bool → Bool
bytes high = holds_to (λ port. holds_to (stays_byte high port) 8) 256

bytes-high : bytes true ≡ true
unfolding bytes holds_to stays_byte written
bytes-high = refl

bytes-low : bytes false ≡ true
unfolding bytes holds_to stays_byte written
bytes-low = refl

bytes-holds : (high : Bool) → bytes high ≡ true
bytes-holds true = bytes-high
bytes-holds false = bytes-low

written-lt : (high : Bool) (port pin : ℕ) → port < 256 → pin < 8 → written pin high port < 256
written-lt high port pin a b =
    let row = λ (x : ℕ). holds_to (stays_byte high x) 8 in
    let cell : stays_byte high port pin ≡ true =
      holds_to-at (stays_byte high port) 8 pin b
        (holds_to-at row 256 port a (unfold bytes in bytes-holds high)) in
    ltb→lt _ _ (unfold stays_byte in cell)

module _ (int : String → Option ℤ) where
  -- Writing a pin of a byte-wide port: that pin reads back as written, 0 for a zero and 1 for any
  -- other value, which is also the answer; each other pin reads as before; and the pin is the only
  -- output.
  pub write_gpio_levels :
      (pin q : ℕ) (value : ℤ) (d : Device)
      → d.present ≡ true
      → d.port < 256
      → pin < 8
      → q < 8
      → let high : ℕ = if value ==ℤ pos 0 then 0 else 1 in
        let (d', op) = write_gpio int pin value d in
        (read_gpio int q d' ≡ pos (if q == pin then high else level d.port q))
        × (op ≡ pos high)
        × (d'.direction ≡ 2 ^ pin)
  unfolding write_gpio read_gpio written
  write_gpio_levels pin q value d there small p k = ground (
    arith,
    level-written true d.port pin q small p k,
    level-written false d.port pin q small p k,
    level-written true d.port pin pin small p p,
    level-written false d.port pin pin small p p,
  )

  -- A port stays a byte.
  pub write_gpio-lt :
      (pin : ℕ) (value : ℤ) (d : Device)
      → d.port < 256
      → pin < 8
      → (write_gpio int pin value d).0.port < 256
  unfolding write_gpio written
  write_gpio-lt pin value d small p =
      ground (arith, written-lt true d.port pin small p, written-lt false d.port pin small p)

  -- Whether one of the entries from index `i` on is the pin.
  abbrev pub is_listed : (ℕ → ℤ) → ℤ → ℕ → ℕ → Bool
  is_listed value input zero i = false
  is_listed value input (suc k) i = (input ==ℤ value i) || is_listed value input k (suc i)

  verify_from-is_listed :
      (c : Config) (name : ℕ → String) (value : ℕ → ℤ) (input : ℤ) (k i : ℕ) (status : ℤ)
      → ((j : ℕ) → c.pin j ≡ some (name j))
      → ((j : ℕ) → int (name j) ≡ some (value j))
      → verify_from int c input k i status
        ≡ ok (if is_listed value input k i then gpio_available else status)
  unfolding verify_from
  verify_from-is_listed c name value input zero i status h g = refl
  verify_from-is_listed c name value input (suc k) i status h g = ground (
    arith,
    h i,
    g i,
    verify_from-is_listed c name value input k (suc i) status h g,
    verify_from-is_listed c name value input k (suc i) gpio_available h g,
  )

  -- Where every entry is there and is a number, a pin is available exactly if one of the counted
  -- entries is that pin.
  pub verify_gpio_pin-is_listed :
      (c : Config) (name : ℕ → String) (value : ℕ → ℤ) (input : ℤ)
      → ((j : ℕ) → c.pin j ≡ some (name j))
      → ((j : ℕ) → int (name j) ≡ some (value j))
      → verify_gpio_pin int c input
        ≡ ok (if is_listed value input c.pin_count 0 then gpio_available else gpio_error)
  unfolding verify_gpio_pin
  verify_gpio_pin-is_listed c name value input h g =
      verify_from-is_listed c name value input c.pin_count 0 gpio_error h g

  verify_from-statuses :
      (c : Config) (input : ℤ) (k i : ℕ) (status r : ℤ)
      → (status ≡ gpio_error) ⊎ (status ≡ gpio_available)
      → verify_from int c input k i status ≡ ok r
      → (r ≡ gpio_error) ⊎ (r ≡ gpio_available)
  unfolding verify_from
  verify_from-statuses c input zero i status r h e = ground arith
  verify_from-statuses c input (suc k) i status r h e = ground (
    arith,
    verify_from-statuses c input k (suc i) status r h,
    verify_from-statuses c input k (suc i) gpio_available r (inr refl),
  )

  verify_gpio_pin-statuses :
      (c : Config) (input r : ℤ)
      → verify_gpio_pin int c input ≡ ok r
      → (r ≡ gpio_error) ⊎ (r ≡ gpio_available)
  unfolding verify_gpio_pin
  verify_gpio_pin-statuses c input r e =
      verify_from-statuses c input c.pin_count 0 gpio_error r (inl refl) e

  -- The answer where the driver is not called.
  abbrev pub denial : Result ℤ → Result ℤ
  denial (ok status) = ok gpio_error
  denial (raised e) = raised e

  -- A pin that is not available, and any pin of an adapter that is not FTDI, is neither read nor
  -- written: the answer is -1, or the exception of a missing or malformed entry, and the device stays
  -- as it was.
  pub guards_hold :
      (c : Config) (pin : ℕ) (value : ℤ) (d : Device)
      → (verify_gpio_pin int c (pos pin) ≢ ok gpio_available)
        ⊎ (str_eq c.adapter_type "FTDI" ≡ false)
      → (api_pa_pc_write_gpio int c pin value d ≡ (d, denial (verify_gpio_pin int c (pos pin))))
        × (api_pa_pc_read_gpio int c pin d ≡ (d, denial (verify_gpio_pin int c (pos pin))))
  unfolding api_pa_pc_write_gpio api_pa_pc_read_gpio
  guards_hold c pin value d h = elim (Result-cases (verify_gpio_pin int c (pos pin))) [
    | inl (r, e) ↦ ground (arith, e, verify_gpio_pin-statuses c (pos pin) r e)
    | inr (x, e) ↦ ground (arith, e)
  ]
