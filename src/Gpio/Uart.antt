-- ===== src/Gpio/Uart.antt =====
-- The getters of antaris_api_gpio.py: the serial ports that config.json names, and single entries.
use sat_os_payload_sdk.Prelude.{
  ap, sym, ◌∙◌, ℕ, zero, suc, ◌+◌, ◌<◌, String, ◌≡◌, refl, List, [], ◌∷◌, length, get_elem?, Option,
  none, some, arith,
}
use sat_os_payload_sdk.Exec.{Result, ok, raised, key_error}
use sat_os_payload_sdk.Gpio.{Config}

-- The section IO_Access.UART; `path i` is the entry Device_Path_i.
pub record UartConfig : Type 0 where
  pub port_count : ℕ
  pub path : ℕ → Option String

pub record Uart : Type 0 where
  pub uart_port_count : ℕ
  pub uart_dev : List String

abbrev entry : Option String → Result String
entry none = raised key_error
entry (some s) = ok s

-- The loop from index `i`, with `n` indices to go.
paths_from : (ℕ → Option String) → ℕ → ℕ → Result (List String)
paths_from path zero i = ok []
paths_from path (suc n) i =
    let rest = paths_from path n (suc i) in
    elim (path i) [
      | none ↦ raised key_error
      | some s ↦ elim rest [ raised e ↦ raised e | ok l ↦ ok (s ∷ l) ]
    ]

abbrev with_count : ℕ → Result (List String) → Result Uart
with_count n (raised e) = raised e
with_count n (ok l) = ok (record { uart_port_count = n; uart_dev = l })

-- `api_pa_pc_get_uart_dev()`
unfoldable pub get_uart_dev : UartConfig → Result Uart
unfolding paths_from
get_uart_dev c = with_count c.port_count (paths_from c.path c.port_count 0)

unfoldable pub get_gpio_pin_count : Config → ℕ
get_gpio_pin_count c = c.pin_count

unfoldable pub get_gpio_port : Config → String
get_gpio_port c = c.port

unfoldable pub get_io_interrupt_pin : Config → String
get_io_interrupt_pin c = c.interrupt_pin

unfoldable pub get_gpio_pins_number : Config → ℕ → Result String
get_gpio_pins_number c index = entry (c.pin index)

paths_from-cons :
    (path : ℕ → Option String) (n i : ℕ) {l : List String}
    → paths_from path (suc n) i ≡ ok l
    → (s : String) × (rest : List String) × (path i ≡ some s)
      × (paths_from path n (suc i) ≡ ok rest)
      × (l ≡ s ∷ rest)
unfolding paths_from
paths_from-cons path n i {l} h =
    elim (path i)
        as (λ o.
          elim o [
            | none ↦ raised key_error
            | some s ↦ elim (paths_from path n (suc i)) [ raised e ↦ raised e | ok l ↦ ok (s ∷ l) ]
          ]
            ≡ ok l
          → (s : String) × (rest : List String) × (o ≡ some s)
            × (paths_from path n (suc i) ≡ ok rest)
            × (l ≡ s ∷ rest)) [
              | none ↦ λ k. cc k
              | some s ↦
                  elim (paths_from path n (suc i))
                    as (λ r.
                      elim r [ raised e ↦ raised e | ok l ↦ ok (s ∷ l) ] ≡ ok l
                      → (u : String) × (rest : List String) × (Option.some s ≡ some u)
                        × (r ≡ ok rest)
                        × (l ≡ u ∷ rest)) [
                          | raised e ↦ λ k. cc k
                          | ok rest ↦ λ k. (s, rest, refl, refl, cc k)
                        ]
            ]
      h

paths_from-length :
    (path : ℕ → Option String) (n i : ℕ) {l : List String}
    → paths_from path n i ≡ ok l
    → length l ≡ n
unfolding paths_from
paths_from-length path zero i {l} h = let empty : l ≡ [] = cc h in rw empty
paths_from-length path (suc n) i {l} h =
    let (s, rest, is, tail, eq) = paths_from-cons path n i h in
    rw eq (ap suc (paths_from-length path n (suc i) tail))

paths_from-get_elem? :
    (path : ℕ → Option String) (n i j : ℕ) {l : List String}
    → paths_from path n i ≡ ok l
    → j < n
    → get_elem? l j ≡ path (i + j)
unfolding paths_from
paths_from-get_elem? path zero i j h lt = absurd (omega (arith, lt))
paths_from-get_elem? path (suc n) i zero {l} h lt =
    let (s, rest, is, tail, eq) = paths_from-cons path n i h in
    let here : i + 0 ≡ i = omega arith in rw (eq, here) (sym is)
paths_from-get_elem? path (suc n) i (suc j) {l} h lt =
    let (s, rest, is, tail, eq) = paths_from-cons path n i h in
    rw eq (paths_from-get_elem? path n (suc i) j tail (omega (arith, lt)) ∙ ap path (omega arith))

with_count-eq :
    (n : ℕ) (r : Result (List String)) {u : Uart}
    → with_count n r ≡ ok u
    → (u.uart_port_count ≡ n) × (r ≡ ok u.uart_dev)
with_count-eq n (ok l) h = (cc h, cc h)
with_count-eq n (raised e) h = cc h

-- Where the list of the serial ports comes back, it has as many entries as the configuration counts,
-- and each is the path of its index.
pub get_uart_dev_lem :
    (c : UartConfig) (j : ℕ) {u : Uart}
    → get_uart_dev c ≡ ok u
    → j < c.port_count
    → (length u.uart_dev ≡ u.uart_port_count)
      × (u.uart_port_count ≡ c.port_count)
      × (get_elem? u.uart_dev j ≡ c.path j)
unfolding get_uart_dev
get_uart_dev_lem c j {u} h lt =
    let (count, devs) = with_count-eq c.port_count (paths_from c.path c.port_count 0) h in
    (
      paths_from-length c.path c.port_count 0 devs ∙ sym count,
      count,
      paths_from-get_elem? c.path c.port_count 0 j devs lt ∙ ap c.path (omega arith),
    )
