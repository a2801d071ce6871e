-- ===== src/Example/Sequences.antt =====
-- The other sequences of `Controller`. What a call of the client gives is a parameter, and so are the
-- serial port, the encoding of a text and the file system.
use Prim.Native.String.{◌++◌}
use sat_os_payload_sdk.Prelude.{
  ℕ, String, Bool, true, false, List, [], ◌∷◌, ◌++◌ as list_append, Option, none, some, get_elem?,
  str_eq, if◌then◌else◌, ◌≡◌, ◌≢◌, refl, All,
}
use sat_os_payload_sdk.Exec.{
  Result, ok, raised, attribute_error, index_error, value_error, Exec, ◌>>◌,
}
use sat_os_payload_sdk.Gpio.Uart.{UartConfig, Uart, get_uart_dev}

-- `is_healthy`
abbrev pub is_healthy : Bool
is_healthy = true

-- `handle_log_location`: the three values of what `get_current_location` gave, which may be None.
unfoldable pub handle_log_location : {Location : Type 0} → Option Location → Result Location
handle_log_location none = raised attribute_error
handle_log_location (some loc) = ok loc

-- `handle_power_control`: the params as a number, and the answer of the client.
unfoldable pub handle_power_control :
    {S A : Type 0} → (int : String → Option ℕ) → (ℕ → Exec S A) → String → Exec S A
handle_power_control int payload_power_control params s = elim (int params) [
  | none ↦ (raised value_error, s)
  | some power_state ↦ payload_power_control power_state s
]

-- `handle_stage_filedownload`: the sample file is written, and then staged under its name.
unfoldable pub handle_stage_filedownload :
    {S A : Type 0} → (write : String → String → Exec S (Unit {0})) → (String → Exec S A) → Exec S A
handle_stage_filedownload write stage_file_download = do
  write "/opt/antaris/outbound/SampleFile.txt" "Testing file download with payload"
  stage_file_download "SampleFile.txt"

-- A port whose sender is wired to its receiver: the bytes that wait to be read, and whether the
-- application has it open.
pub record Port : Type 0 where
  pub is_open : Bool
  pub waiting : List ℕ

-- pyserial, and `str.encode`: whether a path can be opened, and what `readline` takes of the bytes
-- that wait, with what it leaves.
pub record Serial : Type 0 where
  pub opens : String → Bool
  pub readline : List ℕ → List ℕ × List ℕ
  pub encode : String → List ℕ

abbrev pub uart_text : String → String
uart_text params = if str_eq params "" then "Default string: Uart Tested working" else params

module _ (serial : Serial) where
  -- `ser.write`, `ser.readline` and `ser.close` on an open port.
  unfoldable pub exchange : String → Exec Port (Option (List ℕ))
  exchange text port =
      let (read_data, rest) = serial.readline (list_append port.waiting (serial.encode text)) in
      (ok (some read_data), record { is_open = false; waiting = rest })

  -- What is read, or None where the port cannot be opened.
  unfoldable pub handle_uart_loopback : UartConfig → String → Exec Port (Option (List ℕ))
  unfolding exchange
  handle_uart_loopback config params port = elim (get_uart_dev config) [
    | raised e ↦ (raised e, port)
    | ok uart ↦ elim (get_elem? uart.uart_dev 0) [
      | none ↦ (raised index_error, port)
      | some path ↦
          if serial.opens path
          then exchange (uart_text params ++ "\n") (record port { is_open = true })
          else (ok none, port)
    ]
  ]

  -- pyserial and the encoding as documented: a text is encoded piece by piece, and `readline` takes
  -- the bytes up to the first line feed, which is 10.
  pub record IsDocumented : Type 0 where
    pub encode_line :
        (s : String) → serial.encode (s ++ "\n") ≡ list_append (serial.encode s) (10 ∷ [])
    pub readline_lem :
        (line rest : List ℕ)
        → All (λ b. b ≢ 10) line
        → serial.readline (list_append line (10 ∷ rest)) ≡ (list_append line (10 ∷ []), rest)

  -- On a quiet port a text of one line comes back whole, with its line feed, and the port is closed
  -- with nothing left on it; empty params stand for the default text.
  pub handle_uart_loopback_lem :
      (config : UartConfig) (uart : Uart) (path params : String) (port : Port)
      → IsDocumented
      → get_uart_dev config ≡ ok uart
      → get_elem? uart.uart_dev 0 ≡ some path
      → serial.opens path ≡ true
      → port.waiting ≡ []
      → All (λ b. b ≢ 10) (serial.encode (uart_text params))
      → handle_uart_loopback config params port ≡ (
        ok (some (list_append (serial.encode (uart_text params)) (10 ∷ []))),
        record { is_open = false; waiting = [] },
      )
  unfolding handle_uart_loopback exchange
  handle_uart_loopback_lem config uart path params port doc found first opens quiet one_line =
      rw (found, handle_uart_loopback)
        (rw (first, opens, quiet, exchange, doc.encode_line (uart_text params))
          (rw (doc.readline_lem (serial.encode (uart_text params)) [] one_line) refl))
