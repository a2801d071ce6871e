-- ===== src/Can.antt =====
-- lib/python/satos_payload_sdk/antaris_api_can.py: messages from the bus, which a thread appends to
-- a list and the application takes off it. The bus is a parameter: what its calls answer.
pub mod Bus
mod Tests
use sat_os_payload_sdk.Prelude.{
  ℕ, zero, suc, String, Bool, true, false, List, [], ◌∷◌, ◌++◌, Option, none, some, length,
  if◌then◌else◌,
}
use sat_os_payload_sdk.Exec.{
  Result, ok, raised, attribute_error, name_error, key_error, value_error, Exec,
}

-- The global `threadLock` is the number -1 until somebody assigns a lock to it.
pub data ThreadLock : Type 0 where
  minus_one a_lock : ThreadLock

pub record Can (M : Type 0) : Type 0 where
  pub thread_lock : ThreadLock
  pub data_array : List M
  -- the messages that went out on the bus
  pub sent : List M
  -- the channels of the receiver threads that were started
  pub receivers : List String
  -- how often a bus was shut down
  pub shutdowns : ℕ

-- The globals when the module is loaded.
abbrev pub init : {M : Type 0} → Can M
init = record { thread_lock = minus_one; data_array = []; sent = []; receivers = []; shutdowns = 0 }

-- What `bus.recv(timeout=1)` answers: a message, None, or a CanError.
pub data Recv (M : Type 0) : Type 0 where
  message : M → Recv M
  nothing bus_error : Recv M

-- A message or the error code.
pub data Read (M : Type 0) : Type 0 where
  data_of : M → Read M
  gpio_error : Read M

-- Whether a call came back, with 0 or -1, or is still in its loop.
pub data Status : Type 0 where
  zero_status error_status looping : Status

-- The path of each counted device; `none` is a missing entry.
unfoldable pub get_can_dev : (ℕ → Option String) → ℕ → ℕ → Result (List String)
get_can_dev path zero i = ok []
get_can_dev path (suc k) i = elim (path i) [
  | none ↦ raised key_error
  | some p ↦ elim (get_can_dev path k (suc i)) [ ok more ↦ ok (p ∷ more) | raised e ↦ raised e ]
]

module _ {M : Type 0} where
  shut_down : Can M → Can M
  shut_down s = record s { shutdowns = suc s.shutdowns }

  -- The loop of `api_pa_pc_receive_can_message`, and its `finally`.
  unfoldable pub receive_loop : List (Recv M) → Exec (Can M) Status
  unfolding shut_down
  receive_loop [] s = (ok looping, s)
  receive_loop (message m ∷ answers) s =
      receive_loop answers (record s { data_array = s.data_array ++ m ∷ [] })
  receive_loop (nothing ∷ answers) s = receive_loop answers s
  receive_loop (bus_error ∷ answers) s = (ok error_status, shut_down s)

  -- If the bus cannot be opened, the name `bus` is not bound when `finally` uses it.
  pub receive_can_message : Bool → List (Recv M) → Exec (Can M) Status
  unfolding receive_loop
  receive_can_message opens answers s =
      if opens then receive_loop answers s else (raised name_error, s)

  -- `made` is the message that python-can makes of the id and the data, `none` for a ValueError.
  send_made : Option M → Bool → Exec (Can M) Status
  unfolding shut_down
  send_made none sends s = (raised value_error, shut_down s)
  send_made (some m) true s = (ok zero_status, shut_down (record s { sent = s.sent ++ m ∷ [] }))
  send_made (some m) false s = (ok error_status, shut_down s)

  unfoldable pub send_can_message : Bool → Option M → Bool → Exec (Can M) Status
  unfolding send_made
  send_can_message opens made sends s =
      if opens then send_made made sends s else (raised name_error, s)

  -- Without a `global` line the new lock is a local variable.
  unfoldable pub start_can_receiver_thread : String → Exec (Can M) (Unit {0})
  start_can_receiver_thread channel s =
      (ok tt, record s { receivers = s.receivers ++ channel ∷ [] })

  take_first : List M → Exec (Can M) (Read M)
  take_first [] s = (ok gpio_error, s)
  take_first (m ∷ rest) s = (ok (data_of m), record s { data_array = rest })

  read_by : ThreadLock → Exec (Can M) (Read M)
  unfolding take_first
  -- `with -1:`
  read_by minus_one s = (raised attribute_error, s)
  read_by a_lock s = take_first s.data_array s

  unfoldable pub read_can_data : Exec (Can M) (Read M)
  unfolding read_by
  read_can_data s = read_by s.thread_lock s

  unfoldable pub get_can_message_received_count : Can M → ℕ
  get_can_message_received_count s = length s.data_array
