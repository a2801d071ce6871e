-- ===== src/Can/Bus.antt =====
-- Messages arrive in order and are counted, and cannot be read.
use sat_os_payload_sdk.Prelude.{
  ◌+◌, String, Bool, Option, List, [], ◌∷◌, ◌++◌, length, ◌≡◌, refl, arith, append_assoc,
  append-nil, length-append, ◌∙◌,
}
use sat_os_payload_sdk.Exec.{raised, attribute_error}
use sat_os_payload_sdk.Can.{
  Can, init, Recv, message, nothing, bus_error, receive_loop, receive_can_message, send_can_message,
  start_can_receiver_thread, read_can_data, get_can_message_received_count,
}

-- What an application and its receiver threads do with the module.
pub data Use (M : Type 0) : Type 0 where
  starts : String → Use M
  receives : Bool → List (Recv M) → Use M
  sends : Bool → Option M → Bool → Use M
  reads : Use M

module _ {M : Type 0} where
  -- The messages before the first error.
  abbrev pub messages : List (Recv M) → List M
  messages [] = []
  messages (message m ∷ answers) = m ∷ messages answers
  messages (nothing ∷ answers) = messages answers
  messages (bus_error ∷ answers) = []

  pub data_array-receive_loop :
      (answers : List (Recv M)) (s : Can M)
      → (receive_loop answers s).1.data_array ≡ s.data_array ++ messages answers
  unfolding receive_loop
  data_array-receive_loop [] s = rw append-nil
  data_array-receive_loop (message m ∷ answers) s =
      data_array-receive_loop answers (record s { data_array = s.data_array ++ m ∷ [] })
      ∙ append_assoc s.data_array (m ∷ []) (messages answers)
  data_array-receive_loop (nothing ∷ answers) s = data_array-receive_loop answers s
  data_array-receive_loop (bus_error ∷ answers) s = rw append-nil

  -- The receiver appends every message that the bus gave before its first error, in order, and
  -- nothing else; the received count goes up by their number.
  pub receive_appends :
      (answers : List (Recv M)) (s : Can M)
      → let s' = (receive_can_message Bool.true answers s).1 in
        (s'.data_array ≡ s.data_array ++ messages answers)
        × (get_can_message_received_count s'
            ≡ get_can_message_received_count s + length (messages answers))
  unfolding receive_can_message get_can_message_received_count
  receive_appends answers s = (
    data_array-receive_loop answers s,
    rw (data_array-receive_loop answers s, length-append s.data_array (messages answers)),
  )

  pub use_can : Use M → Can M → Can M
  use_can (starts channel) s = (start_can_receiver_thread channel s).1
  use_can (receives opens answers) s = (receive_can_message opens answers s).1
  use_can (sends opens made goes) s = (send_can_message opens made goes s).1
  use_can reads s = (read_can_data s).1

  abbrev pub use_all : List (Use M) → Can M → Can M
  use_all [] s = s
  use_all (u ∷ us) s = use_all us (use_can u s)

  pub thread_lock-receive_loop :
      (answers : List (Recv M)) (s : Can M) → (receive_loop answers s).1.thread_lock ≡ s.thread_lock
  unfolding receive_loop
  thread_lock-receive_loop [] s = refl
  thread_lock-receive_loop (message m ∷ answers) s = thread_lock-receive_loop answers _
  thread_lock-receive_loop (nothing ∷ answers) s = thread_lock-receive_loop answers s
  thread_lock-receive_loop (bus_error ∷ answers) s = refl

  thread_lock-use_can : (u : Use M) (s : Can M) → (use_can u s).thread_lock ≡ s.thread_lock
  unfolding use_can start_can_receiver_thread receive_can_message send_can_message read_can_data
  thread_lock-use_can (starts channel) s = refl
  thread_lock-use_can (receives opens answers) s =
      ground (arith, thread_lock-receive_loop answers s)
  thread_lock-use_can (sends opens made goes) s = ground arith
  thread_lock-use_can reads s = ground arith

  thread_lock-use_all : (us : List (Use M)) (s : Can M) → (use_all us s).thread_lock ≡ s.thread_lock
  thread_lock-use_all [] s = refl
  thread_lock-use_all (u ∷ us) s = thread_lock-use_all us (use_can u s) ∙ thread_lock-use_can u s

  -- Whatever has been done, receiver threads started among it, reading raises and takes no message
  -- off the list.
  pub read_can_data_fails :
      (us : List (Use M))
      → read_can_data (use_all us init) ≡ (raised attribute_error, use_all us init)
  unfolding read_can_data
  read_can_data_fails us = ground (arith, thread_lock-use_all us init)
