-- ===== src/Framework/App/Tests.antt =====
-- Concrete schedules of an app.
use sat_os_payload_sdk.Prelude.{ℕ, ◌≡◌, refl, true, false, List, [], ◌∷◌, ◌++◌, some, arith}
use sat_os_payload_sdk.Framework.App.{
  App, init, run, step, thread_runs, main_runs, mounts, starts, shuts_down, Event, waiting_for,
  complete, finished, running, sequence_done, response_shutdown, started,
}
use sat_os_payload_sdk.Framework.App.Protocol.{
  replay, view, run_follows_protocol, one_active_sequence,
}
use sat_os_payload_sdk.Framework.App.Shutdown.{shutdown_waits_for_thread}
use sat_os_payload_sdk.Framework.App.Races.{
  shutdown_completes, dead_thread_blocks_shutdown, start_during_shutdown,
}
use sat_os_payload_sdk.Exec.{raised, ok, failure}
use sat_os_payload_sdk.Framework.App.{
  handle_health_check, deadline_reached, an_success, an_generic_failure,
}

-- A sequence is started, a second one is refused, the controller asks for the shutdown, and the main
-- thread waits for the sequence.
abbrev until_waiting : List Event
until_waiting =
    mounts "scan" 7
    ∷ main_runs true
    ∷ main_runs true
    ∷ starts "scan" "fast" 90
    ∷ starts "scan" "slow" 90
    ∷ shuts_down 4
    ∷ main_runs true
    ∷ main_runs true
    ∷ main_runs true
    ∷ main_runs true
    ∷ []

abbrev waiting_app : App
waiting_app = run until_waiting init

run_follows_protocol_example : replay waiting_app.log ≡ some (view waiting_app)
run_follows_protocol_example = run_follows_protocol until_waiting

abbrev first : ℕ
first = 0

one_active_sequence_example : (first ≡ first) × (waiting_app.seq_handler ≡ some 0)
unfolding step
one_active_sequence_example = one_active_sequence until_waiting first first refl refl

-- The sequence ends as it should, up to the end of its thread.
abbrev until_finished : List Event
until_finished =
    until_waiting
    ++ thread_runs true 0 ∷ thread_runs true 0 ∷ thread_runs true 0 ∷ thread_runs true 0 ∷ []

shutdown_waits_for_thread_example : ((run until_finished init).threads 0).phase ≡ finished
unfolding step
shutdown_waits_for_thread_example =
    shutdown_waits_for_thread until_finished 0 (some 4) true refl refl

abbrev until_complete : List Event
until_complete = until_finished ++ main_runs true ∷ main_runs true ∷ main_runs true ∷ []

scan_completes :
    let ends = thread_runs true 0 in
    let a' =
      run
        (ends ∷ ends ∷ ends ∷ ends ∷ main_runs true ∷ main_runs true ∷ main_runs true ∷ [])
        waiting_app in
    (a'.main ≡ complete)
    × (a'.log ≡ waiting_app.log ++ sequence_done "scan" ∷ response_shutdown (some 4) ∷ [])
unfolding step
scan_completes = shutdown_completes waiting_app 0 (some 4) refl refl refl

-- The sequence is in its callback.
abbrev until_clearing : List Event
until_clearing = until_waiting ++ thread_runs true 0 ∷ thread_runs true 0 ∷ []

dead_thread_blocks_shutdown_example :
    (run
      (thread_runs false 0 ∷ main_runs true ∷ thread_runs true 0 ∷ main_runs true ∷ [])
      (run until_clearing init)).main
    ≡ waiting_for 0 (some 4)
unfolding step
dead_thread_blocks_shutdown_example =
    dead_thread_blocks_shutdown (main_runs true ∷ thread_runs true 0 ∷ main_runs true ∷ [])
      (run until_clearing init) 0 (some 4) refl refl refl (omega arith)

-- A shutdown without a sequence, up to the disconnect.
abbrev until_disconnecting : List Event
until_disconnecting =
    mounts "scan" 7
    ∷ main_runs true
    ∷ main_runs true
    ∷ shuts_down 4
    ∷ main_runs true
    ∷ main_runs true
    ∷ main_runs true
    ∷ []

start_during_shutdown_example :
    let a = run until_disconnecting init in
    let a' = run (starts "scan" "fast" 90 ∷ main_runs true ∷ main_runs true ∷ []) a in
    (a'.main ≡ complete)
    × ((a'.threads 0).phase ≡ running)
    × (a'.log ≡ a.log ++ started "scan" ∷ response_shutdown (some 4) ∷ [])
unfolding step
start_during_shutdown_example =
    start_during_shutdown (run until_disconnecting init) (some 4) "scan" "fast" 90 7 refl refl refl
      refl

health_check_raises : handle_health_check (raised failure) ≡ an_generic_failure
unfolding handle_health_check
health_check_raises = refl

health_check_passes : handle_health_check (ok true) ≡ an_success
unfolding handle_health_check
health_check_passes = refl

-- The deadline itself counts as reached.
deadline_comes :
    (deadline_reached 89 (waiting_app.threads 0) ≡ false)
    × (deadline_reached 90 (waiting_app.threads 0) ≡ true)
unfolding deadline_reached step
deadline_comes = (refl, refl)
