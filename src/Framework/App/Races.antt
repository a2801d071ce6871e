-- ===== src/Framework/App/Races.antt =====
-- Schedules around a shutdown: one in which all is well, and those in which it is not.
use sat_os_payload_sdk.Prelude.{
  ℕ, ◌<◌, String, ◌≡◌, true, false, List, [], ◌∷◌, ◌++◌, Option, none, some, arith, append_assoc,
}
use sat_os_payload_sdk.Framework.App.{
  running, clearing, died, waiting_for, disconnecting, complete, started, sequence_done,
  response_shutdown, App, Event, starts, thread_runs, main_runs, step, run,
}

-- A main thread that waits for a sequence that is still in its handler function, with the lock
-- free: if the sequence thread alone runs to its end and then the main thread, and their remote calls
-- go through, the sequence's end is sent, then the answer to the shutdown, and `run` completes.
pub shutdown_completes :
    (a : App) (t : ℕ) (cid : Option ℕ)
    → a.main ≡ waiting_for t cid
    → (a.threads t).phase ≡ running
    → a.lock ≡ none
    → let ends = thread_runs true t in
      let a' =
        run (ends ∷ ends ∷ ends ∷ ends ∷ main_runs true ∷ main_runs true ∷ main_runs true ∷ []) a in
      (a'.main ≡ complete)
      × (a'.log ≡ a.log ++ sequence_done (a.threads t).seq_id ∷ response_shutdown cid ∷ [])
unfolding step
shutdown_completes a t cid e p l = ground (
  arith,
  append_assoc a.log (sequence_done (a.threads t).seq_id ∷ []) (response_shutdown cid ∷ []),
)

-- A sequence thread that died in its callback.
pub record IsDead (a : App) (t : ℕ) (cid : Option ℕ) : Type 0 where
  pub main : a.main ≡ waiting_for t cid
  pub phase : (a.threads t).phase ≡ died
  pub silent : (a.threads t).stoppable.stopped ≡ false
  pub known : t < a.next_thread

step-IsDead :
    (e : Event) (a : App) (t : ℕ) (cid : Option ℕ) → IsDead a t cid → IsDead (step e a) t cid
unfolding step
step-IsDead (main_runs sent) a t cid h = ground (arith, h.main)
step-IsDead _ a t cid h = ground arith

run-IsDead :
    (events : List Event) (a : App) (t : ℕ) (cid : Option ℕ)
    → IsDead a t cid
    → IsDead (run events a) t cid
run-IsDead [] a t cid h = h
run-IsDead (e ∷ events) a t cid h = run-IsDead events (step e a) t cid (step-IsDead e a t cid h)

-- If the main thread waits for a sequence that holds the lock in its callback and has not reported
-- its stop, and the remote call of that callback raises, then the main thread waits for ever: whatever
-- happens next, it never gets on.
pub dead_thread_blocks_shutdown :
    (events : List Event) (a : App) (t : ℕ) (cid : Option ℕ)
    → a.main ≡ waiting_for t cid
    → (a.threads t).phase ≡ clearing
    → (a.threads t).stoppable.stopped ≡ false
    → t < a.next_thread
    → (run (thread_runs false t ∷ events) a).main ≡ waiting_for t cid
unfolding step
dead_thread_blocks_shutdown events a t cid m p s k =
    (run-IsDead events (step (thread_runs false t) a) t cid (record {
      main = ground (arith, m);
      phase = ground (arith, p);
      silent = ground (arith, s);
      known = ground (arith, k);
    })).main

-- A sequence may be started after the shutdown has looked for an active one: then the answer to the
-- shutdown is sent, and `run` completes, while the handler function of that sequence runs.
pub start_during_shutdown :
    (a : App) (cid : Option ℕ) (seq_id params : String) (deadline f : ℕ)
    → a.main ≡ disconnecting cid
    → a.seq_handler ≡ none
    → a.lock ≡ none
    → a.sequence_handler_func_idx seq_id ≡ some f
    → let a' = run (starts seq_id params deadline ∷ main_runs true ∷ main_runs true ∷ []) a in
      (a'.main ≡ complete)
      × ((a'.threads a.next_thread).phase ≡ running)
      × (a'.log ≡ a.log ++ started seq_id ∷ response_shutdown cid ∷ [])
unfolding step
start_during_shutdown a cid seq_id params deadline f m n l mounted =
    ground (arith, append_assoc a.log (started seq_id ∷ []) (response_shutdown cid ∷ []))
