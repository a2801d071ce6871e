-- ===== src/Framework/App/Shutdown.antt =====
-- How an app shuts down: what is waited for, what is answered, and where it can go wrong.
use sat_os_payload_sdk.Prelude.{
  ℕ, suc, ◌+◌, String, ◌≡◌, refl, Bool, true, false, List, [], ◌∷◌, ◌++◌, Option, arith,
  if◌then◌else◌,
}
use sat_os_payload_sdk.Framework.App.{
  finished, Main, waiting_for, disconnecting, closing, unclosed, complete, Message, registered,
  started, sequence_done, undelivered, response_shutdown, App, init, start_sequence,
  handle_shutdown, thread_step, main_by, main_step, Event, starts, thread_runs, main_runs, step,
  run,
}

-- Answers to a shutdown request in a log.
pub answers : List Message → ℕ
answers [] = 0
answers (response_shutdown cid ∷ log) = suc (answers log)
answers (_ ∷ log) = answers log

abbrev pub weight : Message → ℕ
weight (response_shutdown cid) = 1
weight _ = 0

answers-append :
    (log : List Message) (m : Message) → answers (log ++ m ∷ []) ≡ answers log + weight m
unfolding answers
answers-append [] (response_shutdown cid) = omega arith
answers-append [] _ = omega arith
answers-append (response_shutdown cid ∷ log) m = omega (arith, answers-append log m)
answers-append (_ ∷ log) m = answers-append log m

-- Whether `run` is behind its wait for a stop request.
abbrev pub past_wait : Main → Bool
past_wait Main.starting = false
past_wait Main.registering = false
past_wait Main.waiting = false
past_wait Main.failed = false
past_wait _ = true

abbrev pub is_complete : Main → Bool
is_complete complete = true
is_complete _ = false

-- Whether the call with the answer has returned: while the channel is deleted, when that has raised,
-- and at the end.
abbrev pub has_answered : Main → Bool
has_answered closing = true
has_answered unclosed = true
has_answered complete = true
has_answered _ = false

pub record IsOrderly (a : App) : Type 0 where
  pub answered : answers a.log ≡ (if has_answered a.main then 1 else 0)
  pub asked : past_wait a.main ≡ true → a.stoppable.stop_requested ≡ true
  pub reported : is_complete a.main ≡ true → a.stoppable.stopped ≡ true
  pub ended : (t : ℕ) → (a.threads t).stoppable.stopped ≡ true → (a.threads t).phase ≡ finished

init-IsOrderly : IsOrderly init
unfolding answers
init-IsOrderly = record {
  answered = refl;
  asked = λ e. cc e;
  reported = λ e. cc e;
  ended = λ t e. cc e;
}

start_sequence-IsOrderly :
    (seq_id params : String) (deadline : ℕ) (a : App)
    → IsOrderly a
    → IsOrderly (start_sequence seq_id params deadline a).0
unfolding start_sequence
start_sequence-IsOrderly seq_id params deadline a h = record {
  answered = ground (arith, h.answered, answers-append a.log (started seq_id));
  asked = ground (arith, h.asked);
  reported = ground (arith, h.reported);
  ended = λ t. ground (arith, h.ended t);
}

thread_step-IsOrderly :
    (sent : Bool) (t : ℕ) (a : App) → IsOrderly a → IsOrderly (thread_step sent t a)
unfolding thread_step
thread_step-IsOrderly sent t a h = record {
  answered = ground (
    arith,
    h.answered,
    answers-append a.log (sequence_done (a.threads t).seq_id),
    answers-append a.log (undelivered (a.threads t).seq_id),
  );
  asked = ground (arith, h.asked);
  reported = ground (arith, h.reported);
  ended = λ u. ground (arith, h.ended t, h.ended u);
}

main_by-IsOrderly :
    (m : Main) (sent : Bool) (a : App) → a.main ≡ m → IsOrderly a → IsOrderly (main_by m sent a)
unfolding main_step
main_by-IsOrderly (disconnecting cid) sent a e h = record {
  answered = ground (arith, e, h.answered, answers-append a.log (response_shutdown cid));
  asked = ground (arith, e, h.asked);
  reported = ground (arith, h.reported);
  ended = λ t. ground (arith, h.ended t);
}
main_by-IsOrderly _ sent a e h = record {
  answered = ground (arith, e, h.answered, answers-append a.log registered);
  asked = ground (arith, e, h.asked);
  reported = ground (arith, e, h.reported);
  ended = λ t. ground (arith, h.ended t);
}

step-IsOrderly : (e : Event) (a : App) → IsOrderly a → IsOrderly (step e a)
unfolding step handle_shutdown
step-IsOrderly (starts seq_id params deadline) a h =
    start_sequence-IsOrderly seq_id params deadline a h
step-IsOrderly (thread_runs sent t) a h = thread_step-IsOrderly sent t a h
step-IsOrderly (main_runs sent) a h = main_by-IsOrderly a.main sent a refl h
step-IsOrderly _ a h = record {
  answered = ground (arith, h.answered);
  asked = ground (arith, h.asked);
  reported = ground (arith, h.reported);
  ended = λ t. ground (arith, h.ended t);
}

run-IsOrderly : (events : List Event) (a : App) → IsOrderly a → IsOrderly (run events a)
run-IsOrderly [] a h = h
run-IsOrderly (e ∷ events) a h = run-IsOrderly events (step e a) (step-IsOrderly e a h)

-- When `run` has completed, a stop had been requested, and the app reports that it has stopped.
pub complete_reports_stopped :
    (events : List Event)
    → is_complete (run events init).main ≡ true
    → ((run events init).stoppable.stop_requested ≡ true)
      × ((run events init).stoppable.stopped ≡ true)
complete_reports_stopped events e =
    let h = run-IsOrderly events init init-IsOrderly in (h.asked (ground arith), h.reported e)

-- If the main thread waits for a sequence thread to stop and its next step ends the wait, then that
-- thread has run to its end: its handler function, its callback and its report are behind it.
pub shutdown_waits_for_thread :
    (events : List Event) (t : ℕ) (cid : Option ℕ) (sent : Bool)
    → (run events init).main ≡ waiting_for t cid
    → (main_step sent (run events init)).main ≡ disconnecting cid
    → ((run events init).threads t).phase ≡ finished
unfolding main_step
shutdown_waits_for_thread events t cid sent e f =
    let h = run-IsOrderly events init init-IsOrderly in ground (arith, e, f, h.ended t)
