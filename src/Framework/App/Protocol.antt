-- ===== src/Framework/App/Protocol.antt =====
-- The starts of the sequence threads and the calls that tell of their ends, against a specification
-- of the order in which they come.
use sat_os_payload_sdk.Prelude.{
  ℕ, ◌≤◌, String, ◌≡◌, refl, Bool, true, false, List, [], ◌∷◌, ◌++◌, Option, none, some, arith,
  str_eq, str_eq_iff, if◌then◌else◌,
}
use sat_os_payload_sdk.Framework.App.{
  Phase, unborn, running, handled, clearing, Thread, Main, Message, registered, started,
  sequence_done, undelivered, response_shutdown, App, init, start_sequence, handle_shutdown,
  thread_step, main_by, main_step, Event, starts, shuts_down, thread_runs, main_runs, step, run,
}

-- No sequence is active, or one is.
pub data View : Type 0 where
  idle : View
  active : String → View

-- A sequence is started only while none is active, and its end, delivered or not, is that of the
-- sequence that is active. Other messages are allowed at any time.
abbrev pub next : Message → View → Option View
next (started s) idle = some (active s)
next (started s) (active r) = none
next (sequence_done s) idle = none
next (sequence_done s) (active r) = if str_eq r s then some idle else none
next (undelivered s) idle = none
next (undelivered s) (active r) = if str_eq r s then some idle else none
next _ v = some v

abbrev pub next? : Message → Option View → Option View
next? m none = none
next? m (some v) = next m v

replay_from : Option View → List Message → Option View
replay_from v [] = v
replay_from v (m ∷ log) = replay_from (next? m v) log

pub replay : List Message → Option View
unfolding replay_from
replay = replay_from (some idle)

replay_from-append :
    (v : Option View) (log : List Message) (m : Message)
    → replay_from v (log ++ m ∷ []) ≡ next? m (replay_from v log)
unfolding replay_from
replay_from-append v [] m = refl
replay_from-append v (k ∷ log) m = replay_from-append (next? k v) log m

pub replay-append :
    (log : List Message) (m : Message) → replay (log ++ m ∷ []) ≡ next? m (replay log)
unfolding replay
replay-append log m = replay_from-append (some idle) log m

-- The app's own view: the thread in its callback, or else the one in `seq_handler`.
abbrev pub thread_view : Option ℕ → (ℕ → Thread) → View
thread_view none threads = idle
thread_view (some t) threads = active (threads t).seq_id

abbrev pub current : Option ℕ → Option ℕ → Option ℕ
current none handler = handler
current (some t) handler = some t

abbrev pub view : App → View
view a = thread_view (current a.lock a.seq_handler) a.threads

abbrev pub is_active : Phase → Bool
is_active running = true
is_active handled = true
is_active _ = false

-- The phase of thread `t`, the lock and `seq_handler` agree.
pub record ValidAt (a : App) (t : ℕ) : Type 0 where
  pub clears : (a.threads t).phase ≡ clearing → a.lock ≡ some t
  pub holds : a.lock ≡ some t → ((a.threads t).phase ≡ clearing) × (a.seq_handler ≡ none)
  pub runs : is_active (a.threads t).phase ≡ true → a.seq_handler ≡ some t
  pub handler : a.seq_handler ≡ some t → is_active (a.threads t).phase ≡ true
  pub fresh_id : a.next_thread ≤ t → (a.threads t).phase ≡ unborn

pub record IsValid (a : App) : Type 0 where
  pub at : (t : ℕ) → ValidAt a t
  pub follows : replay a.log ≡ some (view a)

init-IsValid : IsValid init
unfolding replay
init-IsValid = record {
  at = λ t. record {
    clears = λ e. cc e;
    holds = λ e. cc e;
    runs = λ e. cc e;
    handler = λ e. cc e;
    fresh_id = λ e. refl;
  };
  follows = refl;
}

start_sequence-IsValid :
    (seq_id params : String) (deadline : ℕ) (a : App)
    → IsValid a
    → IsValid (start_sequence seq_id params deadline a).0
unfolding start_sequence
start_sequence-IsValid seq_id params deadline a h = record {
  at = λ t. ground (arith, h.at t);
  follows = ground (arith, h.follows, replay-append a.log (started seq_id));
}

handle_shutdown-IsValid : (cid : ℕ) (a : App) → IsValid a → IsValid (handle_shutdown cid a).0
unfolding handle_shutdown
handle_shutdown-IsValid cid a h = record {
  at = λ t. ground (arith, h.at t);
  follows = ground (arith, h.follows);
}

thread_step-IsValid : (sent : Bool) (t : ℕ) (a : App) → IsValid a → IsValid (thread_step sent t a)
unfolding thread_step
thread_step-IsValid sent t a h = record {
  at = λ u. ground (arith, h.at t, h.at u);
  follows = ground (
    arith,
    h.at t,
    h.follows,
    replay-append a.log (sequence_done (a.threads t).seq_id),
    replay-append a.log (undelivered (a.threads t).seq_id),
    str_eq_iff (a.threads t).seq_id (a.threads t).seq_id,
  );
}

main_by-IsValid : (m : Main) (sent : Bool) (a : App) → IsValid a → IsValid (main_by m sent a)
unfolding main_step
main_by-IsValid Main.starting sent a h = record {
  at = λ t. ground (arith, h.at t);
  follows = ground (arith, h.follows);
}
main_by-IsValid (Main.disconnecting cid) sent a h = record {
  at = λ t. ground (arith, h.at t);
  follows = ground (arith, h.follows, replay-append a.log (response_shutdown cid));
}
main_by-IsValid _ sent a h = record {
  at = λ t. ground (arith, h.at t);
  follows = ground (arith, h.follows, replay-append a.log registered);
}

step-IsValid : (e : Event) (a : App) → IsValid a → IsValid (step e a)
unfolding step
step-IsValid (starts seq_id params deadline) a h = start_sequence-IsValid seq_id params deadline a h
step-IsValid (shuts_down cid) a h = handle_shutdown-IsValid cid a h
step-IsValid (thread_runs sent t) a h = thread_step-IsValid sent t a h
step-IsValid (main_runs sent) a h = main_by-IsValid a.main sent a h
step-IsValid _ a h = record {
  at = λ t. ground (arith, h.at t);
  follows = ground (arith, h.follows);
}

run-IsValid : (events : List Event) (a : App) → IsValid a → IsValid (run events a)
run-IsValid [] a h = h
run-IsValid (e ∷ events) a h = run-IsValid events (step e a) (step-IsValid e a h)

-- Whatever the controller, the user and the scheduler do, and whichever remote calls fail: in the
-- order in which they happen, the starts of sequence threads and the calls of sequence_done alternate
-- (a thread is started only when the call for the one before is over, and each such call names the
-- sequence that was started last), and the view that they leave is the app's own. When the reply to a
-- start request reaches the controller is not stated.
pub run_follows_protocol :
    (events : List Event) → replay (run events init).log ≡ some (view (run events init))
run_follows_protocol events = (run-IsValid events init init-IsValid).follows

-- In every reachable state at most one sequence thread is in its handler function or between that
-- and its callback, and it is the one in `seq_handler`.
pub one_active_sequence :
    (events : List Event) (t u : ℕ)
    → is_active ((run events init).threads t).phase ≡ true
    → is_active ((run events init).threads u).phase ≡ true
    → (t ≡ u) × ((run events init).seq_handler ≡ some t)
one_active_sequence events t u p q =
    let h = run-IsValid events init init-IsValid in ground (arith, (h.at t).runs, (h.at u).runs)
