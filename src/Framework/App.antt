-- ===== src/Framework/App.antt =====
-- `class PayloadApplication` with the `SequenceHandler` threads that it starts. One event is one
-- step of one thread: a remote call from the controller, a step of the main thread in `run`, or a
-- step of a sequence thread. What stands under `with self.lock` is one step, but for the callback of
-- a sequence, whose remote call is a second step that still holds the lock: the main thread reads
-- `seq_handler` without the lock. A call that finds the lock held waits, and nothing changes. A log
-- keeps the start of each sequence thread, which is under the lock, and what the app sends of itself.
-- The reply to a call of the controller is the value that its handler returns: it goes out behind
-- the lock, at any later time, and is not in the log.
pub mod Protocol
pub mod Shutdown
pub mod Races
mod Tests
use sat_os_payload_sdk.Prelude.{
  update, ℕ, suc, String, Bool, true, false, ◌&&◌, List, [], ◌∷◌, ◌++◌, Option, none, some, ◌==◌,
  leb, is_some, str_eq, if◌then◌else◌, ℤ, pos, negsuc,
}
use sat_os_payload_sdk.Exec.{Error, Result, ok, raised}
use sat_os_payload_sdk.Framework.Stoppable.{Stoppable, fresh, request_stop, mark_stopped}

-- AntarisReturnCode.An_SUCCESS and An_GENERIC_FAILURE
abbrev pub an_success : ℤ
an_success = pos 0

abbrev pub an_generic_failure : ℤ
an_generic_failure = negsuc 0

-- Where a thread is in `SequenceHandler.run`: in the handler function; behind it (it returned, or
-- its exception was logged); in the callback, before its remote call; behind the callback; behind
-- `self.stopped()`. If the remote call raises, the thread dies in the callback. A thread that was
-- never created is `unborn`.
pub data Phase : Type 0 where
  unborn running handled clearing called_back finished died : Phase

pub record Thread : Type 0 where
  pub seq_id : String
  pub seq_params : String
  pub seq_deadline : ℕ
  -- which of the functions that were mounted runs
  pub handler_func : ℕ
  pub phase : Phase
  pub stoppable : Stoppable

-- Where the main thread is in `PayloadApplication.run`: before the channel is created; before the
-- registration; in `wait_until_stop_requested`; in `_shutdown` before the lock, before the test of
-- `seq_handler`, before its use, waiting for a thread, before `_disconnect`; in `_disconnect` behind
-- the answer, deleting the channel; at the end. An exception out of `_connect` or out of the answer
-- ends the thread (`failed`), and so does one out of the deletion (`unclosed`).
pub data Main : Type 0 where
  starting registering waiting shutting_down : Main
  checking using disconnecting : Option ℕ → Main
  waiting_for : ℕ → Option ℕ → Main
  closing unclosed complete failed : Main

-- `started` is the start of a sequence thread; the others are calls to the controller, and
-- `undelivered` is a notification that failed.
pub data Message : Type 0 where
  registered : Message
  started sequence_done undelivered : String → Message
  response_shutdown : Option ℕ → Message

-- `lock` names the sequence thread that holds the lock between two steps.
pub record App : Type 0 where
  pub stoppable : Stoppable
  pub sequence_handler_func_idx : String → Option ℕ
  pub lock : Option ℕ
  pub seq_handler : Option ℕ
  pub threads : ℕ → Thread
  pub next_thread : ℕ
  pub shutdown_correlation_id : Option ℕ
  pub main : Main
  pub log : List Message

abbrev pub mount : (String → Option ℕ) → String → ℕ → String → Option ℕ
mount d k v j = if str_eq j k then some v else d j

abbrev no_thread : Thread
no_thread = record {
  seq_id = "";
  seq_params = "";
  seq_deadline = 0;
  handler_func = 0;
  phase = unborn;
  stoppable = fresh;
}

-- `PayloadApplication.__init__`
abbrev pub init : App
init = record {
  stoppable = fresh;
  sequence_handler_func_idx = λ _. none;
  lock = none;
  seq_handler = none;
  threads = λ _. no_thread;
  next_thread = 0;
  shutdown_correlation_id = none;
  main = starting;
  log = [];
}

abbrev pub say : Message → App → App
say m a = record a { log = a.log ++ m ∷ [] }

unfoldable pub mount_sequence : String → ℕ → App → App
mount_sequence seq_id f a = record a {
  sequence_handler_func_idx = mount a.sequence_handler_func_idx seq_id f;
}

-- The locked part of `start_sequence`; the handler function was found before.
start_locked : String → String → ℕ → ℕ → App → App × ℤ
start_locked seq_id params deadline f a =
    if is_some a.seq_handler then (a, an_generic_failure) else (
      say (started seq_id) (record a {
        seq_handler = some a.next_thread;
        threads = update a.threads a.next_thread (record {
          seq_id = seq_id;
          seq_params = params;
          seq_deadline = deadline;
          handler_func = f;
          phase = running;
          stoppable = fresh;
        });
        next_thread = suc a.next_thread;
      }),
      an_success,
    )

-- `none` while the call waits for the lock.
pub start_sequence : String → String → ℕ → App → App × Option ℤ
unfolding start_locked
start_sequence seq_id params deadline a = elim (a.sequence_handler_func_idx seq_id) [
  | none ↦ (a, some an_generic_failure)
  | some f ↦
      if is_some a.lock
      then (a, none)
      else (let (a', code) = start_locked seq_id params deadline f a in (a', some code))
]

pub handle_shutdown : ℕ → App → App × Option ℤ
unfolding request_stop
handle_shutdown cid a = if is_some a.lock then (a, none) else (
  record a { shutdown_correlation_id = some cid; stoppable = request_stop a.stoppable },
  some an_success,
)

-- `_handle_health_check`, by how the installed function ended.
pub handle_health_check : Result Bool → ℤ
handle_health_check (ok hv) = if hv then an_success else an_generic_failure
handle_health_check (raised e) = an_generic_failure

-- `SequenceHandler.deadline_reached` at a time
pub deadline_reached : ℕ → Thread → Bool
deadline_reached now t = leb t.seq_deadline now

abbrev set_phase : Phase → ℕ → App → App
set_phase p t a = record a { threads = update a.threads t (record (a.threads t) { phase = p }) }

-- The callback of thread `t` takes the lock and clears `seq_handler`.
clear_handler : ℕ → App → App
clear_handler t a =
    if is_some a.lock
    then a
    else set_phase clearing t (record a { lock = some t; seq_handler = none })

-- Then it sends the notification; a remote call that raises ends the thread. The lock is given up.
notify : Bool → ℕ → App → App
notify sent t a =
    let freed = record a { lock = none } in
    if sent
    then set_phase called_back t (say (sequence_done (a.threads t).seq_id) freed)
    else set_phase died t (say (undelivered (a.threads t).seq_id) freed)

-- The next step of thread `t` in `SequenceHandler.run`; `sent` says whether a remote call goes
-- through.
thread_by : Phase → Bool → ℕ → App → App
thread_by running sent t a = set_phase handled t a
thread_by handled sent t a = clear_handler t a
thread_by clearing sent t a = notify sent t a
thread_by called_back sent t a = record a {
  threads =
      update a.threads t (record (a.threads t) {
        phase = finished;
        stoppable = mark_stopped (a.threads t).stoppable;
      });
}
thread_by _ sent t a = a

pub thread_step : Bool → ℕ → App → App
unfolding thread_by clear_handler notify mark_stopped
thread_step sent t a = thread_by (a.threads t).phase sent t a

-- `self.seq_handler.request_stop()`, if there is one.
stop_handler : Option ℕ → (ℕ → Thread) → ℕ → Thread
stop_handler none threads = threads
stop_handler (some t) threads =
    update threads t (record (threads t) { stoppable = request_stop (threads t).stoppable })

-- The next step of the main thread in `run`; `sent` says whether its call of the client returns. A
-- wait that is not over does nothing.
main_by : Main → Bool → App → App
main_by starting sent a = record a { main = if sent then registering else failed }
main_by registering sent a =
    if sent then say registered (record a { main = waiting }) else record a { main = failed }
main_by waiting sent a = if a.stoppable.stop_requested then record a { main = shutting_down } else a
main_by shutting_down sent a = if is_some a.lock then a else record a {
  threads = stop_handler a.seq_handler a.threads;
  main = checking a.shutdown_correlation_id;
}
main_by (checking cid) sent a = record a {
  main = if is_some a.seq_handler then using cid else disconnecting cid;
}
main_by (using cid) sent a = record a {
  -- the AttributeError on None is caught and logged
  main = elim a.seq_handler [ none ↦ disconnecting cid | some t ↦ waiting_for t cid ];
}
main_by (waiting_for t cid) sent a =
    if (a.threads t).stoppable.stopped then record a { main = disconnecting cid } else a
main_by (disconnecting cid) sent a =
    if sent
    then say (response_shutdown cid) (record a { main = closing })
    else record a { main = failed }
main_by closing sent a =
    if sent
    then record a { main = complete; stoppable = mark_stopped a.stoppable }
    else record a { main = unclosed }
main_by complete sent a = a
main_by unclosed sent a = a
main_by failed sent a = a

pub main_step : Bool → App → App
unfolding main_by stop_handler request_stop mark_stopped
main_step sent a = main_by a.main sent a

-- What the scheduler, the controller and the user may do next.
pub data Event : Type 0 where
  mounts : String → ℕ → Event
  starts : String → String → ℕ → Event
  shuts_down : ℕ → Event
  asks_to_stop : Event
  thread_runs : Bool → ℕ → Event
  main_runs : Bool → Event

pub step : Event → App → App
unfolding mount_sequence start_sequence handle_shutdown thread_step main_step request_stop
step (mounts seq_id f) a = mount_sequence seq_id f a
step (starts seq_id params deadline) a = (start_sequence seq_id params deadline a).0
step (shuts_down cid) a = (handle_shutdown cid a).0
step asks_to_stop a = record a { stoppable = request_stop a.stoppable }
step (thread_runs sent t) a = thread_step sent t a
step (main_runs sent) a = main_step sent a

abbrev pub run : List Event → App → App
run [] a = a
run (e ∷ events) a = run events (step e a)
