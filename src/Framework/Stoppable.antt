-- ===== src/Framework/Stoppable.antt =====
-- `class Stoppable`. Each flag has a condition whose lock makes a read or a write of it one step.
-- A wait gives the lock up, so other threads act while it lasts: what they do is a list of events.
use sat_os_payload_sdk.Prelude.{
  ◌≡◌, refl, Bool, true, false, ◌||◌, List, [], ◌∷◌, if◌then◌else◌, arith,
}

pub record Stoppable : Type 0 where
  pub stop_requested : Bool
  pub stopped : Bool

-- `Stoppable.__init__`
abbrev pub fresh : Stoppable
fresh = record { stop_requested = false; stopped = false }

unfoldable pub request_stop : Stoppable → Stoppable
request_stop s = record s { stop_requested = true }

unfoldable pub mark_stopped : Stoppable → Stoppable
mark_stopped s = record s { stopped = true }

-- A call of `request_stop` or of `stopped` by another thread, and the end of the timeout.
pub data Event : Type 0 where
  requests_stop reports_stopped timeout : Event

abbrev pub act : Event → Stoppable → Stoppable
act requests_stop s = request_stop s
act reports_stopped s = mark_stopped s
act timeout s = s

-- `cond.wait(timeout)`: True at the first notification of the condition, False at the timeout. A
-- list that ends before either stands for a wait that is still going on.
pub data Waiting : Type 0 where
  woken timed_out blocked : Stoppable → Waiting

wait_stop_requested : List Event → Stoppable → Waiting
wait_stop_requested [] s = blocked s
wait_stop_requested (requests_stop ∷ events) s = woken (request_stop s)
wait_stop_requested (timeout ∷ events) s = timed_out s
wait_stop_requested (reports_stopped ∷ events) s = wait_stop_requested events (mark_stopped s)

wait_stopped : List Event → Stoppable → Waiting
wait_stopped [] s = blocked s
wait_stopped (reports_stopped ∷ events) s = woken (mark_stopped s)
wait_stopped (timeout ∷ events) s = timed_out s
wait_stopped (requests_stop ∷ events) s = wait_stopped events (request_stop s)

unfoldable pub wait_until_stop_requested : List Event → Stoppable → Waiting
unfolding wait_stop_requested request_stop mark_stopped
wait_until_stop_requested events s =
    if s.stop_requested then woken s else wait_stop_requested events s

unfoldable pub wait_until_stopped : List Event → Stoppable → Waiting
unfolding wait_stopped request_stop mark_stopped
wait_until_stopped events s = if s.stopped then woken s else wait_stopped events s

-- Whether an event of the list comes before the first timeout.
abbrev pub in_time : (Event → Bool) → List Event → Bool
in_time wanted [] = false
in_time wanted (timeout ∷ events) = false
in_time wanted (e ∷ events) = wanted e || in_time wanted events

abbrev pub is_request : Event → Bool
is_request requests_stop = true
is_request _ = false

abbrev pub is_report : Event → Bool
is_report reports_stopped = true
is_report _ = false

abbrev pub is_woken : Waiting → Bool
is_woken (woken s) = true
is_woken _ = false

abbrev pub after : Waiting → Stoppable
after (woken s) = s
after (timed_out s) = s
after (blocked s) = s

wait_stop_requested_iff :
    (events : List Event) (s : Stoppable)
    → is_woken (wait_stop_requested events s) ≡ in_time is_request events
unfolding wait_stop_requested
wait_stop_requested_iff [] s = refl
wait_stop_requested_iff (requests_stop ∷ events) s = refl
wait_stop_requested_iff (timeout ∷ events) s = refl
wait_stop_requested_iff (reports_stopped ∷ events) s = wait_stop_requested_iff events _

wait_stopped_iff :
    (events : List Event) (s : Stoppable)
    → is_woken (wait_stopped events s) ≡ in_time is_report events
unfolding wait_stopped
wait_stopped_iff [] s = refl
wait_stopped_iff (reports_stopped ∷ events) s = refl
wait_stopped_iff (timeout ∷ events) s = refl
wait_stopped_iff (requests_stop ∷ events) s = wait_stopped_iff events _

-- A wait for a flag succeeds exactly if the flag was set before or its notification comes before
-- the timeout; the notification of the other flag wakes nobody.
pub waits_iff :
    (events : List Event) (s : Stoppable)
    → (is_woken (wait_until_stop_requested events s)
        ≡ s.stop_requested || in_time is_request events)
      × (is_woken (wait_until_stopped events s) ≡ s.stopped || in_time is_report events)
unfolding wait_until_stop_requested wait_until_stopped
waits_iff events s = ground (arith, wait_stop_requested_iff events s, wait_stopped_iff events s)

wait_stopped-flag :
    (events : List Event) (s : Stoppable)
    → is_woken (wait_stopped events s) ≡ true
    → (after (wait_stopped events s)).stopped ≡ true
unfolding wait_stopped mark_stopped
wait_stopped-flag [] s h = ground arith
wait_stopped-flag (reports_stopped ∷ events) s h = refl
wait_stopped-flag (timeout ∷ events) s h = ground arith
wait_stopped-flag (requests_stop ∷ events) s h = wait_stopped-flag events _ h

-- A wait for `stopped` that succeeds leaves the flag set.
pub wait_until_stopped-flag :
    (events : List Event) (s : Stoppable)
    → is_woken (wait_until_stopped events s) ≡ true
    → (after (wait_until_stopped events s)).stopped ≡ true
unfolding wait_until_stopped
wait_until_stopped-flag events s h = ground (arith, wait_stopped-flag events s)
