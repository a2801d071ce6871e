-- ===== src/Framework/Requests.antt =====
-- `class ChannelClient`: requests whose response comes back on another thread. `_cond` guards the
-- dictionary `_responses`; each entry has a condition of its own, which the requester acquires
-- before it gives `_cond` up, and in which it waits. One event is one step of one thread between two
-- points where it may have to wait for a lock. Steps that hold `_cond` from end to end are one step.
-- `payload_power_control` takes no lock: its `self._next_cid += 1` is a read and a write.
pub mod Answers
pub mod Deadlock
pub mod Counter
pub mod Staging
mod Tests
use sat_os_payload_sdk.Prelude.{
  update, ℕ, suc, String, Bool, true, false, Option, none, some, List, [], ◌∷◌, ◌==◌, is_some,
  if◌then◌else◌, str_eq, not,
}
use sat_os_payload_sdk.Client.Calls.{Value, is_failure}
use sat_os_payload_sdk.Exec.{Result, ok, raised}

-- The params of a response callback.
pub record Response : Type 0 where
  pub correlation_id : ℕ
  pub payload : String

-- `[resp_cond, value]` in `_responses`: whether a thread holds `resp_cond`, whether it has been
-- notified since the requester began to wait, and the value.
pub record Slot : Type 0 where
  pub held : Bool
  pub notified : Bool
  pub value : Option Response

-- A thread in `get_current_location` or `stage_file_download`: before the lock; registered, with
-- `resp_cond` held; in `resp_cond.wait()`; woken, with `resp_cond` held again, before `_cond`; and the
-- ends: the call failed, raised, or gave a value back.
pub data Asking : Type 0 where
  idle refused escaped : Asking
  registered waiting woken : ℕ → Asking
  returned : ℕ → Option Response → Asking

-- A thread in `_handle_response`: before `_cond`; holding `_cond`, before `resp_cond`; at the end.
pub data Answering : Type 0 where
  before over : Answering
  holding : Response → Answering

-- `cond` names the response thread that holds `_cond` between two steps.
pub record Client : Type 0 where
  pub cond : Option ℕ
  pub next_cid : ℕ
  pub responses : ℕ → Option Slot
  pub asking : ℕ → Asking
  pub answering : ℕ → Answering
  -- what each thread in `payload_power_control` has read of the counter
  pub read : ℕ → ℕ

-- `ChannelClient.__init__`
abbrev pub init : Client
init = record {
  cond = none;
  next_cid = 0;
  responses = λ _. none;
  asking = λ _. idle;
  answering = λ _. before;
  read = λ _. 0;
}

abbrev set_asking : ℕ → Asking → Client → Client
set_asking r p s = record s { asking = update s.asking r p }

-- `self._get_next_cid()`
pub get_next_cid : Client → Client × ℕ
get_next_cid s = (record s { next_cid = suc s.next_cid }, suc s.next_cid)

abbrev new_slot : Slot
new_slot = record { held = true; notified = false; value = none }

-- The first `with self._cond:`, by how the call of the API function ended.
register : Result Value → ℕ → Client → Client
unfolding get_next_cid
register (raised e) r s = let (s', cid) = get_next_cid s in set_asking r escaped s'
register (ok v) r s =
    let (s', cid) = get_next_cid s in
    if is_failure v then set_asking r refused s' else record s' {
      responses = update s.responses cid (some new_slot);
      asking = update s.asking r (registered cid);
    }

start_waiting : ℕ → ℕ → Client → Client
start_waiting r cid s = elim (s.responses cid) [
  | none ↦ s
  | some slot ↦ record s {
    responses = update s.responses cid (some (record slot { held = false }));
    asking = update s.asking r (waiting cid);
  }
]

wake_up : ℕ → ℕ → Client → Client
wake_up r cid s = elim (s.responses cid) [
  | none ↦ s
  | some slot ↦
      if slot.held
      then s
      else if slot.notified
      then record s {
        responses = update s.responses cid (some (record slot { held = true }));
        asking = update s.asking r (woken cid);
      }
      else s
]

-- The second `with self._cond:`; `resp_cond` stays held.
collect : ℕ → ℕ → Client → Client
collect r cid s = elim (s.responses cid) [
  | none ↦ s
  | some slot ↦ record s {
    responses = update s.responses cid none;
    asking = update s.asking r (returned cid slot.value);
  }
]

ask_by : Asking → Result Value → ℕ → Client → Client
unfolding register start_waiting wake_up collect
ask_by idle outcome r s = if is_some s.cond then s else register outcome r s
ask_by (registered cid) outcome r s = start_waiting r cid s
ask_by (waiting cid) outcome r s = wake_up r cid s
ask_by (woken cid) outcome r s = if is_some s.cond then s else collect r cid s
ask_by _ outcome r s = s

-- The next step of requester `r`.
pub ask : Result Value → ℕ → Client → Client
unfolding ask_by
ask outcome r s = ask_by (s.asking r) outcome r s

-- `_handle_response(params)` up to `with resp_cond`.
arrive : Response → ℕ → Client → Client
arrive v h s =
    if is_some s.cond
    then s
    else if is_some (s.responses v.correlation_id)
    then record s { cond = some h; answering = update s.answering h (holding v) }
    else record s { answering = update s.answering h over }

deliver : Response → ℕ → Client → Client
deliver v h s = elim (s.responses v.correlation_id) [
  | none ↦ s
  | some slot ↦ if slot.held then s else record s {
    cond = none;
    responses =
        update s.responses v.correlation_id
          (some (record slot { notified = true; value = some v }));
    answering = update s.answering h over;
  }
]

answer_by : Answering → Response → ℕ → Client → Client
unfolding arrive deliver
answer_by before v h s = arrive v h s
answer_by (holding w) v h s = deliver w h s
answer_by over v h s = s

-- The next step of response thread `h`, which was called with `v`.
pub answer : Response → ℕ → Client → Client
unfolding answer_by
answer v h s = answer_by (s.answering h) v h s

-- What the scheduler may do next: a step of a requester, of a response thread, or of the count in
-- `payload_power_control`, the read or the write.
pub data Event : Type 0 where
  asks : Result Value → ℕ → Event
  answers : Response → ℕ → Event
  reads writes : ℕ → Event

-- Whether an event is a step of the unlocked count, which `payload_power_control` comes to only if the
-- keepalive flag is not '1'.
abbrev pub is_unlocked : String → Event → Bool
is_unlocked keepalive (asks outcome r) = false
is_unlocked keepalive (answers v h) = false
is_unlocked keepalive _ = not (str_eq keepalive "1")

module _ (keepalive : String) where
  pub step : Event → Client → Client
  unfolding ask answer
  step (asks outcome r) s = ask outcome r s
  step (answers v h) s = answer v h s
  step (reads p) s =
      if str_eq keepalive "1" then s else record s { read = update s.read p s.next_cid }
  step (writes p) s = if str_eq keepalive "1" then s else record s { next_cid = suc (s.read p) }

  abbrev pub run : List Event → Client → Client
  run [] s = s
  run (e ∷ events) s = run events (step e s)
