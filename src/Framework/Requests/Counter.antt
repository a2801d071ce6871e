-- ===== src/Framework/Requests/Counter.antt =====
-- `_get_next_cid` and its callers: `get_current_location` and `stage_file_download` hold `_cond`, and
-- `payload_power_control` does not, so its `self._next_cid += 1` is a read and a write.
use sat_os_payload_sdk.Prelude.{
  update, ==_refl, ℕ, suc, ◌≡◌, String, List, [], ◌∷◌, ◌++◌, Option, str_eq, if◌then◌else◌, ℤ, pos,
  append_assoc,
}
use sat_os_payload_sdk.Exec.{ok, Exec}
use sat_os_payload_sdk.Client.Upload.{Config}
use sat_os_payload_sdk.Client.Calls.{Controller, Value, code, Wire, api_pa_pc_payload_power_control}

-- The counter, what each thread in `payload_power_control` has read of it, and the ids that were
-- given out, the latest last.
pub record Counter : Type 0 where
  pub next_cid : ℕ
  pub read : ℕ → ℕ
  pub given : List ℕ

-- A locked call takes its id in one step; an unlocked one reads, writes, and reads the result.
pub data Event : Type 0 where
  takes : Event
  reads writes returns : ℕ → Event

pub step : Event → Counter → Counter
step takes s = record s { next_cid = suc s.next_cid; given = s.given ++ suc s.next_cid ∷ [] }
step (reads p) s = record s { read = update s.read p s.next_cid }
step (writes p) s = record s { next_cid = suc (s.read p) }
step (returns p) s = record s { given = s.given ++ s.next_cid ∷ [] }

abbrev pub run : List Event → Counter → Counter
run [] s = s
run (e ∷ events) s = run events (step e s)

-- The locked calls alone: the ids go up by one.
abbrev pub count_up : ℕ → ℕ → List ℕ
count_up n ℕ.zero = []
count_up n (suc k) = suc n ∷ count_up (suc n) k

-- If a power control reads the counter, two locked requests take their ids, and then the power
-- control writes, it takes the first of those ids again, and the next locked request the second.
pub unlocked_ids_repeat :
    (s : Counter) (p : ℕ)
    → let n = s.next_cid in
      (run (reads p ∷ takes ∷ takes ∷ writes p ∷ returns p ∷ takes ∷ []) s).given
      ≡ s.given ++ suc n ∷ suc (suc n) ∷ suc n ∷ suc (suc n) ∷ []
unfolding step
unlocked_ids_repeat s p = simp (==_refl, append_assoc)

-- `payload_power_control`: with the keepalive flag '1' it reports success and calls nothing.
unfoldable pub payload_power_control : Controller → String → Option Config → ℤ → ℤ → Exec Wire Value
unfolding api_pa_pc_payload_power_control
payload_power_control controller keepalive config cid power wire =
    if str_eq keepalive "1"
    then (ok (code (pos 0)), wire)
    else api_pa_pc_payload_power_control controller config cid power wire
