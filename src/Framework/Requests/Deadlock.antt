-- ===== src/Framework/Requests/Deadlock.antt =====
-- A response brings its requester back; a second response with the same id can stop them all.
use sat_os_payload_sdk.Prelude.{ℕ, ◌≡◌, none, some, List, [], ◌∷◌, arith, String}
use sat_os_payload_sdk.Exec.{Result}
use sat_os_payload_sdk.Client.Calls.{Value}
use sat_os_payload_sdk.Framework.Requests.Answers.{
  IsValid, IsLocked, init-IsValid, step-IsValid, run-IsValid,
}
use sat_os_payload_sdk.Framework.Requests.{
  Response, Slot, registered, woken, returned, before, holding, Client, init, Event, asks, answers,
  step, run,
}

-- A requester that has just registered, with `_cond` free: if it begins to wait, a response with its
-- id comes on a thread of its own, and no other thread gets between, then it returns that response;
-- its entry is gone and `_cond` is free.
pub response_completes_request :
    (keepalive : String) (s : Client) (r h c : ℕ) (v : Response) (outcome : Result Value)
    (slot : Slot)
    → s.asking r ≡ registered c
    → s.answering h ≡ before
    → s.cond ≡ none
    → s.responses c ≡ some slot
    → v.correlation_id ≡ c
    → let s' =
        run keepalive
          (asks outcome r ∷ answers v h ∷ answers v h ∷ asks outcome r ∷ asks outcome r ∷ [])
          s in
      (s'.asking r ≡ returned c (some v)) × (s'.responses c ≡ none) × (s'.cond ≡ none)
unfolding step
response_completes_request keepalive s r h c v outcome slot e f free there same = ground arith

-- A requester that is woken and wants `_cond` while a response thread with its id holds it.
pub record IsDeadlocked (s : Client) (r h c : ℕ) (v : Response) : Type 0 where
  pub valid : IsValid s
  pub asking : s.asking r ≡ woken c
  pub answering : s.answering h ≡ holding v
  pub same : v.correlation_id ≡ c

step-asking :
    (keepalive : String) (e : Event) (s : Client) (r h c : ℕ) (v : Response)
    → IsDeadlocked s r h c v
    → (step keepalive e s).asking r ≡ woken c
unfolding step
step-asking keepalive (asks outcome q) s r h c v d =
    ground (arith, d.asking, d.answering, d.valid.kept h v)
step-asking keepalive (answers w k) s r h c v d = ground (arith, d.asking)
step-asking keepalive _ s r h c v d = ground (arith, d.asking)

step-answering :
    (keepalive : String) (e : Event) (s : Client) (r h c : ℕ) (v : Response)
    → IsDeadlocked s r h c v
    → (step keepalive e s).answering h ≡ holding v
unfolding step
step-answering keepalive (asks outcome q) s r h c v d = ground (arith, d.answering)
step-answering keepalive (answers w k) s r h c v d =
    ground
      (arith, d.asking, d.answering, d.same, d.valid.kept h v, d.valid.kept k, d.valid.tight r c)
step-answering keepalive _ s r h c v d = ground (arith, d.answering)

run-IsDeadlocked :
    (keepalive : String) (events : List Event) (s : Client) (r h c : ℕ) (v : Response)
    → IsLocked keepalive events
    → IsDeadlocked s r h c v
    → IsDeadlocked (run keepalive events s) r h c v
run-IsDeadlocked keepalive [] s r h c v l d = d
run-IsDeadlocked keepalive (e ∷ events) s r h c v l d =
    run-IsDeadlocked keepalive events (step keepalive e s) r h c v l.1 (record {
      valid = step-IsValid keepalive e s l.0 d.valid;
      asking = step-asking keepalive e s r h c v d;
      answering = step-answering keepalive e s r h c v d;
      same = d.same;
    })

-- In a schedule in which the keepalive flag is '1' or payload_power_control never counts: once a second response with the id of a woken requester holds `_cond`, neither thread ever takes
-- another step, whatever the others do; and `_cond` stays taken, so no request and no response of
-- any other thread gets past it.
pub second_response_deadlocks :
    (keepalive : String) (earlier later : List Event) (r h c : ℕ) (v : Response)
    → IsLocked keepalive earlier
    → IsLocked keepalive later
    → (run keepalive earlier init).asking r ≡ woken c
    → (run keepalive earlier init).answering h ≡ holding v
    → v.correlation_id ≡ c
    → let s = run keepalive later (run keepalive earlier init) in
      (s.asking r ≡ woken c) × (s.answering h ≡ holding v) × (s.cond ≡ some h)
second_response_deadlocks keepalive earlier later r h c v le ll a b same =
    let d = run-IsDeadlocked keepalive later (run keepalive earlier init) r h c v ll (record {
      valid = run-IsValid keepalive earlier init le init-IsValid;
      asking = a;
      answering = b;
      same = same;
    }) in
    (d.asking, d.answering, (d.valid.kept h v d.answering).0)
