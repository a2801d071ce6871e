-- ===== src/Framework/Requests/Answers.antt =====
-- A requester that gets a value gets the response with its own correlation id.
use sat_os_payload_sdk.Prelude.{
  ℕ, ◌≤◌, ◌<◌, ◌≡◌, ◌⊎◌, refl, Bool, true, false, Option, none, some, List, [], ◌∷◌, arith, ◌==◌,
  is_some, String, All,
}
use sat_os_payload_sdk.Exec.{Result}
use sat_os_payload_sdk.Client.Calls.{Value}
use sat_os_payload_sdk.Framework.Requests.{
  Response, Slot, Asking, idle, registered, waiting, woken, returned, Answering, before, over,
  holding, Client, init, ask_by, answer_by, Event, asks, answers, reads, writes, is_unlocked, step,
  run,
}

-- The correlation id under which a requester is in the dictionary.
abbrev pub flight : Asking → Option ℕ
flight (registered c) = some c
flight (waiting c) = some c
flight (woken c) = some c
flight _ = none

-- The correlation id that a requester has used.
abbrev pub used : Asking → Option ℕ
used (registered c) = some c
used (waiting c) = some c
used (woken c) = some c
used (returned c o) = some c
used _ = none

abbrev pub Matches : ℕ → Option Response → Type 0
Matches c none = ⊥
Matches c (some v) = v.correlation_id ≡ c

-- What an entry holds under the id `c`.
abbrev pub SlotFits : ℕ → Option Slot → Type 0
SlotFits c none = Unit
SlotFits c (some slot) = ((slot.notified ≡ false) ⊎ Matches c slot.value)

abbrev pub is_notified : Option Slot → Bool
is_notified none = false
is_notified (some slot) = slot.notified

abbrev pub is_held : Option Slot → Bool
is_held none = false
is_held (some slot) = slot.held

abbrev pub is_woken : ℕ → Asking → Bool
is_woken c (woken d) = c == d
is_woken c _ = false

pub record IsValid (s : Client) : Type 0 where
  pub flying : (r c : ℕ) → flight (s.asking r) ≡ some c → is_some (s.responses c) ≡ true
  pub bounded : (r c : ℕ) → used (s.asking r) ≡ some c → c ≤ s.next_cid
  pub alone : (r q c : ℕ) → used (s.asking r) ≡ some c → used (s.asking q) ≡ some c → r ≡ q
  pub fits : (c : ℕ) → SlotFits c (s.responses c)
  pub known : (c : ℕ) → s.next_cid < c → s.responses c ≡ none
  pub awake : (r c : ℕ) → is_woken c (s.asking r) ≡ true → is_notified (s.responses c) ≡ true
  pub tight : (r c : ℕ) → is_woken c (s.asking r) ≡ true → is_held (s.responses c) ≡ true
  pub kept :
      (h : ℕ) (v : Response)
      → s.answering h ≡ holding v
      → (s.cond ≡ some h) × (is_some (s.responses v.correlation_id) ≡ true)
  pub matched : (r c : ℕ) (o : Option Response) → s.asking r ≡ returned c o → Matches c o

ask_by-IsValid :
    (p : Asking) (outcome : Result Value) (r : ℕ) (s : Client)
    → s.asking r ≡ p
    → IsValid s
    → IsValid (ask_by p outcome r s)
unfolding ask_by
ask_by-IsValid idle outcome r s e h = record {
  flying = λ q c. ground (arith, e, h.flying q c);
  bounded = λ q c. ground (arith, e, h.bounded q c);
  alone = λ q k c. ground (arith, e, h.alone q k c, h.bounded q c, h.bounded k c);
  fits = λ c. ground (arith, h.fits c);
  known = λ c. ground (arith, h.known c);
  awake = λ q c. ground (arith, e, h.awake q c, h.flying q c, h.known c, h.bounded q c);
  tight = λ q c. ground (arith, e, h.tight q c, h.flying q c, h.known c, h.bounded q c);
  kept = λ k v. ground (arith, h.kept k v);
  matched = λ q c o. ground (arith, e, h.matched q c o);
}
ask_by-IsValid (registered cid) outcome r s e h = record {
  flying = λ q c. ground (arith, e, h.flying q c);
  bounded = λ q c. ground (arith, e, h.bounded q c, h.bounded r cid);
  alone = λ q k c. ground (arith, e, h.alone q k c);
  fits = λ c. ground (arith, h.fits c);
  known = λ c. ground (arith, h.known c);
  awake = λ q c. ground (arith, e, h.awake q c);
  tight = λ q c. ground (arith, e, h.tight q c, h.alone q r c);
  kept = λ k v. ground (arith, h.kept k v);
  matched = λ q c o. ground (arith, e, h.matched q c o);
}
ask_by-IsValid (waiting cid) outcome r s e h = record {
  flying = λ q c. ground (arith, e, h.flying q c);
  bounded = λ q c. ground (arith, e, h.bounded q c, h.bounded r cid);
  alone = λ q k c. ground (arith, e, h.alone q k c);
  fits = λ c. ground (arith, h.fits c);
  known = λ c. ground (arith, h.known c);
  awake = λ q c. ground (arith, e, h.awake q c);
  tight = λ q c. ground (arith, e, h.tight q c);
  kept = λ k v. ground (arith, h.kept k v);
  matched = λ q c o. ground (arith, e, h.matched q c o);
}
ask_by-IsValid (woken cid) outcome r s e h = record {
  flying = λ q c. ground (arith, e, h.flying q c, h.alone q r c);
  bounded = λ q c. ground (arith, e, h.bounded q c, h.bounded r cid);
  alone = λ q k c. ground (arith, e, h.alone q k c);
  fits = λ c. ground (arith, h.fits c);
  known = λ c. ground (arith, h.known c);
  awake = λ q c. ground (arith, e, h.awake q c, h.alone q r c);
  tight = λ q c. ground (arith, e, h.tight q c, h.alone q r c);
  kept = λ k v. ground (arith, h.kept k v);
  matched = λ q c o. ground (arith, e, h.matched q c o, h.awake r cid, h.fits cid);
}
ask_by-IsValid _ outcome r s e h = h

answer_by-IsValid :
    (p : Answering) (v : Response) (k : ℕ) (s : Client)
    → s.answering k ≡ p
    → IsValid s
    → IsValid (answer_by p v k s)
unfolding answer_by
answer_by-IsValid before v k s e h = record {
  flying = λ q c. ground (arith, h.flying q c);
  bounded = λ q c. ground (arith, h.bounded q c);
  alone = λ q j c. ground (arith, h.alone q j c);
  fits = λ c. ground (arith, h.fits c);
  known = λ c. ground (arith, h.known c);
  awake = λ q c. ground (arith, h.awake q c);
  tight = λ q c. ground (arith, h.tight q c);
  kept = λ j w. ground (arith, e, h.kept j w);
  matched = λ q c o. ground (arith, h.matched q c o);
}
answer_by-IsValid (holding w) v k s e h = record {
  flying = λ q c. ground (arith, h.flying q c);
  bounded = λ q c. ground (arith, h.bounded q c);
  alone = λ q j c. ground (arith, h.alone q j c);
  fits = λ c. ground (arith, h.fits c);
  known = λ c. ground (arith, h.known c);
  awake = λ q c. ground (arith, h.awake q c);
  tight = λ q c. ground (arith, h.tight q c);
  kept = λ j x. ground (arith, e, h.kept j x, h.kept k w);
  matched = λ q c o. ground (arith, h.matched q c o);
}
answer_by-IsValid over v k s e h = h

pub step-IsValid :
    (keepalive : String) (e : Event) (s : Client)
    → is_unlocked keepalive e ≡ false
    → IsValid s
    → IsValid (step keepalive e s)
unfolding step
step-IsValid keepalive (asks outcome r) s u h = ask_by-IsValid (s.asking r) outcome r s refl h
step-IsValid keepalive (answers v k) s u h = answer_by-IsValid (s.answering k) v k s refl h
step-IsValid keepalive (reads p) s u h =
    let same : step keepalive (reads p) s ≡ s = ground arith in rw same h
step-IsValid keepalive (writes p) s u h =
    let same : step keepalive (writes p) s ≡ s = ground arith in rw same h

-- No step of a schedule counts without the lock.
abbrev pub IsLocked : String → List Event → Type 0
IsLocked keepalive events = All (λ e. is_unlocked keepalive e ≡ false) events

pub init-IsValid : IsValid init
init-IsValid = record {
  flying = λ r c e. cc e;
  bounded = λ r c e. cc e;
  alone = λ r q c e. cc e;
  fits = λ c. tt;
  known = λ c e. refl;
  awake = λ r c e. cc e;
  tight = λ r c e. cc e;
  kept = λ k v e. cc e;
  matched = λ r c o e. cc e;
}

pub run-IsValid :
    (keepalive : String) (events : List Event) (s : Client)
    → IsLocked keepalive events
    → IsValid s
    → IsValid (run keepalive events s)
run-IsValid keepalive [] s l h = h
run-IsValid keepalive (e ∷ events) s l h =
    run-IsValid keepalive events (step keepalive e s) l.1 (step-IsValid keepalive e s l.0 h)

-- In a schedule in which the keepalive flag is '1' or payload_power_control never counts, and
-- whatever the order in which requests, responses and threads come: a requester whose call was
-- accepted and that has returned has a value, never None, and it is a response that carried the
-- correlation id of its own request.
pub returned_value_matches :
    (keepalive : String) (events : List Event) (r c : ℕ) (o : Option Response)
    → IsLocked keepalive events
    → (run keepalive events init).asking r ≡ returned c o
    → (v : Response) × (o ≡ some v) × (v.correlation_id ≡ c)
returned_value_matches keepalive events r c none l e =
    absurd ((run-IsValid keepalive events init l init-IsValid).matched r c none e)
returned_value_matches keepalive events r c (some v) l e =
    (v, refl, (run-IsValid keepalive events init l init-IsValid).matched r c (some v) e)
