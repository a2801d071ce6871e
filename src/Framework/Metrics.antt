-- ===== src/Framework/Metrics.antt =====
-- `class PayloadMetrics`: eight counters, behind a check that lets sixteen through. Which numbers
-- the field `counter` of the generated message takes is a parameter.
use sat_os_payload_sdk.Prelude.{
  ℕ, ◌≤◌, ◌<◌, String, Bool, true, List, [], ◌∷◌, none, some, ◌≡◌, refl, arith, length, get_elem?,
  get_elem?-none, set, replicate, ltb, if◌then◌else◌, ℤ, pos, negsuc, ◌+ℤ◌, ◌==◌,
}
use sat_os_payload_sdk.Exec.{Result, ok, raised, index_error, value_error, Exec}

pub record Info : Type 0 where
  pub names : String
  pub counter : ℤ

pub record Metrics : Type 0 where
  pub correlation_id : ℤ
  pub used_counter : ℤ
  pub timestamp : ℤ
  pub metrics : List Info

-- `PayloadMetrics.__init__`
abbrev pub init : Metrics
init = record {
  correlation_id = pos 0;
  used_counter = pos 0;
  timestamp = pos 0;
  metrics = replicate 8 (record { names = ""; counter = pos 0 });
}

-- `self.metrics[idx]` is assigned to by `f`, which may raise.
at_index : ℕ → (Info → Result Info) → Exec Metrics (Unit {0})
at_index i f m = elim (get_elem? m.metrics i) [
  | none ↦ (raised index_error, m)
  | some info ↦ elim (f info) [
    | raised e ↦ (raised e, m)
    | ok new ↦ (ok tt, record m { metrics = set m.metrics i new })
  ]
]

-- `if 0 <= idx < 16:`
checked : ℤ → (Info → Result Info) → Exec Metrics (Unit {0})
unfolding at_index
checked (pos i) f m = if ltb i 16 then at_index i f m else (raised value_error, m)
checked (negsuc i) f m = (raised value_error, m)

unfoldable pub define_counter : ℤ → String → Exec Metrics (Unit {0})
unfolding checked
define_counter idx name = checked idx (λ info. ok (record info { names = name }))

module _ (fits : ℤ → Bool) where
  unfoldable pub inc_counter : ℤ → ℤ → Exec Metrics (Unit {0})
  unfolding checked
  inc_counter idx val = checked idx λ info.
      if fits (info.counter +ℤ val)
      then ok (record info { counter = info.counter +ℤ val })
      else raised value_error

  get_elem?-at :
      (l : List Info) (i : ℕ) (new : Info) (j : ℕ) {old : Info}
      → get_elem? l i ≡ some old
      → get_elem? (set l i new) j ≡ (if j == i then some new else get_elem? l j)
  get_elem?-at [] i new j e = cc e
  get_elem?-at (x ∷ l) ℕ.zero new ℕ.zero e = refl
  get_elem?-at (x ∷ l) ℕ.zero new (ℕ.suc j) e = ground arith
  get_elem?-at (x ∷ l) (ℕ.suc i) new ℕ.zero e = ground arith
  get_elem?-at (x ∷ l) (ℕ.suc i) new (ℕ.suc j) e = ground (arith, get_elem?-at l i new j e)

  -- Counting up by a value that still fits changes the one counter, and it alone, by that value.
  pub inc_counter_adds :
      (i : ℕ) (val : ℤ) (m : Metrics) {info : Info} (j : ℕ)
      → get_elem? m.metrics i ≡ some info
      → i < 16
      → fits (info.counter +ℤ val) ≡ true
      → let (r, m') = inc_counter (pos i) val m in
        (r ≡ ok tt)
        × (get_elem? m'.metrics j ≡ (
            if j == i
            then some (record info { counter = info.counter +ℤ val })
            else get_elem? m.metrics j))
  unfolding inc_counter
  inc_counter_adds i val m {info} j e small fit =
      ground (arith, get_elem?-at m.metrics i (record info { counter = info.counter +ℤ val }) j e)

  -- With the eight counters that `__init__` makes, each index from 8 to 15 passes the check that
  -- should keep it out, and raises an IndexError; the metrics stay as they were.
  pub inc_counter_index_error :
      (i : ℕ) (val : ℤ) (m : Metrics)
      → length m.metrics ≡ 8
      → 8 ≤ i
      → i < 16
      → inc_counter (pos i) val m ≡ (raised index_error, m)
  unfolding inc_counter
  inc_counter_index_error i val m eight low high = ground (arith, get_elem?-none m.metrics i)
