-- ===== src/Example/Start.antt =====
-- `new` and `set_payload_values`: the sequences that the sample application mounts, and the counters
-- that it begins with. The text of a number is a parameter, as is the width of a counter.
use Prim.Native.String.{◌++◌}
use sat_os_payload_sdk.Prelude.{
  ℕ, zero, suc, ◌+◌, String, Bool, List, [], ◌∷◌, none, some, get_elem?, set, ℤ, pos,
}
use sat_os_payload_sdk.Exec.{ok, raised, index_error, Exec, ◌>>◌, modify}
use sat_os_payload_sdk.Framework.Metrics.{Metrics, Info, define_counter, inc_counter}
use sat_os_payload_sdk.Framework.App.{App, mount_sequence}

-- The methods of `Controller`, numbered in the order in which they are mounted.
abbrev pub sequences : List (String × ℕ)
sequences =
    ("HelloWorld", 0)
    ∷ ("HelloFriend", 1)
    ∷ ("LogLocation", 2)
    ∷ ("TestGPIO", 3)
    ∷ ("UARTLoopback", 4)
    ∷ ("StageFile", 5)
    ∷ ("PowerControl", 6)
    ∷ ("TestCANBus", 7)
    ∷ []

unfoldable pub mount_all : List (String × ℕ) → App → App
mount_all [] app = app
mount_all ((seq_id, f) ∷ l) app = mount_all l (mount_sequence seq_id f app)

-- `metrics[i]` is assigned to.
unfoldable pub assign : ℕ → (Info → Info) → Exec Metrics (Unit {0})
assign i f m = elim (get_elem? m.metrics i) [
  | none ↦ (raised index_error, m)
  | some info ↦ (ok tt, record m { metrics = set m.metrics i (f info) })
]

-- `for i in range(n)`, from `i` on.
unfoldable pub for_range : ℕ → ℕ → (ℕ → Exec Metrics (Unit {0})) → Exec Metrics (Unit {0})
for_range zero i body m = (ok tt, m)
for_range (suc n) i body m = (body i >> for_range n (suc i) body) m

unfoldable pub set_payload_values : (ℤ → Bool) → (ℕ → String) → Exec Metrics (Unit {0})
unfolding assign for_range
set_payload_values fits str = do
  modify (λ m. record m { used_counter = pos 5 })
  for_range 5 0 (λ i. assign i (λ info. record info { counter = pos (i + 1) }))
  for_range 5 0 (λ i. assign i (λ info. record info { names = "Counter " ++ str i }))
  define_counter (pos 1) "MetricName_1"
  inc_counter fits (pos 1) (pos 1)
