-- ===== src/Framework/Tests.antt =====
-- Concrete runs of the framework.
use sat_os_payload_sdk.Prelude.{◌≡◌, refl, Bool, ltb, ℤ, pos, negsuc}
use sat_os_payload_sdk.Exec.{raised}
use sat_os_payload_sdk.Framework.Metrics
use sat_os_payload_sdk.Framework.Metrics.{Info, Metrics, inc_counter, inc_counter_index_error}
use sat_os_payload_sdk.Exec.{value_error}
use sat_os_payload_sdk.Framework.Metrics.{define_counter}

-- The counters are 32-bit integers.
abbrev fits : ℤ → Bool
fits (pos n) = ltb n 2147483648
fits (negsuc n) = ltb n 2147483648

counter_16_refused :
    define_counter (pos 16) "late" Metrics.init ≡ (raised value_error, Metrics.init)
unfolding define_counter
counter_16_refused = refl
