-- ===== src/Cashback/Pay/Backoff.antt =====
-- The delay before a failed payment is tried again.
use bumpa_achievement_system.Common.Powers.{from_base, grows}
use bumpa_achievement_system.Common.{ℕ, ◌-◌, ◌≤◌, arith, min}
use bumpa_achievement_system.Cashback.Pay.{auto_retry_delay_ms}

-- The delay is at least the configured base delay, or an hour where that is longer; it is never more
-- than an hour; and it does not get shorter from one failure to a later one.
pub auto_retry_delay_ms_bounds :
    (base m n : ℕ)
    → m ≤ n
    → (min base 3600000 ≤ auto_retry_delay_ms base m)
      × (auto_retry_delay_ms base n ≤ 3600000)
      × (auto_retry_delay_ms base m ≤ auto_retry_delay_ms base n)
unfolding auto_retry_delay_ms
auto_retry_delay_ms_bounds base m n h =
    let low = from_base base (m - 1) in
    let more = grows base (m - 1) (n - 1) (omega arith) in ground (arith, low, more)
