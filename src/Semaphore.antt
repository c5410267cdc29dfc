-- ===== src/Semaphore.antt =====
-- src/livox_ros_driver2/src/comm/semaphore.h and semaphore.cpp. The count never goes below 0.
use auto_fastlio.Prelude.{ℕ, zero, suc, ◌+◌, Option, none, some, leb, if◌then◌else◌}

unfoldable pub signal : ℕ → ℕ
signal count = count + 1

-- `none`: the caller goes on waiting.
unfoldable pub wait : ℕ → Option ℕ
wait zero = none
wait (suc count) = some count

-- `if (GetCount() <= 0) Signal()`, as the callers write it.
unfoldable pub signal_if_zero : ℕ → ℕ
unfolding signal
signal_if_zero count = if leb count 0 then signal count else count
