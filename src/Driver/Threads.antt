-- ===== src/Driver/Threads.antt =====
-- PointCloudDataPollThread and ImuDataPollThread of livox_ros_driver2/src/livox_ros_driver2.cpp,
-- and the destructor of driver_node.cpp that joins them: one thread with its semaphore, beside the
-- destructor and the arriving packets. The two threads do the same. What a round publishes is not
-- part of this state: only where the thread stands. A data source is registered.
use auto_fastlio.Prelude.{ℕ, ◌≡◌, Bool, true, Option, none, some, if◌then◌else◌}
use auto_fastlio.Semaphore.{wait, signal_if_zero}

-- Where a thread stands: in its three seconds of sleep, at the call of Distribute..., in the wait
-- for the semaphore, in the loop over the devices, at the test of the future, at its end.
pub data Place : Type 0 where
  asleep calling blocked polling testing ended : Place

-- Where the destructor stands: not called, after each of its two statements, after the join.
pub data Ending : Type 0 where
  running requested signalled joined : Ending

pub record Poll : Type 0 where
  pub place : Place
  pub semaphore : ℕ
  pub request_exit : Bool
  pub exit_signal : Bool
  pub ending : Ending

-- The next step of the thread, if it can take one.
unfoldable pub thread_step : Place → Poll → Option Poll
thread_step asleep s = some (record s { place = calling })
thread_step calling s = some (record s { place = if s.request_exit then testing else blocked })
thread_step blocked s = elim (wait s.semaphore) [
  | none ↦ none
  | some count ↦ some (record s { place = polling; semaphore = count })
]
thread_step polling s = some (record s { place = testing })
thread_step testing s = some (record s { place = if s.exit_signal then ended else calling })
thread_step ended s = none

-- The next step of the destructor, `RequestExit`, `set_value` and the join, if it can take one.
unfoldable pub exit_step : Ending → Place → Poll → Option Poll
exit_step running place s = some (record s { request_exit = true; ending = requested })
exit_step requested place s = some (record s { exit_signal = true; ending = signalled })
exit_step signalled ended s = some (record s { ending = joined })
exit_step signalled _ s = none
exit_step joined place s = none

-- A packet that is stored raises the semaphore.
unfoldable pub packet_step : Poll → Poll
packet_step s = record s { semaphore = signal_if_zero s.semaphore }

-- Steps of the thread and the destructor, in any order.
pub data QuietStep : Poll → Poll → Type 0 where
  by_thread : {s s' : Poll} → thread_step s.place s ≡ some s' → QuietStep s s'
  by_exit : {s s' : Poll} → exit_step s.ending s.place s ≡ some s' → QuietStep s s'

pub data Reach (s : Poll) : Poll → Type 0 where
  here : Reach s s
  next : {t u : Poll} → Reach s t → QuietStep t u → Reach s u
