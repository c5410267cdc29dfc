-- ===== src/Examples/Queues.antt =====
-- Queues, sizes and texts.
use auto_fastlio.Prelude.{
  ◌+◌, ℕ, ◌≡◌, ◌↔◌, refl, ◌^◌, true, false, none, some, [], ◌∷◌, map, if◌then◌else◌, ◌==◌, arith,
}
use auto_fastlio.Comm.Text.{codes, replace_period_by_underline, replace_period_by_underline_lem}
use auto_fastlio.Ldq.{
  LidarDataQueue, blank, block_size, delete_storage, init_queue, deinit_queue, queue_pop,
  queue_pop_update, queue_push_any, is_power_of_2, roundup_power_of_2, queue_is_empty,
  queue_is_full,
}
use auto_fastlio.Ldq.Size.{LeastPower, roundup_power_of_2-LeastPower, is_power_of_2_iff}
use auto_fastlio.Ldq.Refine.{Holds, popped_packet}
use auto_fastlio.Ldq.Lifecycle.{init_queue-Holds, deinit_queue-freed}
use auto_fastlio.Ldq.Transfer.{queue_push_any-Holds, queue_pop-Holds}
use auto_fastlio.Lddc.Messages.{custom_point}
use auto_fastlio.Lddc.Contents.{custom_point-offset_time}
use auto_fastlio.Examples.{
  whole_numbers, point, entry, packet, empty_queue, one_queue, empty_queue-Holds, one_queue-Holds,
}

queue_push_any-Holds_example :
    (q' : LidarDataQueue ℕ) × (queue_push_any empty_queue packet 1000 ≡ some (1, q'))
    × Holds 4 q' (entry ∷ [])
queue_push_any-Holds_example =
    queue_push_any-Holds {cap = 4} {q = empty_queue} {es = []} packet 1000 empty_queue-Holds
      (omega arith) refl

queue_pop-Holds_example :
    (queue_pop one_queue blank ≡ some (true, popped_packet blank entry, queue_pop_update one_queue))
    × Holds 4 (queue_pop_update one_queue) []
queue_pop-Holds_example = queue_pop-Holds blank entry [] one_queue-Holds

init_queue-Holds_example :
    (q' : LidarDataQueue ℕ) × (init_queue empty_queue 10 ≡ some (true, q'))
    × Holds (block_size 10) q' []
init_queue-Holds_example =
    init_queue-Holds empty_queue 10 (omega arith) (unfold delete_storage in λ e. cc)

deinit_queue-freed_example :
    (q' : LidarDataQueue ℕ) × (deinit_queue one_queue ≡ some (true, q'))
    × (queue_is_empty q' ≡ true)
    × (queue_is_full q' ≡ false)
    × (deinit_queue q' ≡ none)
    × (init_queue q' 10 ≡ none)
    × (queue_push_any q' packet 1000 ≡ none)
deinit_queue-freed_example = deinit_queue-freed (entry ∷ []) 10 1000 packet one_queue-Holds

roundup_power_of_2-LeastPower_example : LeastPower 31 11 (roundup_power_of_2 11)
roundup_power_of_2-LeastPower_example = roundup_power_of_2-LeastPower 11 (omega arith) (omega arith)

is_power_of_2_iff_example : (is_power_of_2 64 ≡ true) ↔ ((k : ℕ) × (64 ≡ 2 ^ k))
is_power_of_2_iff_example = is_power_of_2_iff 64

replace_period_by_underline_lem_example :
    replace_period_by_underline (codes "192.168.1.3")
    ≡ some (map (λ c. if c == b'.' then b'_' else c) (codes "192.168.1.3"))
replace_period_by_underline_lem_example = replace_period_by_underline_lem (codes "192.168.1.3")

-- Eleven packets are given a block of sixteen.
roundup_11 : roundup_power_of_2 11 ≡ 16
unfolding roundup_power_of_2
roundup_11 = refl

custom_point-offset_time_example :
    1000 + (custom_point whole_numbers 1000 point).offset_time ≡ point.offset_time
custom_point-offset_time_example =
    custom_point-offset_time whole_numbers 1000 point (omega arith) (omega arith) (omega arith)
