-- ===== src/Ldq.antt =====
-- The point-cloud ring queue: src/livox_ros_driver2/src/comm/ldq.h and ldq.cpp.
-- A function that updates `*queue` returns the new queue; `none` is undefined behaviour (an access
-- through a null or freed pointer, or past the end of a block).
pub mod Size
pub mod Window
pub mod Refine
pub mod Transfer
pub mod Lifecycle
use auto_fastlio.Prelude.{
  ℕ, zero, suc, ◌+◌, ◌-◌, ◌%◌, ◌^◌, Bool, true, false, not, ◌&&◌, Option, none, some, List, bit_and,
  ltb, leb, ◌==◌, if◌then◌else◌, get_elem?, set, replicate, read, ◌>>=◌, [],
}
use auto_fastlio.Comm.{u32, PointPacket, StoragePacket}

unfoldable pub is_power_of_2 : ℕ → Bool
is_power_of_2 size = not (size == 0) && (bit_and size (size - 1) == 0)

-- The loop `for (i = 0; i < 32; i++)`, with the rounds left; `last` is power2_val.
unfoldable pub roundup_from : ℕ → ℕ → ℕ → ℕ → ℕ
roundup_from zero i size last = last
roundup_from (suc rounds) i size last =
    let next = roundup_from rounds (i + 1) size (2 ^ i) in if leb size (2 ^ i) then 2 ^ i else next

unfoldable pub roundup_power_of_2 : ℕ → ℕ
unfolding roundup_from
roundup_power_of_2 size = roundup_from 32 0 size 0

-- `StoragePacket *`: null, an address that was freed, or a live block.
pub data Storage (F : Type 0) : Type 0 where
  null : Storage F
  freed : Storage F
  block : List (StoragePacket F) → Storage F

pub record LidarDataQueue (F : Type 0) : Type 0 where
  pub storage_packet : Storage F
  pub rd_idx : ℕ
  pub wr_idx : ℕ
  pub mask : ℕ
  pub size : ℕ

-- An element of `new StoragePacket[n]`: no points. The plain fields are indeterminate in C++; they
-- are 0 here, and no pop reads them before a push has written them.
abbrev pub blank : {F : Type 0} → StoragePacket F
blank = record { lidar_type = 0; handle = 0; base_time = 0; points_num = 0; points = [] }

-- `queue_size` after the test at the head of `InitQueue`.
abbrev pub block_size : ℕ → ℕ
block_size n = if is_power_of_2 n then n else roundup_power_of_2 n

module _ {F : Type 0} where
  -- `if (p) delete[] p`
  unfoldable pub delete_storage : Storage F → Option (Storage F)
  delete_storage null = some null
  delete_storage freed = none
  delete_storage (block _) = some freed

  -- `InitQueue` on an object. (`new` throws; it never returns the null that the code tests for.)
  unfoldable pub init_queue : LidarDataQueue F → ℕ → Option (Bool × LidarDataQueue F)
  unfolding delete_storage
  init_queue queue queue_size = delete_storage queue.storage_packet >>= λ _. some (
    true,
    record {
      storage_packet = block (replicate (block_size queue_size) blank);
      rd_idx = 0;
      wr_idx = 0;
      size = block_size queue_size;
      mask = (block_size queue_size + u32 - 1) % u32;
    },
  )

  -- The freed pointer is kept.
  unfoldable pub deinit_queue : LidarDataQueue F → Option (Bool × LidarDataQueue F)
  unfolding delete_storage
  deinit_queue queue = delete_storage queue.storage_packet >>= λ p.
      some (true, record { storage_packet = p; rd_idx = 0; wr_idx = 0; size = 0; mask = 0 })

  unfoldable pub reset_queue : LidarDataQueue F → LidarDataQueue F
  reset_queue queue = record queue { rd_idx = 0; wr_idx = 0 }

  unfoldable pub queue_used_size : LidarDataQueue F → ℕ
  queue_used_size queue = (queue.wr_idx + u32 - queue.rd_idx) % u32

  unfoldable pub queue_unused_size : LidarDataQueue F → ℕ
  queue_unused_size queue = (queue.size + u32 - queue_used_size queue) % u32

  unfoldable pub queue_is_full : LidarDataQueue F → Bool
  queue_is_full queue = ltb queue.mask ((queue.wr_idx + u32 - queue.rd_idx) % u32)

  unfoldable pub queue_is_empty : LidarDataQueue F → Bool
  queue_is_empty queue = queue.rd_idx == queue.wr_idx

  -- `p[i]`
  unfoldable pub load : Storage F → ℕ → Option (StoragePacket F)
  load null i = none
  load freed i = none
  load (block b) i = get_elem? b i

  -- `QueuePrePop(queue, out)`: the result, and what `*out` holds then.
  unfoldable pub queue_pre_pop :
      LidarDataQueue F → StoragePacket F → Option (Bool × StoragePacket F)
  unfolding queue_is_empty load
  queue_pre_pop queue out =
      if queue_is_empty queue
      then some (false, out)
      else (load queue.storage_packet (bit_and queue.rd_idx queue.mask) >>= λ p.
          read p.points_num p.points >>= λ copied. some (
            true,
            record out { base_time = p.base_time; points_num = p.points_num; points = copied },
          ))

  unfoldable pub queue_pop_update : LidarDataQueue F → LidarDataQueue F
  queue_pop_update queue = record queue { rd_idx = (queue.rd_idx + 1) % u32 }

  unfoldable pub queue_pop :
      LidarDataQueue F → StoragePacket F → Option (Bool × StoragePacket F × LidarDataQueue F)
  unfolding queue_pre_pop queue_pop_update
  queue_pop queue out = queue_pre_pop queue out >>= λ (done, p).
      some (done, p, (if done then queue_pop_update queue else queue))

  -- `p[i] = …`, the new element a function of the old one.
  unfoldable pub store : Storage F → ℕ → (StoragePacket F → StoragePacket F) → Option (Storage F)
  store null i f = none
  store freed i f = none
  store (block b) i f = get_elem? b i >>= λ old. some (block (set b i (f old)))

  unfoldable pub queue_push_any :
      LidarDataQueue F → PointPacket F → ℕ → Option (ℕ × LidarDataQueue F)
  unfolding store
  queue_push_any queue packet base_time = read packet.points_num packet.points >>= λ copied.
      store queue.storage_packet (bit_and queue.wr_idx queue.mask) (λ old. record old {
        base_time = base_time;
        points_num = packet.points_num;
        points = copied;
      })
      >>= λ p. some (1, record queue { storage_packet = p; wr_idx = (queue.wr_idx + 1) % u32 })
