-- ===== src/Lds.antt =====
-- The data source: src/livox_ros_driver2/src/lds.h and lds.cpp. `none` is undefined behaviour.
pub mod Ready
pub mod Deliveries
pub mod Frames
pub mod Devices
pub mod Readings
use auto_fastlio.Prelude.{
  ℕ, zero, suc, ◌+◌, ◌-◌, ◌≤◌, Bool, true, false, not, Option, none, some, List, [], ◌∷◌, ◌==◌, ltb,
  if◌then◌else◌, get_elem?, set, ◌>>=◌, read, ◌%◌,
}
use auto_fastlio.Comm.{
  PointPacket, PointFrame, ImuData, UserLivoxLidarConfig, LidarConnectState, off, sampling,
  max_source_lidar, livox_lidar_type, u32,
}
use auto_fastlio.Ldq.{
  Storage, null, freed, block, LidarDataQueue, init_queue, deinit_queue, queue_used_size,
  queue_is_full, queue_is_empty, queue_push_any,
}
use auto_fastlio.ImuQueue
use auto_fastlio.Semaphore.{signal_if_zero}
use auto_fastlio.CacheIndex.{CacheIndex, get_index, lvx_get_index}
use auto_fastlio.Numerics.{Numerics}

pub record LidarDevice (F : Type 0) : Type 0 where
  pub lidar_type : ℕ
  pub handle : ℕ
  pub data_src : ℕ
  pub connect_state : LidarConnectState
  pub queue : LidarDataQueue F
  pub imu_data : List (ImuData F)
  pub firmware_ver : ℕ
  pub livox_config : UserLivoxLidarConfig F

-- `publish_freq_` is a double.
pub record Lds (N : Numerics) : Type 0 where
  pub lidar_count : ℕ
  pub lidars : List (LidarDevice N.Float)
  pub pcd_semaphore : ℕ
  pub imu_semaphore : ℕ
  pub cache_index : CacheIndex
  pub publish_freq : N.Double
  pub data_src : ℕ
  pub request_exit : Bool

module _ (N : Numerics) where
  -- `CalculatePacketQueueSize` of comm.cpp.
  unfoldable pub calculate_packet_queue_size : N.Double → ℕ
  calculate_packet_queue_size publish_freq =
      if N.lt (N.of_nat 10) publish_freq then (N.trunc publish_freq + 1) % u32 else 10

  unfoldable pub reset_lidar : LidarDevice N.Float → ℕ → Option (LidarDevice N.Float)
  reset_lidar lidar data_src = deinit_queue lidar.queue >>= λ (_, queue). some (record lidar {
    queue = queue;
    imu_data = ImuQueue.clear lidar.imu_data;
    data_src = data_src;
    connect_state = off;
  })

  -- The loop of `ResetLds` over the devices.
  unfoldable pub reset_lidars : List (LidarDevice N.Float) → ℕ → Option (List (LidarDevice N.Float))
  reset_lidars [] data_src = some []
  reset_lidars (lidar ∷ lidars) data_src = reset_lidar lidar data_src >>= λ lidar'.
      reset_lidars lidars data_src >>= λ lidars'. some (lidar' ∷ lidars')

  unfoldable pub reset_lds : Lds N → ℕ → Option (Lds N)
  reset_lds lds data_src = reset_lidars lds.lidars data_src >>= λ lidars.
      some (record lds { lidar_count = max_source_lidar; lidars = lidars })

  -- `SetLidarDataSrc`, `RequestExit`, `CleanRequestExit`.
  unfoldable pub set_lidar_data_src : LidarDevice N.Float → ℕ → LidarDevice N.Float
  set_lidar_data_src lidar data_src = record lidar { data_src = data_src }

  unfoldable pub request_exit : Lds N → Lds N
  request_exit lds = record lds { request_exit = true }

  unfoldable pub clean_request_exit : Lds N → Lds N
  clean_request_exit lds = record lds { request_exit = false }

  -- The loop `for (i = 0; i < lidar_count_; i++)` of `IsAllQueueEmpty`, on the devices it visits.
  unfoldable pub all_queues_empty : List (LidarDevice N.Float) → Bool
  all_queues_empty [] = true
  all_queues_empty (lidar ∷ lidars) =
      if not (queue_is_empty lidar.queue) then false else all_queues_empty lidars

  unfoldable pub is_all_queue_empty : Lds N → Option Bool
  is_all_queue_empty lds =
      read lds.lidar_count lds.lidars >>= λ visited. some (all_queues_empty visited)

  unfoldable pub all_queues_read : List (LidarDevice N.Float) → Bool
  all_queues_read [] = true
  all_queues_read (lidar ∷ lidars) =
      if not (queue_used_size lidar.queue == 0) then false else all_queues_read lidars

  unfoldable pub is_all_queue_read_stop : Lds N → Option Bool
  is_all_queue_read_stop lds =
      read lds.lidar_count lds.lidars >>= λ visited. some (all_queues_read visited)

  -- The test `nullptr == queue->storage_packet` at the head of `PushLidarData`.
  unfoldable pub allocated : N.Double → LidarDataQueue N.Float → Option (LidarDataQueue N.Float)
  allocated publish_freq queue = elim queue.storage_packet [
    | null ↦ init_queue queue (calculate_packet_queue_size publish_freq) >>= λ (_, q). some q
    | freed ↦ some queue
    | block _ ↦ some queue
  ]

  -- The push itself: a full queue drops the packet.
  unfoldable pub push_or_drop :
      LidarDataQueue N.Float → PointPacket N.Float → ℕ → Option (LidarDataQueue N.Float)
  push_or_drop queue lidar_data base_time =
      if queue_is_full queue
      then some queue
      else (queue_push_any queue lidar_data base_time >>= λ (_, q). some q)

  -- After a push the semaphore is raised if the queue is not empty, after a drop always.
  unfoldable pub signal_after : Bool → LidarDataQueue N.Float → ℕ → ℕ
  signal_after dropped queue count =
      if dropped
      then signal_if_zero count
      else if not (queue_is_empty queue)
      then signal_if_zero count
      else count

  unfoldable pub push_lidar_data : Lds N → PointPacket N.Float → ℕ → ℕ → Option (Lds N)
  push_lidar_data lds lidar_data index base_time = get_elem? lds.lidars index >>= λ lidar.
      allocated lds.publish_freq lidar.queue >>= λ queue.
      push_or_drop queue lidar_data base_time >>= λ queue'. some (record lds {
        lidars = set lds.lidars index (record lidar { queue = queue' });
        pcd_semaphore = signal_after (queue_is_full queue) queue' lds.pcd_semaphore;
      })

  -- One round of `StoragePointData`.
  unfoldable pub storage_point : Lds N → PointPacket N.Float → ℕ → Option (Lds N)
  storage_point lds lidar_point base_time =
      elim (get_index lds.cache_index lidar_point.lidar_type lidar_point.handle) [
        | none ↦ some lds
        | some index ↦ push_lidar_data lds lidar_point index base_time
      ]

  -- `for (i = 0; i < lidar_number; ++i)`, with the rounds left.
  unfoldable pub storage_points_from : ℕ → ℕ → Lds N → PointFrame N.Float → Option (Lds N)
  storage_points_from zero i lds frame = some lds
  storage_points_from (suc rounds) i lds frame = get_elem? frame.lidar_point i >>= λ lidar_point.
      get_elem? frame.base_time i >>= λ base_time.
      storage_point lds lidar_point base_time >>= λ lds'.
      storage_points_from rounds (i + 1) lds' frame

  unfoldable pub storage_point_data : Lds N → PointFrame N.Float → Option (Lds N)
  storage_point_data lds frame = storage_points_from frame.lidar_num 0 lds frame

  -- One round of `StorageLvxPointData`.
  unfoldable pub storage_lvx_point : Lds N → PointPacket N.Float → ℕ → Option (Lds N)
  storage_lvx_point lds lidar_point base_time =
      let (found, cache) =
        lvx_get_index lds.cache_index lidar_point.lidar_type lidar_point.handle in
      let lds' = record lds { cache_index = cache } in
      elim found [
        | none ↦ some lds'
        | some index ↦ get_elem? lds'.lidars index >>= λ lidar.
            push_lidar_data
              (record lds' {
                lidars = set lds'.lidars index (record lidar { connect_state = sampling });
              })
              lidar_point index base_time
      ]

  unfoldable pub storage_lvx_points_from : ℕ → ℕ → Lds N → PointFrame N.Float → Option (Lds N)
  storage_lvx_points_from zero i lds frame = some lds
  storage_lvx_points_from (suc rounds) i lds frame =
      get_elem? frame.lidar_point i >>= λ lidar_point. get_elem? frame.base_time i >>= λ base_time.
      storage_lvx_point lds lidar_point base_time >>= λ lds'.
      storage_lvx_points_from rounds (i + 1) lds' frame

  unfoldable pub storage_lvx_point_data : Lds N → PointFrame N.Float → Option (Lds N)
  storage_lvx_point_data lds frame = storage_lvx_points_from frame.lidar_num 0 lds frame

  -- `fresh` is the uninitialised ImuData that the queue's Push fills.
  unfoldable pub storage_imu_data : ImuData N.Float → Lds N → ImuData N.Float → Option (Lds N)
  storage_imu_data fresh lds imu_data =
      if imu_data.lidar_type == livox_lidar_type
      then elim (get_index lds.cache_index imu_data.lidar_type imu_data.handle) [
        | none ↦ some lds
        | some index ↦ get_elem? lds.lidars index >>= λ lidar.
            let queue = ImuQueue.push fresh lidar.imu_data imu_data in
            some (record lds {
              lidars = set lds.lidars index (record lidar { imu_data = queue });
              imu_semaphore =
                  if not (ImuQueue.empty queue)
                  then signal_if_zero lds.imu_semaphore
                  else lds.imu_semaphore;
            })
      ]
      else some lds
