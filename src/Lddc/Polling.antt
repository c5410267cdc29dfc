-- ===== src/Lddc/Polling.antt =====
-- Polling, distribution and registration: `RegisterLds`, `PrepareExit`, `DistributePointCloudData`,
-- `DistributeImuData` and what they call in lddc.cpp (ROS 2). Another thread's request to exit is
-- the flag that the loops read, as it stands while they run.
use auto_fastlio.Prelude.{
  ℕ, zero, suc, ◌+◌, ◌%◌, Bool, true, false, not, Option, none, some, List, ◌==◌, if◌then◌else◌,
  get_elem?, set,
}
use auto_fastlio.Prelude.Int.{ℤ, pos, minus_one}
use auto_fastlio.Comm.{ImuData, LidarConnectState, off, on, config, sampling}
use auto_fastlio.Numerics.{Numerics}
use auto_fastlio.Ldq.{null, freed, block, LidarDataQueue, queue_is_empty}
use auto_fastlio.ImuQueue
use auto_fastlio.Semaphore.{wait}
use auto_fastlio.Lds.{LidarDevice, Lds}
use auto_fastlio.Lddc.Publish.{
  Lddc, point_cloud2_msg, livox_custom_msg, pcl_pxyzi_msg, deliver_pointcloud2, deliver_custom,
  deliver_imu,
}
use auto_fastlio.Lddc.Drain.{Outcome, done, waiting, undefined, no_fuel, drain}

-- `kConnectStateSampling != connect_state`, negated.
unfoldable pub is_sampling : LidarConnectState → Bool
is_sampling off = false
is_sampling on = false
is_sampling config = false
is_sampling sampling = true

-- `RegisterLds`: the first source stays.
unfoldable pub register_lds {ℓ} : {A : Type ℓ} → Option A → A → ℤ × Option A
register_lds none lds = (pos 0, some lds)
register_lds (some current) lds = (minus_one, some current)

module _ (N : Numerics) where
  -- `PublishPclMsg` of a ROS 2 build: a message on the console, and back.
  unfoldable pub publish_pcl_msg :
      LidarDataQueue N.Float → Lddc N → Outcome (LidarDataQueue N.Float × Lddc N)
  publish_pcl_msg queue lddc = done (queue, lddc)

  -- One round of the loop of `PollingLidarPointCloudData`.
  unfoldable pub publish_by_format :
      ℕ → Lds N → ℕ → LidarDataQueue N.Float → Lddc N → Outcome (LidarDataQueue N.Float × Lddc N)
  publish_by_format fuel lds index queue lddc =
      if lddc.transfer_format == point_cloud2_msg
      then drain (deliver_pointcloud2 N lds index) fuel queue lddc
      else if lddc.transfer_format == livox_custom_msg
      then drain (deliver_custom N lds index) fuel queue lddc
      else if lddc.transfer_format == pcl_pxyzi_msg
      then publish_pcl_msg queue lddc
      else done (queue, lddc)

  -- `while (!lds_->IsRequestExit() && !QueueIsEmpty(p_queue))`
  unfoldable pub poll :
      ℕ → Lds N → ℕ → LidarDataQueue N.Float → Lddc N → Outcome (LidarDataQueue N.Float × Lddc N)
  poll zero lds index queue lddc = no_fuel
  poll (suc fuel) lds index queue lddc =
      let again = poll fuel lds index in
      if lds.request_exit
      then done (queue, lddc)
      else if queue_is_empty queue
      then done (queue, lddc)
      else elim (publish_by_format (suc fuel) lds index queue lddc) [
        | done (queue', lddc') ↦ again queue' lddc'
        | waiting ↦ waiting
        | undefined ↦ undefined
        | no_fuel ↦ no_fuel
      ]

  unfoldable pub polling_lidar_point_cloud_data :
      ℕ → Lds N → ℕ → LidarDevice N.Float → Lddc N → Outcome (LidarDataQueue N.Float × Lddc N)
  polling_lidar_point_cloud_data fuel lds index lidar lddc = elim lidar.queue.storage_packet [
    | null ↦ done (lidar.queue, lddc)
    | freed ↦ poll fuel lds index lidar.queue lddc
    | block _ ↦ poll fuel lds index lidar.queue lddc
  ]

  -- The loop of `DistributePointCloudData` over the devices, with the rounds left. The index is
  -- passed on as a uint8_t.
  unfoldable pub distribute_from : ℕ → ℕ → ℕ → Lds N → Lddc N → Outcome (Lds N × Lddc N)
  distribute_from fuel zero i lds lddc = done (lds, lddc)
  distribute_from fuel (suc rounds) i lds lddc =
      let next = distribute_from fuel rounds (i + 1) in
      elim (get_elem? lds.lidars i) [
        | none ↦ undefined
        | some lidar ↦
            if not (is_sampling lidar.connect_state)
            then next lds lddc
            else elim (polling_lidar_point_cloud_data fuel lds (i % 256) lidar lddc) [
              | done (queue, lddc') ↦
                  next (record lds { lidars = set lds.lidars i (record lidar { queue = queue }) })
                    lddc'
              | waiting ↦ waiting
              | undefined ↦ undefined
              | no_fuel ↦ no_fuel
            ]
      ]

  -- `lds_` is null or a source.
  unfoldable pub distribute_point_cloud_data :
      ℕ → Option (Lds N) → Lddc N → Outcome (Option (Lds N) × Lddc N)
  distribute_point_cloud_data fuel none lddc = done (none, lddc)
  distribute_point_cloud_data fuel (some lds) lddc =
      if lds.request_exit then done (some lds, lddc) else elim (wait lds.pcd_semaphore) [
        | none ↦ waiting
        | some count ↦
            elim (distribute_from fuel lds.lidar_count 0 (record lds { pcd_semaphore = count })
              lddc) [
                | done (lds', lddc') ↦ done (some lds', lddc')
                | waiting ↦ waiting
                | undefined ↦ undefined
                | no_fuel ↦ no_fuel
              ]
      ]

  -- `PublishImuData`: the queue and the publishers after it. `out` is the uninitialised ImuData.
  unfoldable pub publish_imu_data :
      ImuData N.Float
      → Lds N
      → ℕ
      → List (ImuData N.Float)
      → Lddc N
      → Outcome (List (ImuData N.Float) × Lddc N)
  publish_imu_data out lds index queue lddc =
      let (popped, imu_data, queue') = ImuQueue.pop queue out in
      if not popped then done (queue', lddc) else elim (deliver_imu N lds index imu_data lddc) [
        | none ↦ undefined
        | some lddc' ↦ done (queue', lddc')
      ]

  -- `while (!lds_->IsRequestExit() && !p_queue.Empty())` of `PollingLidarImuData`.
  unfoldable pub polling_lidar_imu_data :
      ImuData N.Float
      → ℕ
      → Lds N
      → ℕ
      → List (ImuData N.Float)
      → Lddc N
      → Outcome (List (ImuData N.Float) × Lddc N)
  polling_lidar_imu_data out zero lds index queue lddc = no_fuel
  polling_lidar_imu_data out (suc fuel) lds index queue lddc =
      let again = polling_lidar_imu_data out fuel lds index in
      if lds.request_exit
      then done (queue, lddc)
      else if ImuQueue.empty queue
      then done (queue, lddc)
      else elim (publish_imu_data out lds index queue lddc) [
        | done (queue', lddc') ↦ again queue' lddc'
        | waiting ↦ waiting
        | undefined ↦ undefined
        | no_fuel ↦ no_fuel
      ]

  -- The loop of `DistributeImuData`.
  unfoldable pub distribute_imu_from :
      ImuData N.Float → ℕ → ℕ → ℕ → Lds N → Lddc N → Outcome (Lds N × Lddc N)
  distribute_imu_from out fuel zero i lds lddc = done (lds, lddc)
  distribute_imu_from out fuel (suc rounds) i lds lddc =
      let next = distribute_imu_from out fuel rounds (i + 1) in
      elim (get_elem? lds.lidars i) [
        | none ↦ undefined
        | some lidar ↦
            if not (is_sampling lidar.connect_state)
            then next lds lddc
            else elim (polling_lidar_imu_data out fuel lds (i % 256) lidar.imu_data lddc) [
              | done (queue, lddc') ↦
                  next
                    (record lds { lidars = set lds.lidars i (record lidar { imu_data = queue }) })
                    lddc'
              | waiting ↦ waiting
              | undefined ↦ undefined
              | no_fuel ↦ no_fuel
            ]
      ]

  unfoldable pub distribute_imu_data :
      ImuData N.Float → ℕ → Option (Lds N) → Lddc N → Outcome (Option (Lds N) × Lddc N)
  distribute_imu_data out fuel none lddc = done (none, lddc)
  distribute_imu_data out fuel (some lds) lddc =
      if lds.request_exit then done (some lds, lddc) else elim (wait lds.imu_semaphore) [
        | none ↦ waiting
        | some count ↦
            elim (distribute_imu_from out fuel lds.lidar_count 0
              (record lds { imu_semaphore = count }) lddc) [
                | done (lds', lddc') ↦ done (some lds', lddc')
                | waiting ↦ waiting
                | undefined ↦ undefined
                | no_fuel ↦ no_fuel
              ]
      ]
