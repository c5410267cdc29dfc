-- ===== src/ImuQueue.antt =====
-- The IMU queue: src/livox_ros_driver2/src/comm/lidar_imu_data_queue.cpp. The mutex makes each
-- call one atomic step; the std::list is a list with its front first.
use auto_fastlio.Prelude.{Bool, true, false, List, [], ◌∷◌, ◌++◌}
use auto_fastlio.Comm.{ImuData}

module _ {F : Type 0} where
  -- `slot` of the copy is never set: it is whatever `fresh` holds.
  unfoldable pub push : ImuData F → List (ImuData F) → ImuData F → List (ImuData F)
  push fresh queue imu_data =
      queue
      ++ record fresh {
        lidar_type = imu_data.lidar_type;
        handle = imu_data.handle;
        time_stamp = imu_data.time_stamp;
        gyro_x = imu_data.gyro_x;
        gyro_y = imu_data.gyro_y;
        gyro_z = imu_data.gyro_z;
        acc_x = imu_data.acc_x;
        acc_y = imu_data.acc_y;
        acc_z = imu_data.acc_z;
      }
        ∷ []

  -- The result of `Pop(out)`, what `out` holds then, and the queue.
  unfoldable pub pop : List (ImuData F) → ImuData F → Bool × ImuData F × List (ImuData F)
  pop [] out = (false, out, [])
  pop (x ∷ xs) out = (true, x, xs)

  unfoldable pub empty : List (ImuData F) → Bool
  empty [] = true
  empty (x ∷ xs) = false

  unfoldable pub clear : List (ImuData F) → List (ImuData F)
  clear queue = []
