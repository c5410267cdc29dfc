-- ===== src/Lddc/Imu.antt =====
-- What `PollingLidarImuData` of lddc.cpp publishes.
use auto_fastlio.Prelude.{
  ℕ, zero, suc, ◌<◌, ◌≡◌, ◌∙◌, ap, false, some, List, [], ◌∷◌, length, arith, append_assoc,
  append-nil, map,
}
use auto_fastlio.Comm.{ImuData}
use auto_fastlio.Numerics.{Numerics}
use auto_fastlio.ImuQueue
use auto_fastlio.Comm.Text.{codes}
use auto_fastlio.Lds.{Lds}
use auto_fastlio.Lddc.Messages.{init_imu_msg}
use auto_fastlio.Lddc.Publish.{
  Lddc, Publisher, Message, imu, livox_imu_msg, output_to_ros, deliver_imu, publish, cast_to,
  get_current_imu_publisher,
}
use auto_fastlio.Lddc.Drain.{done}
use auto_fastlio.Lddc.Log.{with_published}
use auto_fastlio.Lddc.Polling.{publish_imu_data, polling_lidar_imu_data}

module _ (N : Numerics) (p : Publisher) where
  -- An Lddc that publishes to ROS, on one topic for the IMU data of all lidars.
  pub record PublishesImuOn (lddc : Lddc N) : Type 0 where
    pub single : lddc.use_multi_topic ≡ 0
    pub ros : lddc.output_type ≡ output_to_ros
    pub made : lddc.global_imu_pub ≡ some p
    pub kind : p.msg_type ≡ livox_imu_msg

  -- What is expected for a reading: its own time, the turning rates and the accelerations.
  abbrev pub imu_of : ImuData N.Float → Publisher × Message N
  imu_of m = (
    p,
    imu (record {
      frame_id = codes "livox_frame";
      stamp = m.time_stamp;
      angular_velocity = (m.gyro_x, m.gyro_y, m.gyro_z);
      linear_acceleration = (m.acc_x, m.acc_y, m.acc_z);
    }),
  )

  more-PublishesImuOn :
      (lddc : Lddc N) (more : List (Publisher × Message N))
      → PublishesImuOn lddc
      → PublishesImuOn (with_published N lddc more)
  more-PublishesImuOn lddc more ready = record {
    single = ready.single;
    ros = ready.ros;
    made = ready.made;
    kind = ready.kind;
  }

  publish_imu_data-ready :
      (out : ImuData N.Float) (lds : Lds N) (index : ℕ) (m : ImuData N.Float)
      (queue : List (ImuData N.Float)) (lddc : Lddc N)
      → PublishesImuOn lddc
      → publish_imu_data N out lds index (m ∷ queue) lddc
        ≡ done (queue, with_published N lddc (imu_of m ∷ []))
  unfolding publish_imu_data ImuQueue.pop deliver_imu get_current_imu_publisher publish cast_to
      init_imu_msg
  publish_imu_data-ready out lds index m queue lddc ready =
      ground (arith, ready.single, ready.made, ready.kind, ready.ros)

  polling-round :
      (out : ImuData N.Float) (fuel : ℕ) (lds : Lds N) (index : ℕ) (m : ImuData N.Float)
      (queue queue' : List (ImuData N.Float)) (lddc lddc' : Lddc N)
      → lds.request_exit ≡ false
      → publish_imu_data N out lds index (m ∷ queue) lddc ≡ done (queue', lddc')
      → polling_lidar_imu_data N out (suc fuel) lds index (m ∷ queue) lddc
        ≡ polling_lidar_imu_data N out fuel lds index queue' lddc'
  unfolding polling_lidar_imu_data ImuQueue.empty
  polling-round out fuel lds index m queue queue' lddc lddc' stay round = ground arith

  -- With one IMU publisher for all lidars, no exit requested and more fuel than samples, polling
  -- empties an IMU queue and publishes one message for each sample, in the order of the queue, with
  -- the frame id livox_frame, the sample's time, its gyro as angular velocity and its acc as linear
  -- acceleration.
  pub polling_lidar_imu_data_lem :
      (out : ImuData N.Float) (fuel : ℕ) (lds : Lds N) (index : ℕ) (queue : List (ImuData N.Float))
      (lddc : Lddc N)
      → PublishesImuOn lddc
      → lds.request_exit ≡ false
      → length queue < fuel
      → polling_lidar_imu_data N out fuel lds index queue lddc
        ≡ done ([], with_published N lddc (map imu_of queue))
  unfolding polling_lidar_imu_data ImuQueue.empty
  polling_lidar_imu_data_lem out zero lds index queue lddc ready stay enough = absurd (omega arith)
  polling_lidar_imu_data_lem out (suc fuel) lds index [] lddc ready stay enough =
      ground (arith, append-nil lddc.published)
  polling_lidar_imu_data_lem out (suc fuel) lds index (m ∷ queue) lddc ready stay enough =
      let one = imu_of m ∷ [] in
      polling-round out fuel lds index m queue queue lddc (with_published N lddc one) stay
        (publish_imu_data-ready out lds index m queue lddc ready)
      ∙ polling_lidar_imu_data_lem out fuel lds index queue (with_published N lddc one)
          (more-PublishesImuOn lddc one ready) stay (omega arith)
      ∙ ap (λ l. done ([], record lddc { published = l }))
          (append_assoc lddc.published one (map imu_of queue))
