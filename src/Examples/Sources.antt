-- ===== src/Examples/Sources.antt =====
-- The data source and what is published from it.
use auto_fastlio.Prelude.{
  if◌then◌else◌, ◌==◌, ℕ, ◌≡◌, refl, sym, subst, none, some, List, [], ◌∷◌, false, get_elem?, set,
  replicate, map, arith, zero, suc,
}
use auto_fastlio.Comm.{PointFrame, ImuData, livox_lidar_type, off}
use auto_fastlio.Comm.Text.{codes}
use auto_fastlio.Ldq.{null, LidarDataQueue}
use auto_fastlio.Ldq.Refine.{Holds}
use auto_fastlio.Lds.{
  LidarDevice, Lds, storage_point_data, storage_imu_data, reset_lidar, push_lidar_data,
  is_all_queue_empty, is_all_queue_read_stop,
}
use auto_fastlio.Lds.Ready.{Contains, fresh, capacity}
use auto_fastlio.Lds.Frames.{IsReady, Moves, storage_point_data_lem}
use auto_fastlio.Lds.Deliveries.{Delivery, deliveries, received}
use auto_fastlio.Lds.Devices.{is_all_queue_empty-eq-read_stop, reset_lidar-then_push}
use auto_fastlio.Lds.Readings.{owner, arriving, storage_imu_data_lem}
use auto_fastlio.Lddc.Publish.{
  Lddc, Publisher, point_cloud2_msg, livox_custom_msg, pcl_pxyzi_msg, livox_imu_msg, output_to_ros,
}
use auto_fastlio.Lddc.Drain.{done, no_fuel}
use auto_fastlio.Lddc.Log.{with_published, messages_of}
use auto_fastlio.Lddc.Polling.{polling_lidar_point_cloud_data, polling_lidar_imu_data}
use auto_fastlio.Lddc.Order.{
  cloud_of, custom_of, polling_lidar_point_cloud_data-pointcloud2,
  polling_lidar_point_cloud_data-custom, polling_lidar_point_cloud_data-endless,
}
use auto_fastlio.Lddc.Imu.{imu_of, polling_lidar_imu_data_lem}
use auto_fastlio.Examples.{whole_numbers, packet, entry, one_queue, one_queue-Holds, device_with}
use auto_fastlio.Examples.Indices.{one_device, one_device-IsConsistent}

abbrev idle_queue : LidarDataQueue ℕ
idle_queue = record { storage_packet = null; rd_idx = 0; wr_idx = 0; mask = 0; size = 0 }

-- 32 devices without a block, the first of which is known, at 10 frames a second.
abbrev lds : Lds whole_numbers
lds = record {
  lidar_count = 1;
  lidars = replicate 32 (device_with idle_queue);
  pcd_semaphore = 0;
  imu_semaphore = 0;
  cache_index = one_device;
  publish_freq = 10;
  data_src = 0;
  request_exit = false;
}

each_one : {A : Type 0} (n : ℕ) (a b : A) (i : ℕ) → get_elem? (replicate n a) i ≡ some b → b ≡ a
each_one zero a b i e = cc
each_one (suc n) a b zero e = cc
each_one (suc n) a b (suc i) e = each_one n a b i e

lds-IsReady : IsReady whole_numbers lds
lds-IsReady = record {
  count = refl;
  queues = λ i lidar at. (
    [],
    subst (λ (d : LidarDevice ℕ). Contains (capacity whole_numbers 10) d.queue [])
        (sym (each_one 32 (device_with idle_queue) lidar i at)) (fresh refl refl refl),
  );
  cache = one_device-IsConsistent;
}

abbrev frame : PointFrame ℕ
frame = record { base_time = 1000 ∷ []; lidar_num = 1; lidar_point = packet ∷ [] }

abbrev sent : List (Delivery ℕ)
sent = record { lidar_type = livox_lidar_type; handle = 5; entry = entry } ∷ []

frame_read : deliveries frame.lidar_num 0 frame ≡ some sent
unfolding deliveries
frame_read = refl

storage_point_data_lem_example :
    (lds' : Lds whole_numbers) × (storage_point_data whole_numbers lds frame ≡ some lds')
    × Moves whole_numbers lds lds' 0
        (device_with idle_queue)
        (received (capacity whole_numbers 10) one_device 0 [] sent)
storage_point_data_lem_example =
    storage_point_data_lem whole_numbers lds frame sent 0 (device_with idle_queue) [] lds-IsReady
      refl (fresh refl refl refl) frame_read

is_all_queue_empty-eq-read_stop_example :
    is_all_queue_empty whole_numbers lds ≡ is_all_queue_read_stop whole_numbers lds
is_all_queue_empty-eq-read_stop_example =
    is_all_queue_empty-eq-read_stop whole_numbers lds lds-IsReady

reset_lidar-then_push_example :
    (lidar' : LidarDevice ℕ) × (reset_lidar whole_numbers (device_with one_queue) 0 ≡ some lidar')
    × (lidar'.connect_state ≡ off)
    × (reset_lidar whole_numbers lidar' 0 ≡ none)
    × (push_lidar_data whole_numbers (record lds { lidars = set lds.lidars 0 lidar' }) packet 0 1000
        ≡ none)
reset_lidar-then_push_example =
    reset_lidar-then_push whole_numbers lds (device_with one_queue) packet 0 1000 0 one_queue-Holds
      (omega arith)

abbrev reading : ImuData ℕ
reading = record {
  lidar_type = livox_lidar_type;
  handle = 5;
  slot = 0;
  time_stamp = 1000;
  gyro_x = 1;
  gyro_y = 2;
  gyro_z = 3;
  acc_x = 4;
  acc_y = 5;
  acc_z = 6;
}

storage_imu_data_lem_example :
    (lds' : Lds whole_numbers) × (storage_imu_data whole_numbers reading lds reading ≡ some lds')
    × IsReady whole_numbers lds'
    × (get_elem? lds'.lidars 0
        ≡ some (record (device_with idle_queue) {
          imu_data = arriving whole_numbers (owner whole_numbers lds reading) 0 reading;
        }))
    × (lds'.imu_semaphore ≡ elim (owner whole_numbers lds reading) [
      | none ↦ 0
      | some i ↦ if lds.imu_semaphore == 0 then 1 else lds.imu_semaphore
    ])
storage_imu_data_lem_example =
    storage_imu_data_lem whole_numbers reading reading lds 0 (device_with idle_queue) lds-IsReady
      refl

-- A publisher of each kind, and an Lddc with them.
abbrev publisher : ℕ → Publisher
publisher msg_type = record {
  msg_type = msg_type;
  topic_name = codes "livox/lidar";
  queue_size = 256;
}

abbrev lddc : ℕ → Lddc whole_numbers
lddc format = record {
  transfer_format = format;
  use_multi_topic = 0;
  output_type = output_to_ros;
  frame_id = codes "livox_frame";
  private_pub = [];
  global_pub = some (publisher format);
  private_imu_pub = [];
  global_imu_pub = some (publisher livox_imu_msg);
  published = [];
}

abbrev busy_lds : Lds whole_numbers
busy_lds = record lds { lidars = device_with one_queue ∷ [] }

polling_lidar_point_cloud_data-pointcloud2_example :
    (q' : LidarDataQueue ℕ) × (polling_lidar_point_cloud_data whole_numbers 3 busy_lds 0
        (device_with one_queue)
        (lddc point_cloud2_msg)
      ≡ done (
        q',
        with_published whole_numbers (lddc point_cloud2_msg) (
            messages_of whole_numbers
              (publisher point_cloud2_msg)
              (cloud_of whole_numbers (codes "livox_frame"))
              (entry ∷ [])),
      ))
    × Holds 4 q' []
polling_lidar_point_cloud_data-pointcloud2_example =
    polling_lidar_point_cloud_data-pointcloud2 whole_numbers 3 4 0 busy_lds (device_with one_queue)
      (lddc point_cloud2_msg) (publisher point_cloud2_msg) (codes "livox_frame") (entry ∷ [])
      one_queue-Holds
      (record { single = refl; ros = refl; made = refl; kind = refl; chosen = refl; frame = refl })
      refl (omega arith)

polling_lidar_point_cloud_data-custom_example :
    (q' : LidarDataQueue ℕ) × (polling_lidar_point_cloud_data whole_numbers 3 busy_lds 0
        (device_with one_queue)
        (lddc livox_custom_msg)
      ≡ done (
        q',
        with_published whole_numbers (lddc livox_custom_msg) (
            messages_of whole_numbers
              (publisher livox_custom_msg)
              (custom_of whole_numbers (codes "livox_frame") (device_with one_queue))
              (entry ∷ [])),
      ))
    × Holds 4 q' []
polling_lidar_point_cloud_data-custom_example =
    polling_lidar_point_cloud_data-custom whole_numbers 3 4 0 busy_lds (device_with one_queue)
      (lddc livox_custom_msg) (publisher livox_custom_msg) (codes "livox_frame") (entry ∷ []) refl
      one_queue-Holds
      (record { single = refl; ros = refl; made = refl; kind = refl; chosen = refl; frame = refl })
      refl (omega arith)

polling_lidar_point_cloud_data-endless_example :
    polling_lidar_point_cloud_data whole_numbers 100 busy_lds 0
      (device_with one_queue)
      (lddc pcl_pxyzi_msg)
    ≡ no_fuel
polling_lidar_point_cloud_data-endless_example =
    polling_lidar_point_cloud_data-endless whole_numbers 100 4 0 busy_lds (device_with one_queue)
      (lddc pcl_pxyzi_msg) entry [] one_queue-Holds refl (omega arith)

polling_lidar_imu_data_lem_example :
    polling_lidar_imu_data whole_numbers reading 3 lds 0
      (reading ∷ reading ∷ [])
      (lddc point_cloud2_msg)
    ≡ done (
      [],
      with_published whole_numbers
          (lddc point_cloud2_msg)
          (map (imu_of whole_numbers (publisher livox_imu_msg)) (reading ∷ reading ∷ [])),
    )
polling_lidar_imu_data_lem_example =
    polling_lidar_imu_data_lem whole_numbers (publisher livox_imu_msg) reading 3 lds 0
      (reading ∷ reading ∷ []) (lddc point_cloud2_msg)
      (record { single = refl; ros = refl; made = refl; kind = refl }) refl (omega arith)
