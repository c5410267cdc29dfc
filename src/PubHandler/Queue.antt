-- ===== src/PubHandler/Queue.antt =====
-- The queue of packets and the processing thread of src/livox_ros_driver2/src/comm/pub_handler.h and
-- pub_handler.cpp. The values and layouts that the SDK declares are the record `Sdk`.
use auto_fastlio.Prelude.{
  ℕ, ◌+◌, ◌-◌, ◌*◌, ◌/◌, ◌%◌, Bool, true, false, not, ◌||◌, Option, none, some, List, [], ◌∷◌, ◌++◌,
  ◌==◌, ltb, if◌then◌else◌, ◌>>=◌, read,
}
use auto_fastlio.Comm.{
  u32, u64, ImuData, LidarExtParameter, livox_lidar_type, ns_tolerant_frame_time_deviation,
  ratio_of_ms_to_ns,
}
use auto_fastlio.Numerics.{Numerics}
use auto_fastlio.PubHandler.{
  Layout, RawPacket, LidarPubHandler, new_handler, set_lidars_ext_param, point_cloud_process,
}
use auto_fastlio.PubHandler.Timer.{PubHandler, handler_of, check_timer}

-- `LivoxLidarEthernetPacket`; `data_bytes` is the memory from the member `data` on.
pub record EthernetPacket : Type 0 where
  pub length : ℕ
  pub time_interval : ℕ
  pub dot_num : ℕ
  pub data_type : ℕ
  pub time_type : ℕ
  pub timestamp : List ℕ
  pub data_bytes : List ℕ

-- The six numbers of `RawImuPoint`.
pub record RawImu (F : Type 0) : Type 0 where
  pub gyro_x : F
  pub gyro_y : F
  pub gyro_z : F
  pub acc_x : F
  pub acc_y : F
  pub acc_z : F

pub record Sdk (F : Type 0) : Type 0 where
  pub layout : Layout
  -- The number in `LdsStamp`'s bytes, and the cast to RawImuPoint: `none` past the end.
  pub stamp_of_bytes : List ℕ → ℕ
  pub imu_of_bytes : List ℕ → Option (RawImu F)
  pub time_type_no_sync : ℕ
  pub time_type_gptp_or_ptp : ℕ
  pub time_type_gps : ℕ
  pub imu_data_type : ℕ
  pub dev_type_hap : ℕ
  pub dev_type_mid360 : ℕ
  pub dev_type_mid360s : ℕ
  -- `sizeof(LivoxLidarEthernetPacket)`
  pub packet_size : ℕ

-- The members besides those of the timers. `imu_callback` tells whether it is set; `imu_sent` is
-- what it was called with, the oldest first.
pub record PubProcess (F : Type 0) : Type 0 where
  pub timers : PubHandler F
  pub raw_packet_queue : List RawPacket
  pub lidar_extrinsics : List (ℕ × LidarExtParameter F)
  pub is_quit : Bool
  pub point_process_thread : Bool
  pub imu_callback : Bool
  pub imu_sent : List (ImuData F)

-- `std::map`: `m[id] = v`, `m.find(id)`, in the order of the keys.
unfoldable pub assign_at {ℓ} : {A : Type ℓ} → ℕ → A → List (ℕ × A) → List (ℕ × A)
assign_at id v [] = (id, v) ∷ []
assign_at id v ((j, w) ∷ m) =
    let rest = assign_at id v m in
    if j == id then (j, v) ∷ m else if ltb id j then (id, v) ∷ (j, w) ∷ m else (j, w) ∷ rest

unfoldable pub value_at {ℓ} : {A : Type ℓ} → ℕ → List (ℕ × A) → Option A
value_at id [] = none
value_at id ((j, v) ∷ m) = let rest = value_at id m in if j == id then some v else rest

-- `GetLidarId`, with the `id = 0` of its callers where it fails.
unfoldable pub get_lidar_id : ℕ → ℕ → ℕ
get_lidar_id lidar_type handle = if lidar_type == livox_lidar_type then handle else 0

unfoldable pub get_eth_packet_timestamp : {F : Type 0} → Sdk F → ℕ → ℕ → List ℕ → ℕ
get_eth_packet_timestamp sdk now timestamp_type time_stamp =
    if (timestamp_type == sdk.time_type_gptp_or_ptp) || (timestamp_type == sdk.time_type_gps)
    then sdk.stamp_of_bytes time_stamp
    else now

-- `kLineNumberHAP`, `kLineNumberMid360` or `kLineNumberDefault`.
unfoldable pub line_number : {F : Type 0} → Sdk F → ℕ → ℕ
line_number sdk dev_type =
    if dev_type == sdk.dev_type_hap
    then 6
    else if (dev_type == sdk.dev_type_mid360) || (dev_type == sdk.dev_type_mid360s)
    then 4
    else 1

module _ {F : Type 0} where
  -- `AddLidarsExtParam` and `ClearAllLidarsExtrinsicParams`.
  unfoldable pub add_lidars_ext_param : LidarExtParameter F → PubProcess F → PubProcess F
  add_lidars_ext_param param s = record s {
    lidar_extrinsics =
        assign_at (get_lidar_id param.lidar_type param.handle) param s.lidar_extrinsics;
  }

  unfoldable pub clear_all_lidars_extrinsic_params : PubProcess F → PubProcess F
  clear_all_lidars_extrinsic_params s = record s { lidar_extrinsics = [] }

  -- `SetPointCloudsCallback`, `SetImuDataCallback` and `RequestExit`.
  unfoldable pub set_point_clouds_callback : PubProcess F → PubProcess F
  set_point_clouds_callback s = record s { timers = record s.timers { points_callback = true } }

  unfoldable pub set_imu_data_callback : PubProcess F → PubProcess F
  set_imu_data_callback s = record s { imu_callback = true }

  unfoldable pub request_quit : PubProcess F → PubProcess F
  request_quit s = record s { is_quit = true }

  -- The IMU branch of `OnLivoxLidarPointCloudCallback`. `slot` of the struct is not written.
  unfoldable pub send_imu_data :
      Sdk F → ℕ → ImuData F → ℕ → EthernetPacket → PubProcess F → Option (PubProcess F)
  send_imu_data sdk now garbage handle packet s =
      if s.imu_callback
      then (sdk.imu_of_bytes packet.data_bytes >>= λ imu. some (record s {
        imu_sent =
            s.imu_sent
            ++ record {
              lidar_type = livox_lidar_type;
              handle = handle;
              slot = garbage.slot;
              time_stamp = get_eth_packet_timestamp sdk now packet.time_type packet.timestamp;
              gyro_x = imu.gyro_x;
              gyro_y = imu.gyro_y;
              gyro_z = imu.gyro_z;
              acc_x = imu.acc_x;
              acc_y = imu.acc_y;
              acc_z = imu.acc_z;
            }
              ∷ [];
      }))
      else some s

  -- The packet that the callback queues: without points the division is undefined, and so is a
  -- `length` beyond the memory of the packet.
  unfoldable pub raw_packet_of : Sdk F → ℕ → ℕ → ℕ → EthernetPacket → Option RawPacket
  raw_packet_of sdk now handle dev_type packet =
      if packet.dot_num == 0
      then none
      else (read ((packet.length + u64 + 1 - sdk.packet_size) % u32) packet.data_bytes >>= λ bytes.
          some (record {
            lidar_type = livox_lidar_type;
            handle = handle;
            extrinsic_enable = false;
            point_num = packet.dot_num;
            data_type = packet.data_type;
            line_num = line_number sdk dev_type;
            time_stamp = get_eth_packet_timestamp sdk now packet.time_type packet.timestamp;
            point_interval = packet.time_interval * 100 / packet.dot_num;
            raw_data = bytes;
          }))

  -- `OnLivoxLidarPointCloudCallback`
  unfoldable pub on_livox_lidar_point_cloud_callback :
      Sdk F → ℕ → ImuData F → ℕ → ℕ → EthernetPacket → PubProcess F → Option (PubProcess F)
  on_livox_lidar_point_cloud_callback sdk now garbage handle dev_type packet s =
      let synced : PubProcess F = record s {
        timers = record s.timers {
          is_timestamp_sync = not (packet.time_type == sdk.time_type_no_sync);
        };
      } in
      if packet.data_type == sdk.imu_data_type
      then send_imu_data sdk now garbage handle packet synced
      else (raw_packet_of sdk now handle dev_type packet >>= λ raw.
          some (record synced { raw_packet_queue = synced.raw_packet_queue ++ raw ∷ [] }))

module _ (N : Numerics) where
  -- `SetPointCloudConfig`, in the uint64_t members.
  unfoldable pub set_point_cloud_config : N.Double → PubProcess N.Float → PubProcess N.Float
  set_point_cloud_config publish_freq s =
      let interval : ℕ =
        N.trunc (
          N.mul (N.div (N.of_nat 1_000_000_000) (N.mul publish_freq (N.of_nat 10)))
            (N.of_nat 10)) in
      record s {
        timers = record s.timers {
          publish_interval = interval;
          publish_interval_tolerance = (interval + u64 - ns_tolerant_frame_time_deviation) % u64;
          publish_interval_ms = interval / ratio_of_ms_to_ns;
        };
        point_process_thread = true;
      }

  -- The handler of a lidar, made on its first packet, with the extrinsic parameters if there are any.
  unfoldable pub prepared_handler : ℕ → PubProcess N.Float → LidarPubHandler N.Float
  prepared_handler id s =
      let found : LidarPubHandler N.Float = elim (handler_of id s.timers.handlers) [
        | none ↦ new_handler N
        | some h ↦ h
      ] in
      elim (value_at id s.lidar_extrinsics) [
        | none ↦ found
        | some param ↦ set_lidars_ext_param N param.param found
      ]

  -- The part of a round of `RawDataProcess` after it took a packet off the queue.
  unfoldable pub process_packet :
      Layout → ℕ → RawPacket → PubProcess N.Float → Option (PubProcess N.Float)
  process_packet layout now raw_data s =
      let id : ℕ = get_lidar_id raw_data.lidar_type raw_data.handle in
      point_cloud_process N layout raw_data (prepared_handler id s) >>= λ handler.
      check_timer now id (record s.timers { handlers = assign_at id handler s.timers.handlers })
      >>= λ timers. some (record s { timers = timers })

  -- One round of `RawDataProcess`; with an empty queue it has waited in vain.
  unfoldable pub raw_data_process_round :
      Layout → ℕ → PubProcess N.Float → Option (PubProcess N.Float)
  raw_data_process_round layout now s = elim s.raw_packet_queue [
    | [] ↦ some s
    | raw_data ∷ packets ↦
        process_packet layout now raw_data (record s { raw_packet_queue = packets })
  ]
