-- ===== src/Comm.antt =====
-- The shared data types of src/livox_ros_driver2/src/comm/comm.h and lidar_imu_data_queue.h.
-- A C++ float is a value of a type parameter F; an unsigned integer is a native number.
pub mod Text
use auto_fastlio.Prelude.{ℕ, ◌^◌, List}
use auto_fastlio.Prelude.Int.{ℤ}

abbrev pub u32 : ℕ
u32 = 2 ^ 32

abbrev pub u64 : ℕ
u64 = 2 ^ 64

-- `kMaxSourceLidar`
abbrev pub max_source_lidar : ℕ
max_source_lidar = 32

-- `kLivoxLidarType`
abbrev pub livox_lidar_type : ℕ
livox_lidar_type = 8

-- `kNsTolerantFrameTimeDeviation` and `kRatioOfMsToNs`
abbrev pub ns_tolerant_frame_time_deviation : ℕ
ns_tolerant_frame_time_deviation = 1_000_000

abbrev pub ratio_of_ms_to_ns : ℕ
ratio_of_ms_to_ns = 1_000_000

pub record PointXyzlt (F : Type 0) : Type 0 where
  pub x : F
  pub y : F
  pub z : F
  pub intensity : F
  pub tag : ℕ
  pub line : ℕ
  pub offset_time : ℕ

-- `points` is the block that the pointer of that name leads to.
pub record PointPacket (F : Type 0) : Type 0 where
  pub handle : ℕ
  pub lidar_type : ℕ
  pub points_num : ℕ
  pub points : List (PointXyzlt F)

pub record StoragePacket (F : Type 0) : Type 0 where
  pub lidar_type : ℕ
  pub handle : ℕ
  pub base_time : ℕ
  pub points_num : ℕ
  pub points : List (PointXyzlt F)

pub record ImuData (F : Type 0) : Type 0 where
  pub lidar_type : ℕ
  pub handle : ℕ
  pub slot : ℕ
  pub time_stamp : ℕ
  pub gyro_x : F
  pub gyro_y : F
  pub gyro_z : F
  pub acc_x : F
  pub acc_y : F
  pub acc_z : F

-- `LidarConnectState`
pub data LidarConnectState : Type 0 where
  off on config sampling : LidarConnectState

-- The angles are floats in degrees; the translation is in millimetres, int32_t.
pub record ExtParameter (F : Type 0) : Type 0 where
  pub roll : F
  pub pitch : F
  pub yaw : F
  pub x : ℤ
  pub y : ℤ
  pub z : ℤ

pub record LidarExtParameter (F : Type 0) : Type 0 where
  pub lidar_type : ℕ
  pub handle : ℕ
  pub param : ExtParameter F

-- The int8_t and int32_t settings are integers; -1 means that the setting was left out.
pub record UserLivoxLidarConfig (F : Type 0) : Type 0 where
  pub handle : ℕ
  pub pcl_data_type : ℤ
  pub pattern_mode : ℤ
  pub blind_spot_set : ℤ
  pub dual_emit_en : ℤ
  pub extrinsic_param : ExtParameter F
  pub set_bits : ℕ
  pub get_bits : ℕ

-- The arrays `base_time` and `lidar_point` have `max_source_lidar` elements in C++.
pub record PointFrame (F : Type 0) : Type 0 where
  pub base_time : List ℕ
  pub lidar_num : ℕ
  pub lidar_point : List (PointPacket F)
