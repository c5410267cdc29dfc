-- ===== src/Lddc/Messages.antt =====
-- The messages that lddc.cpp fills from a packet of the queue.
use auto_fastlio.Prelude.{
  ℕ, zero, suc, ◌+◌, ◌-◌, ◌*◌, ◌%◌, Bool, true, false, Option, some, List, [], ◌∷◌, ◌++◌, ◌==◌,
  if◌then◌else◌, get_elem?, ◌>>=◌,
}
use auto_fastlio.Comm.Text.{codes}
use auto_fastlio.Comm.{PointXyzlt, StoragePacket, ImuData, u32, u64, livox_lidar_type}
use auto_fastlio.Numerics.{Numerics}
use auto_fastlio.Lds.{Lds}

-- `sensor_msgs::msg::PointField`; the type is its ROS constant.
pub record PointField : Type 0 where
  pub offset : ℕ
  pub name : List ℕ
  pub count : ℕ
  pub datatype : ℕ

-- `LivoxPointXyzrtlt`, packed: four floats, two bytes and a double.
pub record LivoxPointXyzrtlt (N : Numerics) : Type 0 where
  pub x : N.Float
  pub y : N.Float
  pub z : N.Float
  pub reflectivity : N.Float
  pub tag : ℕ
  pub line : ℕ
  pub timestamp : N.Double

abbrev pub point_size : ℕ
point_size = 4 * 4 + 1 + 1 + 8

-- `points` is what the bytes of `data` hold.
pub record PointCloud2 (N : Numerics) : Type 0 where
  pub frame_id : List ℕ
  pub stamp : ℕ
  pub height : ℕ
  pub width : ℕ
  pub point_step : ℕ
  pub row_step : ℕ
  pub is_bigendian : Bool
  pub is_dense : Bool
  pub fields : List PointField
  pub points : List (LivoxPointXyzrtlt N)

pub record CustomPoint (F : Type 0) : Type 0 where
  pub offset_time : ℕ
  pub x : F
  pub y : F
  pub z : F
  pub reflectivity : ℕ
  pub tag : ℕ
  pub line : ℕ

pub record CustomMsg (F : Type 0) : Type 0 where
  pub frame_id : List ℕ
  pub stamp : ℕ
  pub timebase : ℕ
  pub point_num : ℕ
  pub lidar_id : ℕ
  pub points : List (CustomPoint F)

pub record ImuMsg (F : Type 0) : Type 0 where
  pub frame_id : List ℕ
  pub stamp : ℕ
  pub angular_velocity : F × F × F
  pub linear_acceleration : F × F × F

-- `PointField::FLOAT32`, `UINT8` and `FLOAT64`.
abbrev float32 : ℕ
float32 = 7

abbrev uint8 : ℕ
uint8 = 2

abbrev float64 : ℕ
float64 = 8

abbrev field_at : List ℕ → ℕ → ℕ → PointField
field_at name offset datatype = record {
  offset = offset;
  name = name;
  count = 1;
  datatype = datatype;
}

-- `InitPointcloud2MsgHeader`
unfoldable pub header_fields : List PointField
header_fields =
    field_at (codes "x") 0 float32
    ∷ field_at (codes "y") 4 float32
    ∷ field_at (codes "z") 8 float32
    ∷ field_at (codes "intensity") 12 float32
    ∷ field_at (codes "tag") 16 uint8
    ∷ field_at (codes "line") 17 uint8
    ∷ field_at (codes "timestamp") 18 float64
    ∷ []

-- `pkg.points[i]` for i = 0 … points_num - 1: `none` past the end of the vector.
unfoldable pub points_from :
    {F B : Type 0} → (PointXyzlt F → B) → ℕ → ℕ → List (PointXyzlt F) → Option (List B)
points_from f zero i points = some []
points_from f (suc rounds) i points =
    get_elem? points i >>= λ p. points_from f rounds (i + 1) points >>= λ rest. some (f p ∷ rest)

-- `pkg.points.empty() ? 0 : pkg.base_time`, as both messages take their time.
unfoldable pub stamp_of : {F : Type 0} → StoragePacket F → ℕ
stamp_of pkg = elim pkg.points [ [] ↦ 0 | _ ∷ _ ↦ pkg.base_time ]

module _ (N : Numerics) where
  unfoldable pub cloud_point : PointXyzlt N.Float → LivoxPointXyzrtlt N
  cloud_point p = record {
    x = p.x;
    y = p.y;
    z = p.z;
    reflectivity = p.intensity;
    tag = p.tag;
    line = p.line;
    timestamp = N.of_nat p.offset_time;
  }

  unfoldable pub init_pointcloud2_msg : List ℕ → StoragePacket N.Float → Option (PointCloud2 N)
  init_pointcloud2_msg frame_id pkg =
      points_from cloud_point pkg.points_num 0 pkg.points >>= λ points. some (record {
        frame_id = frame_id;
        fields = header_fields;
        stamp = stamp_of pkg;
        height = 1;
        width = pkg.points_num;
        point_step = point_size;
        row_step = pkg.points_num * point_size % u32;
        is_bigendian = false;
        is_dense = true;
        points = points;
      })

  -- `offset_time` is a difference in uint64_t, cut to uint32_t.
  unfoldable pub custom_point : ℕ → PointXyzlt N.Float → CustomPoint N.Float
  custom_point base_time p = record {
    offset_time = (p.offset_time + u64 - base_time) % u64 % u32;
    x = p.x;
    y = p.y;
    z = p.z;
    reflectivity = N.byte p.intensity;
    tag = p.tag;
    line = p.line;
  }

  unfoldable pub init_custom_msg :
      List ℕ → Lds N → StoragePacket N.Float → ℕ → Option (CustomMsg N.Float)
  init_custom_msg frame_id lds pkg index = get_elem? lds.lidars index >>= λ lidar. some (record {
    frame_id = frame_id;
    stamp = stamp_of pkg;
    timebase = stamp_of pkg;
    point_num = pkg.points_num;
    lidar_id = if lidar.lidar_type == livox_lidar_type then lidar.handle % 256 else 0;
    points = [];
  })

  unfoldable pub fill_points_to_custom_msg :
      CustomMsg N.Float → StoragePacket N.Float → Option (CustomMsg N.Float)
  fill_points_to_custom_msg livox_msg pkg =
      points_from (custom_point pkg.base_time) pkg.points_num 0 pkg.points >>= λ points.
      some (record livox_msg { points = livox_msg.points ++ points })

  unfoldable pub init_imu_msg : ImuData N.Float → ImuMsg N.Float
  init_imu_msg imu = record {
    frame_id = codes "livox_frame";
    stamp = imu.time_stamp;
    angular_velocity = (imu.gyro_x, imu.gyro_y, imu.gyro_z);
    linear_acceleration = (imu.acc_x, imu.acc_y, imu.acc_z);
  }
