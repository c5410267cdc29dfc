-- ===== src/PubHandler.antt =====
-- Point processing: src/livox_ros_driver2/src/comm/pub_handler.h and pub_handler.cpp, the part of a
-- single lidar (LidarPubHandler). `none` is undefined behaviour: a read past the packet's bytes, or
-- a remainder by 0. The float operations are the double ones, rounded.
pub mod Timer
pub mod Points
pub mod Conservation
pub mod Reference
pub mod Rounds
pub mod Process
pub mod Queue
pub mod Arrival
use auto_fastlio.Prelude.{
  ℕ, zero, suc, ◌+◌, ◌*◌, ◌%◌, Bool, true, false, Option, none, some, List, [], ◌∷◌, ◌++◌, ◌==◌,
  if◌then◌else◌, ◌>>=◌,
}
use auto_fastlio.Prelude.Int.{ℤ}
use auto_fastlio.Comm.{u64, PointXyzlt, ExtParameter, livox_lidar_type}
use auto_fastlio.Numerics.{Numerics}

-- The points of a packet as the SDK's packed structs show them.
pub record RawCartesian : Type 0 where
  pub x : ℤ
  pub y : ℤ
  pub z : ℤ
  pub reflectivity : ℕ
  pub tag : ℕ

pub record RawSpherical : Type 0 where
  pub depth : ℕ
  pub theta : ℕ
  pub phi : ℕ
  pub reflectivity : ℕ
  pub tag : ℕ

-- `raw[i]` of the bytes cast to each of the structs; none past the end.
pub record Layout : Type 0 where
  pub high : List ℕ → ℕ → Option RawCartesian
  pub low : List ℕ → ℕ → Option RawCartesian
  pub spherical : List ℕ → ℕ → Option RawSpherical
  pub double_echo : List ℕ → ℕ → Option (RawCartesian × RawCartesian)
  -- The values of `data_type`.
  pub high_data : ℕ
  pub low_data : ℕ
  pub spherical_data : ℕ
  pub double_echo_data : ℕ

pub record RawPacket : Type 0 where
  pub lidar_type : ℕ
  pub handle : ℕ
  pub extrinsic_enable : Bool
  pub point_num : ℕ
  pub data_type : ℕ
  pub line_num : ℕ
  pub time_stamp : ℕ
  pub point_interval : ℕ
  pub raw_data : List ℕ

-- A row of the rotation, with the translation of that axis.
pub record Row (F : Type 0) : Type 0 where
  pub r₀ : F
  pub r₁ : F
  pub r₂ : F
  pub trans : F

pub record ExtParameterDetailed (F : Type 0) : Type 0 where
  pub row_x : Row F
  pub row_y : Row F
  pub row_z : Row F

pub record LidarPubHandler (F : Type 0) : Type 0 where
  pub points_clouds : List (PointXyzlt F)
  pub extrinsic : ExtParameterDetailed F
  pub is_set_extrinsic_params : Bool

module _ (N : Numerics) where
  -- Products and sums of floats, and an integer as a float.
  unfoldable pub float_mul : N.Float → N.Float → N.Float
  float_mul a b = N.narrow (N.mul (N.widen a) (N.widen b))

  unfoldable pub float_add : N.Float → N.Float → N.Float
  float_add a b = N.narrow (N.add (N.widen a) (N.widen b))

  unfoldable pub to_float : ℤ → N.Float
  to_float i = N.narrow (N.of_int i)

  unfoldable pub float_of_nat : ℕ → N.Float
  float_of_nat n = N.narrow (N.of_nat n)

  abbrev pub pi : N.Double
  pi = N.literal 314159265358979323846 100000000000000000000

  -- The default of the member: its second row is 0, 1, 1.
  unfoldable pub new_handler : LidarPubHandler N.Float
  new_handler = record {
    points_clouds = [];
    extrinsic = record {
      row_x = record {
        r₀ = float_of_nat 1;
        r₁ = float_of_nat 0;
        r₂ = float_of_nat 0;
        trans = float_of_nat 0;
      };
      row_y = record {
        r₀ = float_of_nat 0;
        r₁ = float_of_nat 1;
        r₂ = float_of_nat 1;
        trans = float_of_nat 0;
      };
      row_z = record {
        r₀ = float_of_nat 0;
        r₁ = float_of_nat 0;
        r₂ = float_of_nat 1;
        trans = float_of_nat 0;
      };
    };
    is_set_extrinsic_params = false;
  }

  -- An angle in degrees, times PI / 180.
  unfoldable pub radians : N.Float → N.Double
  radians angle = N.div (N.mul (N.widen angle) pi) (N.of_nat 180)

  -- `SetLidarsExtParam`, once.
  unfoldable pub set_lidars_ext_param :
      ExtParameter N.Float → LidarPubHandler N.Float → LidarPubHandler N.Float
  set_lidars_ext_param param h =
      if h.is_set_extrinsic_params
      then h
      else let cos_roll = N.cos (radians param.roll) in
        let cos_pitch = N.cos (radians param.pitch) in
        let cos_yaw = N.cos (radians param.yaw) in
        let sin_roll = N.sin (radians param.roll) in
        let sin_pitch = N.sin (radians param.pitch) in
        let sin_yaw = N.sin (radians param.yaw) in
        record h {
          extrinsic = record {
            row_x = record {
              r₀ = N.narrow (N.mul cos_pitch cos_yaw);
              r₁ =
                  N.narrow
                    (N.sub (N.mul (N.mul sin_roll sin_pitch) cos_yaw) (N.mul cos_roll sin_yaw));
              r₂ =
                  N.narrow
                    (N.add (N.mul (N.mul cos_roll sin_pitch) cos_yaw) (N.mul sin_roll sin_yaw));
              trans = to_float param.x;
            };
            row_y = record {
              r₀ = N.narrow (N.mul cos_pitch sin_yaw);
              r₁ =
                  N.narrow
                    (N.add (N.mul (N.mul sin_roll sin_pitch) sin_yaw) (N.mul cos_roll cos_yaw));
              r₂ =
                  N.narrow
                    (N.sub (N.mul (N.mul cos_roll sin_pitch) sin_yaw) (N.mul sin_roll cos_yaw));
              trans = to_float param.y;
            };
            row_z = record {
              r₀ = N.narrow (N.neg sin_pitch);
              r₁ = N.narrow (N.mul sin_roll cos_pitch);
              r₂ = N.narrow (N.mul cos_roll cos_pitch);
              trans = to_float param.z;
            };
          };
          is_set_extrinsic_params = true;
        }

  -- `(raw.x * r[0] + raw.y * r[1] + raw.z * r[2] + t) / unit`, the sum in float, the quotient in double.
  unfoldable pub moved : ℕ → RawCartesian → Row N.Float → N.Float
  moved unit raw row =
      let sum =
        float_add
          (float_add
            (float_add (float_mul (to_float raw.x) row.r₀) (float_mul (to_float raw.y) row.r₁))
            (float_mul (to_float raw.z) row.r₂))
          row.trans in
      N.narrow (N.div (N.widen sum) (N.of_nat unit))

  unfoldable pub scaled : ℕ → ℤ → N.Float
  scaled unit i = N.narrow (N.div (N.of_int i) (N.of_nat unit))

  -- A point that is number i of its packet, at a place. `line` is undefined without lines.
  unfoldable pub point_at :
      RawPacket → ℕ → ℕ → ℕ → N.Float × N.Float × N.Float → Option (PointXyzlt N.Float)
  point_at pkt i reflectivity tag (px, py, pz) =
      if pkt.line_num == 0
      then none
      else some (record {
        x = px;
        y = py;
        z = pz;
        intensity = float_of_nat reflectivity;
        tag = tag;
        line = i % pkt.line_num;
        offset_time = (pkt.time_stamp + i * pkt.point_interval) % u64;
      })

  -- The body of the loops of the two Cartesian formats, in 1 / unit metres.
  unfoldable pub cartesian_point :
      ℕ → ExtParameterDetailed N.Float → RawPacket → ℕ → RawCartesian → Option (PointXyzlt N.Float)
  cartesian_point unit ext pkt i raw = point_at pkt i raw.reflectivity raw.tag (
      if pkt.extrinsic_enable
      then (scaled unit raw.x, scaled unit raw.y, scaled unit raw.z)
      else (moved unit raw ext.row_x, moved unit raw ext.row_y, moved unit raw ext.row_z))

  -- `s.x * r[0] + s.y * r[1] + s.z * r[2] + (t / 1000.0)`, in double.
  unfoldable pub moved_double : N.Double × N.Double × N.Double → Row N.Float → N.Float
  moved_double (sx, sy, sz) row =
      let sum =
        N.add (N.add (N.mul sx (N.widen row.r₀)) (N.mul sy (N.widen row.r₁)))
          (N.mul sz (N.widen row.r₂)) in
      N.narrow (N.add sum (N.div (N.widen row.trans) (N.of_nat 1000)))

  unfoldable pub spherical_point :
      ExtParameterDetailed N.Float → RawPacket → ℕ → RawSpherical → Option (PointXyzlt N.Float)
  spherical_point ext pkt i raw =
      let radius = N.div (N.of_nat raw.depth) (N.of_nat 1000) in
      let theta = N.mul (N.div (N.div (N.of_nat raw.theta) (N.of_nat 100)) (N.of_nat 180)) pi in
      let phi = N.mul (N.div (N.div (N.of_nat raw.phi) (N.of_nat 100)) (N.of_nat 180)) pi in
      let sx = N.mul (N.mul radius (N.sin theta)) (N.cos phi) in
      let sy = N.mul (N.mul radius (N.sin theta)) (N.sin phi) in
      let sz = N.mul radius (N.cos theta) in
      point_at pkt i raw.reflectivity raw.tag (
        if pkt.extrinsic_enable then (N.narrow sx, N.narrow sy, N.narrow sz) else (
          moved_double (sx, sy, sz) ext.row_x,
          moved_double (sx, sy, sz) ext.row_y,
          moved_double (sx, sy, sz) ext.row_z,
        ))

  -- The points that round i of each loop pushes.
  unfoldable pub round_points :
      Layout → ExtParameterDetailed N.Float → RawPacket → ℕ → Option (List (PointXyzlt N.Float))
  round_points layout ext pkt i =
      if pkt.data_type == layout.high_data
      then (layout.high pkt.raw_data i >>= λ raw.
          cartesian_point 1000 ext pkt i raw >>= λ p. some (p ∷ []))
      else if pkt.data_type == layout.low_data
      then (layout.low pkt.raw_data i >>= λ raw.
          cartesian_point 100 ext pkt i raw >>= λ p. some (p ∷ []))
      else if pkt.data_type == layout.spherical_data
      then (layout.spherical pkt.raw_data i >>= λ raw.
          spherical_point ext pkt i raw >>= λ p. some (p ∷ []))
      else if pkt.data_type == layout.double_echo_data
      then (layout.double_echo pkt.raw_data i >>= λ (raw₁, raw₂).
          cartesian_point 1000 ext pkt i raw₁ >>= λ p₁.
          cartesian_point 1000 ext pkt i raw₂ >>= λ p₂. some (p₁ ∷ p₂ ∷ []))
      else some []

  -- `for (i = 0; i < pkt.point_num; i++)`, with the rounds left.
  unfoldable pub process_from :
      Layout → RawPacket → ℕ → ℕ → LidarPubHandler N.Float → Option (LidarPubHandler N.Float)
  process_from layout pkt zero i h = some h
  process_from layout pkt (suc rounds) i h = round_points layout h.extrinsic pkt i >>= λ points.
      process_from layout pkt rounds (i + 1)
        (record h { points_clouds = h.points_clouds ++ points })

  -- `PointCloudProcess`: packets of another protocol, or of an unknown data type, are passed over.
  unfoldable pub point_cloud_process :
      Layout → RawPacket → LidarPubHandler N.Float → Option (LidarPubHandler N.Float)
  point_cloud_process layout pkt h =
      if pkt.lidar_type == livox_lidar_type
      then process_from layout pkt pkt.point_num 0 h
      else some h
