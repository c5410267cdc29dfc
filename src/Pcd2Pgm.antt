-- ===== src/Pcd2Pgm.antt =====
-- The map node: pcd2pgm/src/pcd2pgm.cpp and include/pcd2pgm/pcd2pgm.hpp. The filters and the file
-- reader of PCL, and Eigen's transform, are the record `Pcl`.
pub mod Raster
pub mod Node
pub mod Cells
pub mod Extent
pub mod Bounds
pub mod Live
use auto_fastlio.Prelude.{
  ℕ, ◌+◌, ◌*◌, ◌%◌, ◌^◌, Bool, true, false, ◌&&◌, Option, none, some, List, [], ◌∷◌, ◌++◌, ◌>>=◌,
  if◌then◌else◌, length, set, replicate, get_elem?, ltb, ◌≡◌,
}
use auto_fastlio.Prelude.Int.{ℤ, pos, at_least_zero, int_lt, int_of_u32, u32_of_int}
use auto_fastlio.Comm.{u32}
use auto_fastlio.Comm.Text.{codes}
use auto_fastlio.Numerics.{Numerics, Rounding}

pub record PointXyz (F : Type 0) : Type 0 where
  pub x : F
  pub y : F
  pub z : F

abbrev pub Cloud : Numerics → Type 0
Cloud N = List (PointXyz N.Float)

-- `none` of `load_file` is the answer -1 of `loadPCDFile`.
pub record Pcl (N : Numerics) : Type 1 where
  pub PointCloud2 : Type 0
  pub from_ros_msg : PointCloud2 → Cloud N
  pub to_ros_msg : Cloud N → PointCloud2
  pub load_file : List ℕ → Option (Cloud N)
  pub pass_through : N.Double → N.Double → Bool → Cloud N → Cloud N
  pub radius_outlier : N.Double → ℤ → Cloud N → Cloud N
  -- The cloud moved by the inverse of a translation and three rotations.
  pub move_back :
      N.Double → N.Double → N.Double → N.Double → N.Double → N.Double → Cloud N → Cloud N

-- The parameters as they are declared, in doubles.
pub record Declared (N : Numerics) : Type 0 where
  pub pcd_file : List ℕ
  pub thre_z_min : N.Double
  pub thre_z_max : N.Double
  pub flag_pass_through : Bool
  pub thre_radius : N.Double
  pub map_resolution : N.Double
  pub thres_point_count : ℤ
  pub map_topic_name : List ℕ
  pub odom_to_lidar_odom : List N.Double
  pub live_topic : List ℕ
  pub fixed_origin_x : N.Double
  pub fixed_origin_y : N.Double
  pub fixed_width_m : N.Double
  pub fixed_height_m : N.Double

-- What the launch file sets: `none` where it sets nothing.
pub record Overrides (N : Numerics) : Type 0 where
  pub pcd_file : Option (List ℕ)
  pub thre_z_min : Option N.Double
  pub thre_z_max : Option N.Double
  pub flag_pass_through : Option Bool
  pub thre_radius : Option N.Double
  pub map_resolution : Option N.Double
  pub thres_point_count : Option ℤ
  pub map_topic_name : Option (List ℕ)
  pub odom_to_lidar_odom : Option (List N.Double)
  pub live_topic : Option (List ℕ)
  pub fixed_origin_x : Option N.Double
  pub fixed_origin_y : Option N.Double
  pub fixed_width_m : Option N.Double
  pub fixed_height_m : Option N.Double

-- The members that hold the parameters.
pub record Parameters (N : Numerics) : Type 0 where
  pub thre_z_min : N.Float
  pub thre_z_max : N.Float
  pub thre_radius : N.Float
  pub flag_pass_through : Bool
  pub map_resolution : N.Float
  pub thres_point_count : ℤ
  pub pcd_file : List ℕ
  pub map_topic_name : List ℕ
  pub odom_to_lidar_odom : List N.Double
  pub live_topic : List ℕ
  pub fixed_origin_x : N.Double
  pub fixed_origin_y : N.Double
  pub fixed_width_m : N.Double
  pub fixed_height_m : N.Double

abbrev pub or_default {ℓ} : {A : Type ℓ} → Option A → A → A
or_default none d = d
or_default (some a) d = a

-- The pose of cell (0, 0): a position and a quaternion.
pub record Origin (N : Numerics) : Type 0 where
  pub x : N.Double
  pub y : N.Double
  pub z : N.Double
  pub qx : N.Double
  pub qy : N.Double
  pub qz : N.Double
  pub qw : N.Double

-- `nav_msgs::msg::OccupancyGrid`. A cell is 0 or 100.
pub record OccupancyGrid (N : Numerics) : Type 0 where
  pub stamp : ℕ
  pub frame_id : List ℕ
  pub map_load_time : ℕ
  pub resolution : N.Float
  pub width : ℕ
  pub height : ℕ
  pub origin : Origin N
  pub data_cells : List ℕ

module _ (N : Numerics) where
  unfoldable pub declare_parameters : Overrides N → Declared N
  declare_parameters o = record {
    pcd_file = or_default o.pcd_file [];
    thre_z_min = or_default o.thre_z_min (N.literal 1 2);
    thre_z_max = or_default o.thre_z_max (N.literal 2 1);
    flag_pass_through = or_default o.flag_pass_through false;
    thre_radius = or_default o.thre_radius (N.literal 1 2);
    map_resolution = or_default o.map_resolution (N.literal 5 100);
    thres_point_count = or_default o.thres_point_count (pos 10);
    map_topic_name = or_default o.map_topic_name (codes "map");
    odom_to_lidar_odom = or_default o.odom_to_lidar_odom (replicate 6 (N.literal 0 1));
    live_topic = or_default o.live_topic [];
    fixed_origin_x = or_default o.fixed_origin_x (N.neg (N.literal 25 1));
    fixed_origin_y = or_default o.fixed_origin_y (N.neg (N.literal 25 1));
    fixed_width_m = or_default o.fixed_width_m (N.literal 50 1);
    fixed_height_m = or_default o.fixed_height_m (N.literal 50 1);
  }

  unfoldable pub get_parameters : Declared N → Parameters N
  get_parameters d = record {
    thre_z_min = N.narrow d.thre_z_min;
    thre_z_max = N.narrow d.thre_z_max;
    thre_radius = N.narrow d.thre_radius;
    flag_pass_through = d.flag_pass_through;
    map_resolution = N.narrow d.map_resolution;
    thres_point_count = d.thres_point_count;
    pcd_file = d.pcd_file;
    map_topic_name = d.map_topic_name;
    odom_to_lidar_odom = d.odom_to_lidar_odom;
    live_topic = d.live_topic;
    fixed_origin_x = d.fixed_origin_x;
    fixed_origin_y = d.fixed_origin_y;
    fixed_width_m = d.fixed_width_m;
    fixed_height_m = d.fixed_height_m;
  }

-- `msg.data[i + j * msg.info.width] = 100`, in uint32_t: `none` is a write out of bounds.
unfoldable pub write_cell : ℕ → ℤ → ℤ → List ℕ → Option (List ℕ)
write_cell width i j cells =
    let at : ℕ = (u32_of_int i + u32_of_int j * width) % u32 in
    if ltb at (length cells) then some (set cells at 100) else none
