-- ===== src/Examples/Maps.antt =====
-- The map node on a grid of 4 by 2 cells.
use auto_fastlio.Prelude.{
  ℕ, ◌^◌, ◌≡◌, refl, inl, inr, true, false, none, some, List, [], ◌∷◌, ◌++◌, if◌then◌else◌, ltb,
  arith, replicate, Bool-cases,
}
use auto_fastlio.Prelude.Int.{ℤ, pos}
use auto_fastlio.Comm.Text.{codes}
use auto_fastlio.Numerics.{Rounding}
use auto_fastlio.Examples.{whole_numbers}
use auto_fastlio.Pcd2Pgm.{PointXyz, Cloud, Pcl, Parameters, OccupancyGrid, write_cell}
use auto_fastlio.Pcd2Pgm.Raster.{
  filled_map, extent, set_map_topic_msg_fixed_bounds, set_map_topic_msg_dynamic_bounds, cell_of,
  cell_along, fixed_from, dynamic_from, mark_or_drop, mark_or_skip, is_inside_int, is_inside_u32,
}
use auto_fastlio.Pcd2Pgm.Node.{
  Pcd2PgmNode, blank_map, live_cloud_callback, cloud_message, map_message,
}
use auto_fastlio.Pcd2Pgm.Cells.{Shows, Fits, occupied}
use auto_fastlio.Pcd2Pgm.Bounds.{
  outside, cells_of, CastsToInt, set_map_topic_msg_fixed_bounds-Shows,
  set_map_topic_msg_dynamic_bounds-Shows,
}
use auto_fastlio.Pcd2Pgm.Extent.{IsOrder, IsLeast}
use auto_fastlio.Pcd2Pgm.Live.{live_cloud_callback-empty, live_cloud_callback-Shows}

abbrev whole : Rounding whole_numbers
whole = record {
  floor = λ d. d;
  ceil = λ d. d;
  to_int = λ d. if ltb d (2 ^ 31) then some (pos d) else none;
  to_u32 = λ d. if ltb d (2 ^ 32) then some d else none;
  max = 1000;
  lowest = 0;
}

-- Points with a height of 9 or more are cut off; none is an outlier.
abbrev low_points : Cloud whole_numbers → Cloud whole_numbers
low_points [] = []
low_points (p ∷ ps) = let rest = low_points ps in if ltb p.z 9 then p ∷ rest else rest

abbrev filters : Pcl whole_numbers
filters = record {
  PointCloud2 = List (PointXyz ℕ);
  from_ros_msg = λ m. m;
  to_ros_msg = λ c. c;
  load_file = λ name. none;
  pass_through = λ low high flag cloud. low_points cloud;
  radius_outlier = λ radius count cloud. cloud;
  move_back = λ x y z roll pitch yaw cloud. cloud;
}

abbrev settings : Parameters whole_numbers
settings = record {
  thre_z_min = 0;
  thre_z_max = 9;
  thre_radius = 1;
  flag_pass_through = false;
  map_resolution = 2;
  thres_point_count = pos 1;
  pcd_file = [];
  map_topic_name = codes "map";
  odom_to_lidar_odom = replicate 6 0;
  live_topic = codes "/cloud";
  fixed_origin_x = 10;
  fixed_origin_y = 20;
  fixed_width_m = 8;
  fixed_height_m = 4;
}

-- In cell (2, 1), in cell (0, 0), and beyond the last column.
abbrev seen : Cloud whole_numbers
seen =
    record { x = 15; y = 23; z = 1 }
    ∷ record { x = 10; y = 20; z = 1 }
    ∷ record { x = 30; y = 20; z = 1 }
    ∷ []

abbrev seen_cells : List (ℤ × ℤ)
seen_cells = (pos 2, pos 1) ∷ (pos 0, pos 0) ∷ (pos 10, pos 0) ∷ []

abbrev high : Cloud whole_numbers
high = record { x = 15; y = 23; z = 12 } ∷ []

abbrev empty_map : OccupancyGrid whole_numbers
empty_map = blank_map whole_numbers whole filters

abbrev node : Pcd2PgmNode whole_numbers filters
node = record {
  parameters = settings;
  pcd_cloud = some [];
  cloud_after_pass_through = none;
  cloud_after_radius = none;
  map_topic_msg = empty_map;
  subscribed = true;
  timed = false;
  published = [];
}

four_by_two : Fits 4 2
four_by_two = record { width = omega arith; height = omega arith; cells = omega arith }

seen-cells : cells_of whole_numbers whole 2 10 20 seen ≡ some seen_cells
unfolding cells_of cell_of cell_along
seen-cells = refl

-- The cells of the fixed grid, row by row, and the dropped point.
fixed_run :
    set_map_topic_msg_fixed_bounds whole_numbers whole settings 7 8 seen empty_map
    ≡ some (
      filled_map whole_numbers whole settings 7 8 4 2 10 20
          (100 ∷ 0 ∷ 0 ∷ 0 ∷ 0 ∷ 0 ∷ 100 ∷ 0 ∷ []),
      1,
    )
unfolding set_map_topic_msg_fixed_bounds fixed_from cell_of cell_along mark_or_drop is_inside_int
    write_cell
fixed_run = refl

-- The map of a bounding box has no cell for the points at its far edges: of three points on a
-- diagonal of two cells, the last is lost.
diagonal_run :
    set_map_topic_msg_dynamic_bounds whole_numbers whole settings 7 8
      (record { x = 10; y = 20; z = 1 }
        ∷ record { x = 12; y = 22; z = 1 }
        ∷ record { x = 14; y = 24; z = 1 }
        ∷ [])
      empty_map
    ≡ some (filled_map whole_numbers whole settings 7 8 2 2 10 20 (100 ∷ 0 ∷ 0 ∷ 100 ∷ []))
unfolding set_map_topic_msg_dynamic_bounds extent dynamic_from cell_of cell_along mark_or_skip
    is_inside_u32 write_cell
diagonal_run = refl

whole-CastsToInt : CastsToInt whole_numbers whole
whole-CastsToInt d n e = elim (Bool-cases (ltb d (2 ^ 31))) [
  | inl small ↦ ground (arith, small)
  | inr large ↦ ground (arith, large)
]

set_map_topic_msg_fixed_bounds-Shows_example :
    (cells : List ℕ) × (set_map_topic_msg_fixed_bounds whole_numbers whole settings 7 8 seen
        empty_map
      ≡ some (filled_map whole_numbers whole settings 7 8 4 2 10 20 cells, outside 4 2 seen_cells))
    × Shows 4 2 (occupied seen_cells) cells
set_map_topic_msg_fixed_bounds-Shows_example =
    set_map_topic_msg_fixed_bounds-Shows whole_numbers whole settings 7 8 4 2 seen seen_cells
      empty_map refl refl four_by_two seen-cells

abbrev corner : PointXyz ℕ
corner = record { x = 10; y = 20; z = 1 }

abbrev far : Cloud whole_numbers
far = record { x = 18; y = 24; z = 1 } ∷ []

far_cells :
    cells_of whole_numbers whole 2
      (extent whole_numbers whole (λ q. q.x) (corner ∷ far) 1000 0).0
      (extent whole_numbers whole (λ q. q.y) (corner ∷ far) 1000 0).0
      (corner ∷ far)
    ≡ some ((pos 0, pos 0) ∷ (pos 4, pos 2) ∷ [])
unfolding cells_of cell_of cell_along extent
far_cells = refl

whole-IsOrder : IsOrder whole_numbers.lt
whole-IsOrder = record { trans = λ a b c p q. ground arith; irrefl = λ a. ground arith }

set_map_topic_msg_dynamic_bounds-Shows_example :
    (cells : List ℕ) × (set_map_topic_msg_dynamic_bounds whole_numbers whole settings 7 8
        (corner ∷ far)
        empty_map
      ≡ some (
          filled_map whole_numbers whole settings 7 8 4 2
            (extent whole_numbers whole (λ q. q.x) (corner ∷ far) 1000 0).0
            (extent whole_numbers whole (λ q. q.y) (corner ∷ far) 1000 0).0
            cells))
    × Shows 4 2 (occupied ((pos 0, pos 0) ∷ (pos 4, pos 2) ∷ [])) cells
    × IsLeast whole_numbers whole
        (λ q. q.x)
        (corner ∷ far)
        (extent whole_numbers whole (λ q. q.x) (corner ∷ far) 1000 0).0
    × IsLeast whole_numbers whole
        (λ q. q.y)
        (corner ∷ far)
        (extent whole_numbers whole (λ q. q.y) (corner ∷ far) 1000 0).0
unfolding extent
set_map_topic_msg_dynamic_bounds-Shows_example =
    set_map_topic_msg_dynamic_bounds-Shows whole_numbers whole whole-CastsToInt whole-IsOrder
      settings 7 8 4 2 corner far ((pos 0, pos 0) ∷ (pos 4, pos 2) ∷ []) empty_map refl refl
      four_by_two far_cells

live_cloud_callback-empty_example :
    (node' : Pcd2PgmNode whole_numbers filters) × (live_cloud_callback whole_numbers whole filters 7
        8 high node
      ≡ some node')
    × (node'.map_topic_msg ≡ empty_map)
    × (node'.published ≡ [])
live_cloud_callback-empty_example =
    live_cloud_callback-empty whole_numbers whole filters node high 7 8 (inl refl)

live_cloud_callback-Shows_example :
    (cells : List ℕ) × (node' : Pcd2PgmNode whole_numbers filters) × (live_cloud_callback
        whole_numbers whole filters 7 8 seen node
      ≡ some node')
    × (node'.map_topic_msg ≡ filled_map whole_numbers whole settings 7 8 4 2 10 20 cells)
    × (node'.published
        ≡ [] ++ (cloud_message seen (codes "map") ∷ map_message node'.map_topic_msg ∷ []))
    × Shows 4 2 (occupied seen_cells) cells
live_cloud_callback-Shows_example =
    live_cloud_callback-Shows whole_numbers whole filters node seen 7 8 4 2
      (record { x = 15; y = 23; z = 1 }) (record { x = 15; y = 23; z = 1 })
      (record { x = 10; y = 20; z = 1 } ∷ record { x = 30; y = 20; z = 1 } ∷ [])
      (record { x = 10; y = 20; z = 1 } ∷ record { x = 30; y = 20; z = 1 } ∷ []) seen_cells refl
      refl refl refl four_by_two seen-cells
