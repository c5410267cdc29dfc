-- ===== src/AngleFilter/Node.antt =====
-- The node of lidar_angle_filter_node.cpp: its constructor and filter_cloud. size_t has 64 bits.
-- The log messages are left out.
use auto_fastlio.Prelude.{
  ℕ, zero, suc, ◌+◌, ◌*◌, ◌%◌, Bool, false, not, Option, none, some, List, [], ◌∷◌, ◌++◌,
  if◌then◌else◌, ltb, length, drop, read,
}
use auto_fastlio.Prelude.Int.{u64_of_int}
use auto_fastlio.Comm.{u32, u64}
use auto_fastlio.Comm.Text.{codes}
use auto_fastlio.Numerics.{Numerics}
use auto_fastlio.AngleFilter.{
  Angles, Host, Parameters, short_data, Run, undefined, throws, ok, ◌>>>◌, reading, point_is_masked,
  point_in_elevation_range, point_is_usable, scan_has_enough_points, validate_parameters,
}
use auto_fastlio.AngleFilter.Cloud.{
  SensorMsgs, PointCloud2, CoordinateField, find_coordinate_field, read_coordinate,
}

-- `published`: the scans that were sent on, the oldest first.
pub record LidarAngleFilterNode (N : Numerics) (M : SensorMsgs) : Type 0 where
  pub parameters : Parameters N
  pub dropped_scans : ℕ
  pub published : List (PointCloud2 M)

-- The bytes kept so far, and the three counts.
pub record Tally : Type 0 where
  pub kept : List ℕ
  pub kept_points : ℕ
  pub masked_points : ℕ
  pub usable_points : ℕ

pub record Fields : Type 0 where
  pub x_field : CoordinateField
  pub y_field : CoordinateField
  pub z_field : CoordinateField

abbrev pub no_points : Tally
no_points = record { kept = []; kept_points = 0; masked_points = 0; usable_points = 0 }

module _ (M : SensorMsgs) where
  unfoldable pub find_fields : PointCloud2 M → Run Fields
  find_fields cloud = find_coordinate_field M cloud (codes "x") >>> λ x_field.
      find_coordinate_field M cloud (codes "y") >>> λ y_field.
      find_coordinate_field M cloud (codes "z") >>> λ z_field.
      ok (record { x_field = x_field; y_field = y_field; z_field = z_field })

  -- The scan that is sent on.
  unfoldable pub filtered_cloud : PointCloud2 M → Tally → PointCloud2 M
  filtered_cloud cloud t = record cloud {
    height = 1;
    width = t.kept_points % u32;
    row_step = t.kept_points % u32 * cloud.point_step % u32;
    data_bytes = t.kept;
  }

module _ (N : Numerics) (M : SensorMsgs) where
  unfoldable pub send_or_drop :
      PointCloud2 M → Tally → LidarAngleFilterNode N M → LidarAngleFilterNode N M
  send_or_drop cloud t node =
      if not (scan_has_enough_points t.usable_points (u64_of_int node.parameters.min_usable_points))
      then record node { dropped_scans = (node.dropped_scans + 1) % u64 }
      else record node { published = node.published ++ filtered_cloud M cloud t ∷ [] }

module _ (N : Numerics) (A : Angles N) (H : Host N) (M : SensorMsgs) where
  -- What the loop decides about a point.
  unfoldable pub is_kept : Parameters N → N.Double → N.Double → N.Double → Bool
  is_kept p x y z =
      if not (point_in_elevation_range N A x y z p.min_elevation_deg p.max_elevation_deg)
      then false
      else not (point_is_masked N A x y p.front_center_deg p.front_sector_deg p.back_sector_deg)

  unfoldable pub count_point :
      Parameters N → N.Double → N.Double → N.Double → List ℕ → Tally → Tally
  count_point p x y z bytes t =
      if is_kept p x y z
      then record t {
        kept = t.kept ++ bytes;
        kept_points = t.kept_points + 1;
        usable_points =
            if point_is_usable N A x y z p.min_usable_range
            then t.usable_points + 1
            else t.usable_points;
      }
      else record t { masked_points = t.masked_points + 1 }

  -- The body of the loop, for the point at `offset`.
  unfoldable pub filter_point : Parameters N → Fields → PointCloud2 M → ℕ → Tally → Run Tally
  filter_point p f cloud offset t =
      if ltb (length cloud.data_bytes) ((offset + cloud.point_step) % u64)
      then throws short_data
      else (let point : List ℕ = drop offset cloud.data_bytes in
          reading (read_coordinate N H M point f.x_field cloud.is_bigendian) >>> λ x.
          reading (read_coordinate N H M point f.y_field cloud.is_bigendian) >>> λ y.
          reading (read_coordinate N H M point f.z_field cloud.is_bigendian) >>> λ z.
          reading (read cloud.point_step point) >>> λ bytes. ok (count_point p x y z bytes t))

  -- The loop over the columns, with the number of them that is left, and that over the rows.
  unfoldable pub filter_columns :
      Parameters N → Fields → PointCloud2 M → ℕ → ℕ → ℕ → Tally → Run Tally
  filter_columns p f cloud row_offset zero column t = ok t
  filter_columns p f cloud row_offset (suc left) column t =
      filter_point p f cloud ((row_offset + column * cloud.point_step % u64) % u64) t >>> λ t'.
      filter_columns p f cloud row_offset left (column + 1) t'

  unfoldable pub filter_rows : Parameters N → Fields → PointCloud2 M → ℕ → ℕ → Tally → Run Tally
  filter_rows p f cloud zero row t = ok t
  filter_rows p f cloud (suc left) row t =
      filter_columns p f cloud (row * cloud.row_step % u64) cloud.width 0 t >>> λ t'.
      filter_rows p f cloud left (row + 1) t'

  -- `filter_cloud` up to its `catch`.
  unfoldable pub try_filter :
      PointCloud2 M → LidarAngleFilterNode N M → Run (LidarAngleFilterNode N M)
  try_filter cloud node = find_fields M cloud >>> λ f.
      filter_rows node.parameters f cloud cloud.height 0 no_points >>> λ t.
      ok (send_or_drop N M cloud t node)

  -- `filter_cloud`: an exception is logged, and the node stays as it is. `none`: undefined.
  unfoldable pub filter_cloud :
      PointCloud2 M → LidarAngleFilterNode N M → Option (LidarAngleFilterNode N M)
  filter_cloud cloud node = elim (try_filter cloud node) [
    | undefined ↦ none
    | throws e ↦ some node
    | ok node' ↦ some node'
  ]

  -- The constructor: it throws what `validate_parameters` throws.
  unfoldable pub new_filter : Parameters N → Run (LidarAngleFilterNode N M)
  new_filter p = elim (validate_parameters N A p) [
    | none ↦ ok (record { parameters = p; dropped_scans = 0; published = [] })
    | some e ↦ throws e
  ]
