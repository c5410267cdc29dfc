-- ===== src/AngleFilter/Scan.antt =====
-- A scan that has all its points: filter_cloud of lidar_angle_filter_node.cpp against the reference.
use auto_fastlio.Prelude.{
  ℕ, zero, suc, ◌+◌, ◌*◌, ◌%◌, ◌^◌, ◌≤◌, ◌<◌, ◌≡◌, refl, sym, ap, ◌∙◌, inl, inr, false, some, List,
  [], ◌∷◌, ◌++◌, if◌then◌else◌, length, drop, take, arith, Bool-cases, length-drop, read-eq-take,
  leb, ltb,
}
use auto_fastlio.Prelude.Int.{u64_of_int}
use auto_fastlio.Comm.{u32, u64}
use auto_fastlio.Comm.Text.{codes}
use auto_fastlio.Numerics.{Numerics}
use auto_fastlio.AngleFilter.{
  Angles, Host, Parameters, point_is_usable, Failure, ok, throws, >>>-eq-ok, scan_has_enough_points,
}
use auto_fastlio.AngleFilter.Cloud.{
  SensorMsgs, PointCloud2, read_coordinate, field_size, find_coordinate_field,
}
use auto_fastlio.AngleFilter.Bytes.{find_coordinate_field-fits, read_coordinate-inside}
use auto_fastlio.AngleFilter.Node.{
  LidarAngleFilterNode, Tally, Fields, no_points, is_kept, count_point, filter_point,
  filter_columns, filter_rows, find_fields, filtered_cloud, send_or_drop, try_filter, filter_cloud,
}
use auto_fastlio.AngleFilter.Spec.{
  row_points, points_from, points_of, survives, usable, survivors, joined, usable_count, add_points,
  add_points-nil, add_points-append, add_points-kept, add_points-lost, holds_at-read,
  add_points-start,
}

module _ (M : SensorMsgs) where
  -- The three coordinates lie within a point.
  pub record AreInside (cloud : PointCloud2 M) (f : Fields) : Type 0 where
    pub x : f.x_field.offset + field_size M f.x_field.datatype ≤ cloud.point_step
    pub y : f.y_field.offset + field_size M f.y_field.datatype ≤ cloud.point_step
    pub z : f.z_field.offset + field_size M f.z_field.datatype ≤ cloud.point_step

  -- The data has every point that the dimensions declare.
  abbrev pub IsComplete : PointCloud2 M → Type 0
  IsComplete cloud =
      (row column : ℕ)
      → row < cloud.height
      → column < cloud.width
      → row * cloud.row_step + column * cloud.point_step + cloud.point_step
        ≤ length cloud.data_bytes

  -- Less data than the address space has.
  abbrev pub IsSmall : PointCloud2 M → Type 0
  IsSmall cloud = length cloud.data_bytes < 2 ^ 63

module _ (M : SensorMsgs) where
  pub find_fields-AreInside :
      (cloud : PointCloud2 M) (f : Fields) → find_fields M cloud ≡ ok f → AreInside M cloud f
  unfolding find_fields
  find_fields-AreInside cloud f e =
      let (x, ex, rest) = >>>-eq-ok (find_coordinate_field M cloud (codes "x")) _ e in
      let (y, ey, rest') = >>>-eq-ok (find_coordinate_field M cloud (codes "y")) _ rest in
      let (z, ez, last) = >>>-eq-ok (find_coordinate_field M cloud (codes "z")) _ rest' in
      let same : f ≡ record { x_field = x; y_field = y; z_field = z } = ok_injective (sym last) in
      rw same (record {
        x = find_coordinate_field-fits M cloud (codes "x") x ex;
        y = find_coordinate_field-fits M cloud (codes "y") y ey;
        z = find_coordinate_field-fits M cloud (codes "z") z ez;
      })
    where
      ok_injective : {a b : Fields} → ok a ≡ ok b → a ≡ b
      ok_injective e = cc e

module _ (N : Numerics) (A : Angles N) (H : Host N) (M : SensorMsgs) where
  module _ (p : Parameters N) (f : Fields) (cloud : PointCloud2 M) where
    count_point-adds :
        (x y z : N.Double) (point : List ℕ) (t : Tally)
        → read_coordinate N H M point f.x_field cloud.is_bigendian ≡ some x
        → read_coordinate N H M point f.y_field cloud.is_bigendian ≡ some y
        → read_coordinate N H M point f.z_field cloud.is_bigendian ≡ some z
        → count_point N A H M p x y z (take cloud.point_step point) t
          ≡ add_points N A H M p f cloud t (point ∷ [])
    unfolding count_point
    count_point-adds x y z point t e1 e2 e3 =
        let same : survives N A H M p f cloud point ≡ is_kept N A H M p x y z =
          holds_at-read N A H M p f cloud (is_kept N A H M p) x y z point e1 e2 e3 in
        let counted : usable N A H M p f cloud point
            ≡ point_is_usable N A x y z p.min_usable_range =
          holds_at-read N A H M p f cloud (λ x y z. point_is_usable N A x y z p.min_usable_range) x
            y z point e1 e2 e3 in
        elim (Bool-cases (is_kept N A H M p x y z)) [
          | inl kept ↦
              rw kept (sym (add_points-kept N A H M p f cloud t point _ (same ∙ kept) counted))
          | inr lost ↦ rw lost (sym (add_points-lost N A H M p f cloud t point (same ∙ lost)))
        ]

    -- The body of the loop on a point within the data.
    pub filter_point-adds :
        (offset : ℕ) (t : Tally)
        → AreInside M cloud f
        → IsSmall M cloud
        → offset + cloud.point_step ≤ length cloud.data_bytes
        → filter_point N A H M p f cloud offset t
          ≡ ok (add_points N A H M p f cloud t (drop offset cloud.data_bytes ∷ []))
    unfolding filter_point
    filter_point-adds offset t inside small room =
        let point : List ℕ = drop offset cloud.data_bytes in
        let size : cloud.point_step ≤ length point =
          omega (arith, length-drop offset cloud.data_bytes) in
        let (x, e1) =
          read_coordinate-inside H M point f.x_field cloud.is_bigendian
            (omega (arith, size, inside.x)) in
        let (y, e2) =
          read_coordinate-inside H M point f.y_field cloud.is_bigendian
            (omega (arith, size, inside.y)) in
        let (z, e3) =
          read_coordinate-inside H M point f.z_field cloud.is_bigendian
            (omega (arith, size, inside.z)) in
        let fits : ltb (length cloud.data_bytes) ((offset + cloud.point_step) % 2 ^ 64) ≡ false =
          ground arith in
        rw (fits, e1, e2, e3, read-eq-take cloud.point_step point size)
          (ap ok (count_point-adds x y z point t e1 e2 e3))

    -- The loop over the columns from one on.
    filter_columns-adds :
        (row left column : ℕ) (t : Tally)
        → AreInside M cloud f
        → IsSmall M cloud
        → IsComplete M cloud
        → row < cloud.height
        → column + left ≡ cloud.width
        → filter_columns N A H M p f cloud (row * cloud.row_step) left column t
          ≡ ok (
              add_points N A H M p f cloud t
                (row_points N A H M cloud (row * cloud.row_step) left column))
    unfolding filter_columns row_points
    filter_columns-adds row zero column t inside small complete r w =
        ap ok (sym (add_points-nil N A H M p f cloud t))
    filter_columns-adds row (suc left) column t inside small complete r w =
        let room = complete row column r (omega arith) in
        let at : (row * cloud.row_step + column * cloud.point_step % 2 ^ 64) % 2 ^ 64
            ≡ row * cloud.row_step + column * cloud.point_step =
          omega (arith, room) in
        rw
          (
            at,
            filter_point-adds (row * cloud.row_step + column * cloud.point_step) t inside small
                room,
            filter_columns-adds row left (column + 1)
                (add_points N A H M p f cloud t
                  (drop (row * cloud.row_step + column * cloud.point_step) cloud.data_bytes ∷ []))
                inside small complete r (omega arith),
          )
          (ap ok (
            add_points-append N A H M p f cloud t
              (drop (row * cloud.row_step + column * cloud.point_step) cloud.data_bytes ∷ [])
              (row_points N A H M cloud (row * cloud.row_step) left (column + 1))))

    -- A whole row. Without columns its offset is not used.
    filter_row-adds :
        (row width : ℕ) (t : Tally)
        → AreInside M cloud f
        → IsSmall M cloud
        → IsComplete M cloud
        → row < cloud.height
        → width ≡ cloud.width
        → filter_columns N A H M p f cloud (row * cloud.row_step % 2 ^ 64) width 0 t
          ≡ ok (
              add_points N A H M p f cloud t
                (row_points N A H M cloud (row * cloud.row_step) width 0))
    filter_row-adds row zero t inside small complete r w =
        unfold filter_columns row_points in ap ok (sym (add_points-nil N A H M p f cloud t))
    filter_row-adds row (suc width) t inside small complete r w =
        let room = complete row 0 r (omega arith) in
        let at : row * cloud.row_step % 2 ^ 64 ≡ row * cloud.row_step = omega (arith, room) in
        rw at (filter_columns-adds row (suc width) 0 t inside small complete r (omega (arith, w)))

    filter_rows-adds :
        (left row : ℕ) (t : Tally)
        → AreInside M cloud f
        → IsSmall M cloud
        → IsComplete M cloud
        → row + left ≡ cloud.height
        → filter_rows N A H M p f cloud left row t
          ≡ ok (add_points N A H M p f cloud t (points_from N A H M cloud left row))
    unfolding filter_rows points_from
    filter_rows-adds zero row t inside small complete h =
        ap ok (sym (add_points-nil N A H M p f cloud t))
    filter_rows-adds (suc left) row t inside small complete h =
        rw
          (
            filter_row-adds row cloud.width t inside small complete (omega (arith, h)) refl,
            filter_rows-adds left (row + 1)
                (add_points N A H M p f cloud t
                  (row_points N A H M cloud (row * cloud.row_step) cloud.width 0))
                inside small complete (omega (arith, h)),
          )
          (ap ok (
            add_points-append N A H M p f cloud t
              (row_points N A H M cloud (row * cloud.row_step) cloud.width 0)
              (points_from N A H M cloud left (row + 1))))

  -- The outcome for a scan: the node once the scan is published, or counted as dropped.
  abbrev pub outcome : PointCloud2 M → Fields → LidarAngleFilterNode N M → LidarAngleFilterNode N M
  outcome cloud f node =
      let kept : List (List ℕ) =
        survivors N A H M node.parameters f cloud (points_of N A H M cloud) in
      let usable_points : ℕ = usable_count N A H M node.parameters f cloud kept in
      if leb (u64_of_int node.parameters.min_usable_points) usable_points
      then record node {
        published =
            node.published
            ++ record cloud {
              height = 1;
              width = length kept % u32;
              row_step = length kept % u32 * cloud.point_step % u32;
              data_bytes = joined N A H M node.parameters f cloud kept;
            }
              ∷ [];
      }
      else record node { dropped_scans = (node.dropped_scans + 1) % u64 }

  decided :
      (cloud : PointCloud2 M) (node : LidarAngleFilterNode N M) (bytes : List ℕ) (n masked u : ℕ)
      → send_or_drop N M cloud
          (record { kept = bytes; kept_points = n; masked_points = masked; usable_points = u })
          node
        ≡ (if leb (u64_of_int node.parameters.min_usable_points) u
            then record node {
              published =
                  node.published
                  ++ record cloud {
                    height = 1;
                    width = n % u32;
                    row_step = n % u32 * cloud.point_step % u32;
                    data_bytes = bytes;
                  }
                    ∷ [];
            }
            else record node { dropped_scans = (node.dropped_scans + 1) % u64 })
  unfolding send_or_drop scan_has_enough_points filtered_cloud
  decided cloud node bytes n masked u =
      elim (Bool-cases (leb (u64_of_int node.parameters.min_usable_points) u)) [
        | inl enough ↦ rw enough refl
        | inr few ↦ rw few refl
      ]

  try_filter-outcome :
      (cloud : PointCloud2 M) (f : Fields) (node : LidarAngleFilterNode N M)
      → find_fields M cloud ≡ ok f
      → IsSmall M cloud
      → IsComplete M cloud
      → try_filter N A H M cloud node ≡ ok (outcome cloud f node)
  unfolding try_filter
  try_filter-outcome cloud f node e small complete =
      let loops =
        filter_rows-adds node.parameters f cloud cloud.height 0 no_points
          (find_fields-AreInside M cloud f e) small complete (omega arith) in
      let all : List (List ℕ) = points_of N A H M cloud in
      rw (e, loops, add_points-start N A H M node.parameters f cloud all)
        (ap ok (decided cloud node _ _ _ _))

  pub filter_cloud-ok :
      (cloud : PointCloud2 M) (node node' : LidarAngleFilterNode N M)
      → try_filter N A H M cloud node ≡ ok node'
      → filter_cloud N A H M cloud node ≡ some node'
  unfolding filter_cloud
  filter_cloud-ok cloud node node' e = rw (e, filter_cloud) refl

  pub filter_cloud-throws :
      (cloud : PointCloud2 M) (node : LidarAngleFilterNode N M) (failure : Failure)
      → try_filter N A H M cloud node ≡ throws failure
      → filter_cloud N A H M cloud node ≡ some node
  unfolding filter_cloud
  filter_cloud-throws cloud node failure e = rw (e, filter_cloud) refl

  -- A scan with the three fields, float or double, within a point, and with all the points that its
  -- dimensions declare, in less than 2^63 bytes: `filter_cloud` returns. If at least
  -- `min_usable_points` of the points that are kept are usable, it publishes one scan, of one row,
  -- that has the bytes of the kept points, in order, and of nothing else; otherwise it publishes
  -- nothing and counts a dropped scan.
  pub filter_cloud_lem :
      (cloud : PointCloud2 M) (f : Fields) (node : LidarAngleFilterNode N M)
      → find_fields M cloud ≡ ok f
      → IsSmall M cloud
      → IsComplete M cloud
      → filter_cloud N A H M cloud node ≡ some (outcome cloud f node)
  filter_cloud_lem cloud f node e small complete =
      filter_cloud-ok cloud node _ (try_filter-outcome cloud f node e small complete)
