-- ===== src/Examples/Scans.antt =====
-- The angle filter on a scan of three points.
use auto_fastlio.Prelude.{
  ℕ, ◌+◌, ◌≡◌, refl, ◌⊎◌, true, false, some, List, [], ◌∷◌, ◌++◌, ◌==◌, leb, arith, replicate,
}
use auto_fastlio.Prelude.Decimal.{text_eq}
use auto_fastlio.Prelude.Int.{pos}
use auto_fastlio.Comm.Text.{codes}
use auto_fastlio.Examples.{whole_numbers}
use auto_fastlio.AngleFilter.{
  Angles, Host, Parameters, ok, point_is_masked, point_in_elevation_range, point_is_usable,
  scan_has_enough_points, in_sector, degrees_to_radians, angular_distance,
}
use auto_fastlio.AngleFilter.Cloud.{
  SensorMsgs, PointField, PointCloud2, field_named, find_coordinate_field, read_coordinate,
  host_is_big_endian,
}
use auto_fastlio.AngleFilter.Node.{
  LidarAngleFilterNode, Fields, find_fields, filter_cloud, try_filter, filter_rows, filter_columns,
  filter_point, count_point, is_kept, send_or_drop, filtered_cloud,
}
use auto_fastlio.AngleFilter.Scan.{IsComplete, outcome, filter_cloud_lem}
use auto_fastlio.AngleFilter.Errors.{filter_cloud-total}

abbrev pub msgs : SensorMsgs
msgs = record { Header = ℕ; float32 = 7; float64 = 8 }

abbrev angles : Angles whole_numbers
angles = record {
  is_finite = λ d. true;
  le = leb;
  eq = ◌==◌;
  atan2 = λ y x. y;
  hypot = λ a b. a + b;
  remainder = λ a b. a;
  abs = λ a. a;
}

abbrev first_byte : List ℕ → ℕ
first_byte [] = 0
first_byte (b ∷ bs) = b

-- Small numbers on a little-endian host.
abbrev small_host : Host whole_numbers
small_host = record {
  u16_bytes = λ n. (2, 1);
  float_bytes = λ v. v ∷ 0 ∷ 0 ∷ 0 ∷ [];
  float_of_bytes = first_byte;
  double_bytes = λ v. v ∷ replicate 7 0;
  double_of_bytes = first_byte;
}

abbrev limits : Parameters whole_numbers
limits = record {
  input_topic = codes "/in";
  output_topic = codes "/out";
  front_center_deg = 0;
  front_sector_deg = 0;
  back_sector_deg = 0;
  min_usable_points = pos 1;
  min_usable_range = 2;
  min_elevation_deg = 0;
  max_elevation_deg = 200;
}

abbrev node : LidarAngleFilterNode whole_numbers msgs
node = record { parameters = limits; dropped_scans = 0; published = [] }

abbrev float_field : List ℕ → ℕ → PointField
float_field name offset = record { name = name; offset = offset; datatype = 7; count = 1 }

abbrev point_bytes : ℕ → ℕ → ℕ → List ℕ
point_bytes x y z = x ∷ 0 ∷ 0 ∷ 0 ∷ y ∷ 0 ∷ 0 ∷ 0 ∷ z ∷ 0 ∷ 0 ∷ 0 ∷ []

abbrev scan_with : List ℕ → PointCloud2 msgs
scan_with bytes = record {
  header = 77;
  height = 1;
  width = 3;
  fields = float_field (codes "x") 0 ∷ float_field (codes "y") 4 ∷ float_field (codes "z") 8 ∷ [];
  is_bigendian = false;
  point_step = 12;
  row_step = 36;
  data_bytes = bytes;
  is_dense = true;
}

-- The second of the three points is too high.
abbrev scan : PointCloud2 msgs
scan = scan_with (point_bytes 5 6 1 ++ (point_bytes 5 6 9 ++ point_bytes 1 0 0))

abbrev kept_bytes : List ℕ
kept_bytes = point_bytes 5 6 1 ++ point_bytes 1 0 0

abbrev fields : Fields
fields = record {
  x_field = record { offset = 0; datatype = 7 };
  y_field = record { offset = 4; datatype = 7 };
  z_field = record { offset = 8; datatype = 7 };
}

scan_fields : find_fields msgs scan ≡ ok fields
unfolding find_fields find_coordinate_field field_named text_eq
scan_fields = refl

scan_run :
    filter_cloud whole_numbers angles small_host msgs scan node
    ≡ some (record node {
      published = record scan { width = 2; row_step = 24; data_bytes = kept_bytes } ∷ [];
    })
unfolding filter_cloud try_filter find_fields find_coordinate_field field_named filter_rows
    filter_columns filter_point count_point is_kept send_or_drop filtered_cloud
    scan_has_enough_points point_is_masked point_in_elevation_range point_is_usable in_sector
    degrees_to_radians angular_distance read_coordinate host_is_big_endian text_eq
scan_run = refl

scan-IsComplete : IsComplete msgs scan
scan-IsComplete row column r c = omega arith

filter_cloud_lem_example :
    filter_cloud whole_numbers angles small_host msgs scan node
    ≡ some (outcome whole_numbers angles small_host msgs scan fields node)
filter_cloud_lem_example =
    filter_cloud_lem whole_numbers angles small_host msgs scan fields node scan_fields (omega arith)
      scan-IsComplete

-- A scan that declares more points than it has.
abbrev short_scan : PointCloud2 msgs
short_scan = scan_with (point_bytes 5 6 1)

filter_cloud-total_example :
    (node' : LidarAngleFilterNode whole_numbers msgs) × (filter_cloud whole_numbers angles
        small_host msgs short_scan node
      ≡ some node')
    × ((node' ≡ node)
        ⊎ ((f : Fields) × (find_fields msgs short_scan ≡ ok f)
            × IsComplete msgs short_scan
            × (node' ≡ outcome whole_numbers angles small_host msgs short_scan f node)))
filter_cloud-total_example =
    filter_cloud-total whole_numbers angles small_host msgs short_scan node
      (record { step = omega arith; row = omega arith; small = omega arith })
