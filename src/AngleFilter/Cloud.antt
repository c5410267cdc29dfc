-- ===== src/AngleFilter/Cloud.antt =====
-- The scans of lidar_angle_filter_node.cpp and how their coordinates are read: CoordinateField,
-- find_coordinate_field, byte_swap, host_is_big_endian and read_coordinate.
use mathlib.Core.List.{reverse}
use auto_fastlio.Prelude.{
  ℕ, ◌+◌, Bool, true, false, not, ◌&&◌, Option, none, some, List, [], ◌∷◌, ◌>>=◌, if◌then◌else◌,
  ltb, ◌==◌, drop, read,
}
use auto_fastlio.Prelude.Decimal.{text_eq}
use auto_fastlio.Numerics.{Numerics}
use auto_fastlio.AngleFilter.{
  Host, Run, throws, ok, missing_field, wrong_datatype, beyond_point_step,
}

-- What sensor_msgs declares.
pub record SensorMsgs : Type 1 where
  pub Header : Type 0
  pub float32 : ℕ
  pub float64 : ℕ

pub record PointField : Type 0 where
  pub name : List ℕ
  pub offset : ℕ
  pub datatype : ℕ
  pub count : ℕ

pub record PointCloud2 (M : SensorMsgs) : Type 0 where
  pub header : M.Header
  pub height : ℕ
  pub width : ℕ
  pub fields : List PointField
  pub is_bigendian : Bool
  pub point_step : ℕ
  pub row_step : ℕ
  pub data_bytes : List ℕ
  pub is_dense : Bool

pub record CoordinateField : Type 0 where
  pub offset : ℕ
  pub datatype : ℕ

-- `std::find_if`
unfoldable pub field_named : List ℕ → List PointField → Option PointField
field_named name [] = none
field_named name (f ∷ fs) =
    let rest : Option PointField = field_named name fs in
    if text_eq f.name name then some f else rest

module _ (M : SensorMsgs) where
  -- `sizeof(float)` or `sizeof(double)`
  abbrev pub field_size : ℕ → ℕ
  field_size datatype = if datatype == M.float32 then 4 else 8

  unfoldable pub find_coordinate_field : PointCloud2 M → List ℕ → Run CoordinateField
  find_coordinate_field cloud name = elim (field_named name cloud.fields) [
    | none ↦ throws (missing_field name)
    | some field ↦
        if not (field.datatype == M.float32) && not (field.datatype == M.float64)
        then throws (wrong_datatype name)
        else if ltb cloud.point_step (field.offset + field_size field.datatype)
        then throws (beyond_point_step name)
        else ok (record { offset = field.offset; datatype = field.datatype })
  ]

-- `byte_swap` through the bytes of its type.
unfoldable pub byte_swap {ℓ} : {T : Type ℓ} → (T → List ℕ) → (List ℕ → T) → T → T
byte_swap bytes of_bytes value = of_bytes (reverse (bytes value))

abbrev pub bool_eq : Bool → Bool → Bool
bool_eq true b = b
bool_eq false b = not b

module _ (N : Numerics) (H : Host N) (M : SensorMsgs) where
  unfoldable pub host_is_big_endian : Bool
  host_is_big_endian = (H.u16_bytes 258).0 == 1

  -- `point` is the memory from the pointer on: a read past its end is `none`.
  unfoldable pub read_coordinate : List ℕ → CoordinateField → Bool → Option N.Double
  read_coordinate point field cloud_is_big_endian =
      if field.datatype == M.float32
      then (read 4 (drop field.offset point) >>= λ bytes.
          let value : N.Float = H.float_of_bytes bytes in
          some (
            N.widen (
              if not (bool_eq cloud_is_big_endian host_is_big_endian)
              then byte_swap H.float_bytes H.float_of_bytes value
              else value)))
      else (read 8 (drop field.offset point) >>= λ bytes.
          let value : N.Double = H.double_of_bytes bytes in
          some (
            if not (bool_eq cloud_is_big_endian host_is_big_endian)
            then byte_swap H.double_bytes H.double_of_bytes value
            else value))
