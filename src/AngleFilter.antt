-- ===== src/AngleFilter.antt =====
-- The angle filter: lidar_angle_filter/include/lidar_angle_filter/angle_filter.hpp and
-- lidar_angle_filter/src/lidar_angle_filter_node.cpp. <cmath> is the record `Angles`, and the
-- representation of numbers in memory the record `Host`.
pub mod Cloud
pub mod Node
pub mod Bytes
pub mod Spec
pub mod Scan
pub mod Errors
use auto_fastlio.Prelude.{
  ℕ, zero, suc, ◌+◌, ◌-◌, ◌^◌, Bool, true, false, not, ◌&&◌, ◌||◌, Option, none, some, List, [],
  ◌∷◌, ◌++◌, if◌then◌else◌, leb, ltb, ◌==◌, ◌≡◌, refl,
}
use auto_fastlio.Prelude.Int.{ℤ, pos, negsuc, at_least_zero}
use auto_fastlio.Prelude.Decimal.{text_eq}
use auto_fastlio.Numerics.{Numerics}

-- Comparisons and functions of a double.
pub record Angles (N : Numerics) : Type 0 where
  pub is_finite : N.Double → Bool
  pub le : N.Double → N.Double → Bool
  pub eq : N.Double → N.Double → Bool
  pub atan2 : N.Double → N.Double → N.Double
  pub hypot : N.Double → N.Double → N.Double
  pub remainder : N.Double → N.Double → N.Double
  pub abs : N.Double → N.Double

-- The bytes of a value in the order of the host's memory, and the value of such bytes.
pub record Host (N : Numerics) : Type 0 where
  pub u16_bytes : ℕ → ℕ × ℕ
  pub float_bytes : N.Float → List ℕ
  pub float_of_bytes : List ℕ → N.Float
  pub double_bytes : N.Double → List ℕ
  pub double_of_bytes : List ℕ → N.Double

-- The parameters of the node.
pub record Parameters (N : Numerics) : Type 0 where
  pub input_topic : List ℕ
  pub output_topic : List ℕ
  pub front_center_deg : N.Double
  pub front_sector_deg : N.Double
  pub back_sector_deg : N.Double
  pub min_usable_points : ℤ
  pub min_usable_range : N.Double
  pub min_elevation_deg : N.Double
  pub max_elevation_deg : N.Double

-- The exceptions: those of the constructor, and those of a scan with the name of the field.
pub data Failure : Type 0 where
  same_topics center_not_finite bad_gate bad_elevation bad_sector : Failure
  missing_field wrong_datatype beyond_point_step : List ℕ → Failure
  short_data : Failure

-- A step of the code: it reads out of bounds, throws, or ends normally.
pub data Run {ℓ} (A : Type ℓ) : Type ℓ where
  undefined : Run A
  throws : Failure → Run A
  ok : A → Run A

infixl 5 ◌>>>◌
abbrev pub ◌>>>◌ {ℓ κ} : {A : Type ℓ} {B : Type κ} → Run A → (A → Run B) → Run B
undefined >>> f = undefined
throws e >>> f = throws e
ok a >>> f = f a

-- A sequence that ends normally: both parts do.
pub >>>-eq-ok {ℓ κ} :
    {A : Type ℓ} {B : Type κ} (m : Run A) (f : A → Run B) {b : B}
    → (m >>> f) ≡ ok b
    → (a : A) × (m ≡ ok a) × (f a ≡ ok b)
>>>-eq-ok undefined f h = absurd (cc h)
>>>-eq-ok (throws e) f h = absurd (cc h)
>>>-eq-ok (ok a) f h = (a, refl, h)

-- A read: `none` is out of bounds.
abbrev pub reading {ℓ} : {A : Type ℓ} → Option A → Run A
reading none = undefined
reading (some a) = ok a

module _ (N : Numerics) (A : Angles N) where
  abbrev pub zero_point : N.Double
  zero_point = N.literal 0 1

  -- `kPi`
  abbrev pub pi : N.Double
  pi = N.literal 314_159_265_358_979_323_846 (10 ^ 20)

  unfoldable pub degrees_to_radians : N.Double → N.Double
  degrees_to_radians degrees = N.div (N.mul degrees pi) (N.literal 180 1)

  unfoldable pub angular_distance : N.Double → N.Double → N.Double
  angular_distance first second =
      A.abs (A.remainder (N.sub first second) (N.mul (N.literal 2 1) pi))

  -- One of the two sectors, around its centre.
  unfoldable pub in_sector : N.Double → N.Double → N.Double → Bool
  in_sector azimuth center sector_deg =
      N.lt zero_point sector_deg
      && A.le (angular_distance azimuth center)
          (N.add (N.mul (degrees_to_radians sector_deg) (N.literal 1 2)) (N.literal 1 (10 ^ 12)))

  unfoldable pub point_is_masked : N.Double → N.Double → N.Double → N.Double → N.Double → Bool
  point_is_masked x y front_center_deg front_sector_deg back_sector_deg =
      if not (A.is_finite x) || (not (A.is_finite y) || (A.eq x zero_point && A.eq y zero_point))
      then false
      else (let azimuth : N.Double = A.atan2 y x in
          let front_center : N.Double = degrees_to_radians front_center_deg in
          in_sector azimuth front_center front_sector_deg
          || in_sector azimuth (N.add front_center pi) back_sector_deg)

  unfoldable pub point_in_elevation_range :
      N.Double → N.Double → N.Double → N.Double → N.Double → Bool
  point_in_elevation_range x y z min_elevation_deg max_elevation_deg =
      if not (A.is_finite x) || (not (A.is_finite y) || not (A.is_finite z))
      then true
      else (let elevation_deg : N.Double =
            N.div (N.mul (A.atan2 z (A.hypot x y)) (N.literal 180 1)) pi in
          A.le min_elevation_deg elevation_deg && A.le elevation_deg max_elevation_deg)

  unfoldable pub point_is_usable : N.Double → N.Double → N.Double → N.Double → Bool
  point_is_usable x y z min_range =
      if not (A.is_finite x) || (not (A.is_finite y) || not (A.is_finite z))
      then false
      else A.le (N.mul min_range min_range) (N.add (N.add (N.mul x x) (N.mul y y)) (N.mul z z))

  unfoldable pub valid_sector_width : N.Double → Bool
  valid_sector_width width =
      A.is_finite width && (A.le zero_point width && A.le width (N.literal 180 1))

  -- `validate_parameters`: the first exception it throws, if any.
  unfoldable pub validate_parameters : Parameters N → Option Failure
  validate_parameters p =
      if text_eq p.input_topic p.output_topic
      then some same_topics
      else if not (A.is_finite p.front_center_deg)
      then some center_not_finite
      else if not (at_least_zero p.min_usable_points)
          || (not (A.is_finite p.min_usable_range) || N.lt p.min_usable_range zero_point)
      then some bad_gate
      else if not (A.is_finite p.min_elevation_deg)
          || (not (A.is_finite p.max_elevation_deg)
              || (N.lt p.min_elevation_deg (N.neg (N.literal 90 1))
                  || (N.lt (N.literal 90 1) p.max_elevation_deg
                      || A.le p.max_elevation_deg p.min_elevation_deg)))
      then some bad_elevation
      else if not (valid_sector_width p.front_sector_deg)
          || not (valid_sector_width p.back_sector_deg)
      then some bad_sector
      else none

unfoldable pub scan_has_enough_points : ℕ → ℕ → Bool
scan_has_enough_points usable_points min_usable_points = leb min_usable_points usable_points
