-- ===== src/Waypoint/Geometry.antt =====
-- What the waypoint manager uses of Eigen and <cmath>. A double is the type of the stamps.
use auto_fastlio.Prelude.{ℕ}
use auto_fastlio.Waypoint.{Poses}

pub record Vector (P : Poses) : Type 0 where
  pub x : P.Stamp
  pub y : P.Stamp
  pub z : P.Stamp

pub record Quaternion (P : Poses) : Type 0 where
  pub qx : P.Stamp
  pub qy : P.Stamp
  pub qz : P.Stamp
  pub qw : P.Stamp

-- Eigen and <cmath>. `quaternion` is of the linear part; `with_linear` replaces the linear part by
-- the matrix of a quaternion; `literal` takes a decimal fraction's numerator and denominator.
pub record Geometry (P : Poses) : Type 1 where
  pub translation : P.Pose → Vector P
  pub quaternion : P.Pose → Quaternion P
  pub normalized : Quaternion P → Quaternion P
  pub with_linear : Quaternion P → P.Pose → P.Pose
  pub plus : P.Stamp → P.Stamp → P.Stamp
  pub minus : P.Stamp → P.Stamp → P.Stamp
  pub times : P.Stamp → P.Stamp → P.Stamp
  pub atan2 : P.Stamp → P.Stamp → P.Stamp
  pub literal : ℕ → ℕ → P.Stamp
