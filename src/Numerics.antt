-- ===== src/Numerics.antt =====
-- The floating-point arithmetic that the program runs on: IEEE 754 operations and <cmath>, which
-- are not part of the repository. Every definition that computes with them takes this record.
use auto_fastlio.Prelude.{ℕ, Bool, Option}
use auto_fastlio.Prelude.Int.{ℤ}

pub record Numerics : Type 1 where
  pub Float : Type 0
  pub Double : Type 0
  -- Conversions: of an integer, of a literal fraction a / b, between the two types, and the
  -- truncating casts to uint32_t and, of a float, to uint8_t.
  pub of_int : ℤ → Double
  pub of_nat : ℕ → Double
  pub literal : ℕ → ℕ → Double
  pub widen : Float → Double
  pub narrow : Double → Float
  pub trunc : Double → ℕ
  pub byte : Float → ℕ
  -- Arithmetic.
  pub add : Double → Double → Double
  pub sub : Double → Double → Double
  pub mul : Double → Double → Double
  pub div : Double → Double → Double
  pub neg : Double → Double
  pub sin : Double → Double
  pub cos : Double → Double
  pub lt : Double → Double → Bool

-- <cmath> and the casts that the map node needs. A cast of a value that the integer type cannot
-- hold is undefined: `none`.
pub record Rounding (N : Numerics) : Type 0 where
  pub floor : N.Double → N.Double
  pub ceil : N.Double → N.Double
  pub to_int : N.Double → Option ℤ
  pub to_u32 : N.Double → Option ℕ
  -- `std::numeric_limits<double>`
  pub max : N.Double
  pub lowest : N.Double
