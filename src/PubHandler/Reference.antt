-- ===== src/PubHandler/Reference.antt =====
-- The points of a packet one by one, apart from the loops of src/livox_ros_driver2/src/comm/pub_handler.cpp:
-- which formats there are, how many points a packet of each has, and what its point number n is.
use auto_fastlio.Prelude.{
  ℕ, zero, suc, ◌+◌, ◌*◌, ◌/◌, ◌%◌, Option, none, some, List, [], ◌∷◌, ◌++◌, ◌==◌, if◌then◌else◌,
  ◌>>=◌,
}
use auto_fastlio.Comm.{PointXyzlt}
use auto_fastlio.Numerics.{Numerics}
use auto_fastlio.PubHandler.{
  Layout, RawPacket, RawCartesian, ExtParameterDetailed, cartesian_point, spherical_point,
}

pub data Format : Type 0 where
  high_resolution low_resolution angles two_echoes other_format : Format

unfoldable pub format_of : Layout → ℕ → Format
format_of layout data_type =
    if data_type == layout.high_data
    then high_resolution
    else if data_type == layout.low_data
    then low_resolution
    else if data_type == layout.spherical_data
    then angles
    else if data_type == layout.double_echo_data
    then two_echoes
    else other_format

-- How many points a packet has: two for each record of double-echo data.
unfoldable pub point_count : Format → ℕ → ℕ
point_count high_resolution point_num = point_num
point_count low_resolution point_num = point_num
point_count angles point_num = point_num
point_count two_echoes point_num = 2 * point_num
point_count other_format point_num = 0

-- The rounds i, i + 1, … of a loop whose round pushes a list of points.
unfoldable pub rounds_of : {A : Type 0} → (ℕ → Option (List A)) → ℕ → ℕ → Option (List A)
rounds_of round zero i = some []
rounds_of round (suc rounds) i =
    round i >>= λ points. rounds_of round rounds (i + 1) >>= λ rest. some (points ++ rest)

-- The items number n, n + 1, ….
unfoldable pub items : {A : Type 0} → (ℕ → Option A) → ℕ → ℕ → Option (List A)
items item zero n = some []
items item (suc count) n = item n >>= λ a. items item count (n + 1) >>= λ rest. some (a ∷ rest)

module _ (N : Numerics) (layout : Layout) (ext : ExtParameterDetailed N.Float)
    (pkt : RawPacket) where
  -- Of two echoes, the even numbers are the first and the odd ones the second.
  unfoldable pub echo : ℕ → RawCartesian × RawCartesian → RawCartesian
  echo n (first, second) = if n % 2 == 0 then first else second

  unfoldable pub point_number : Format → ℕ → Option (PointXyzlt N.Float)
  point_number high_resolution n =
      layout.high pkt.raw_data n >>= λ raw. cartesian_point N 1000 ext pkt n raw
  point_number low_resolution n =
      layout.low pkt.raw_data n >>= λ raw. cartesian_point N 100 ext pkt n raw
  point_number angles n = layout.spherical pkt.raw_data n >>= λ raw. spherical_point N ext pkt n raw
  point_number two_echoes n = layout.double_echo pkt.raw_data (n / 2) >>= λ raws.
      cartesian_point N 1000 ext pkt (n / 2) (echo n raws)
  point_number other_format n = none

  -- All points of the packet, or none if one of them cannot be read.
  unfoldable pub packet_points : Option (List (PointXyzlt N.Float))
  packet_points =
      let format = format_of layout pkt.data_type in
      items (point_number format) (point_count format pkt.point_num) 0
