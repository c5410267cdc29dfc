-- ===== src/Examples/Timers.antt =====
-- The timers of the point processing.
use auto_fastlio.Prelude.{ℕ, ◌>>=◌, ◌≡◌, refl, true, some, none, List, [], ◌∷◌}
use auto_fastlio.Prelude.Int.{pos}
use auto_fastlio.Comm.{ExtParameter, PointXyzlt, PointFrame}
use auto_fastlio.PubHandler.{
  LidarPubHandler, new_handler, RawCartesian, Layout, RawPacket, cartesian_point, point_at, scaled,
  float_of_nat, point_cloud_process,
}
use auto_fastlio.PubHandler.Reference.{
  packet_points, point_number, point_count, format_of, items, echo,
}
use auto_fastlio.PubHandler.Process.{grown, point_cloud_process_lem}
use auto_fastlio.PubHandler.Timer.{PubHandler}
use auto_fastlio.Examples.{whole_numbers, point}

-- A point at 100 ms, the end of a frame at ten frames a second.
abbrev last_point : PointXyzlt ℕ
last_point = record point { offset_time = 100_000_000 }

abbrev pub handler_with : List (PointXyzlt ℕ) → LidarPubHandler ℕ
handler_with points = record (new_handler whole_numbers) { points_clouds = points }

abbrev pub timers : List (PointXyzlt ℕ) → List (PointFrame ℕ) → PubHandler ℕ
timers points published = record {
  is_timestamp_sync = true;
  points_callback = true;
  publish_interval = 100_000_000;
  publish_interval_tolerance = 99_000_000;
  publish_interval_ms = 100;
  last_pub_time = 0;
  first = true;
  handlers = (5, handler_with points) ∷ [];
  published = published;
}

abbrev full_timers : PubHandler ℕ
full_timers = timers (point ∷ last_point ∷ []) []

abbrev sent_timers : PubHandler ℕ
sent_timers = timers [] (
    record {
      base_time = 1007 ∷ [];
      lidar_num = 1;
      lidar_point =
          record { handle = 5; lidar_type = 8; points_num = 2; points = point ∷ last_point ∷ [] }
          ∷ [];
    }
    ∷ [])

abbrev level : ExtParameter ℕ
level = record { roll = 0; pitch = 0; yaw = 0; x = pos 0; y = pos 0; z = pos 0 }

abbrev turned : ExtParameter ℕ
turned = record { roll = 0; pitch = 0; yaw = 90; x = pos 5; y = pos 0; z = pos 0 }

-- A packet of two Cartesian points, and a decoder that shows each as the same.
abbrev raw : RawCartesian
raw = record { x = pos 1000; y = pos 2000; z = pos 3000; reflectivity = 7; tag = 0 }

-- A second echo of it, twice as far.
abbrev behind : RawCartesian
behind = record { x = pos 2000; y = pos 4000; z = pos 6000; reflectivity = 9; tag = 1 }

abbrev pub layout : Layout
layout = record {
  high = λ bytes i. some raw;
  low = λ bytes i. some raw;
  spherical = λ bytes i. none;
  double_echo = λ bytes i. some (raw, behind);
  high_data = 1;
  low_data = 2;
  spherical_data = 3;
  double_echo_data = 4;
}

abbrev pub raw_packet : RawPacket
raw_packet = record {
  lidar_type = 8;
  handle = 5;
  extrinsic_enable = true;
  point_num = 2;
  data_type = 1;
  line_num = 4;
  time_stamp = 1000;
  point_interval = 50;
  raw_data = [];
}

abbrev pub made : ℕ → ℕ → PointXyzlt ℕ
made line time = record {
  x = 1;
  y = 2;
  z = 3;
  intensity = 7;
  tag = 0;
  line = line;
  offset_time = time;
}

-- The second echo of that point.
abbrev pub echoed : ℕ → ℕ → PointXyzlt ℕ
echoed line time = record {
  x = 2;
  y = 4;
  z = 6;
  intensity = 9;
  tag = 1;
  line = line;
  offset_time = time;
}

abbrev pub echo_packet : RawPacket
echo_packet = record raw_packet { data_type = 4 }

abbrev pub four_points : List (PointXyzlt ℕ)
four_points = made 0 1000 ∷ echoed 0 1000 ∷ made 1 1050 ∷ echoed 1 1050 ∷ []

-- Two records of double-echo data are four points.
pub echo_points :
    packet_points whole_numbers layout (handler_with []).extrinsic echo_packet ≡ some four_points
unfolding packet_points point_number point_count format_of items echo cartesian_point point_at
    scaled float_of_nat
echo_points = refl

point_cloud_process_lem_example :
    point_cloud_process whole_numbers layout echo_packet (handler_with (point ∷ [])) ≡ (
      packet_points whole_numbers layout (handler_with (point ∷ [])).extrinsic echo_packet
      >>= λ new. some (grown whole_numbers layout echo_packet (handler_with (point ∷ [])) new))
point_cloud_process_lem_example =
    point_cloud_process_lem whole_numbers layout echo_packet (handler_with (point ∷ []))
