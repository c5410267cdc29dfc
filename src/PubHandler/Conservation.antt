-- ===== src/PubHandler/Conservation.antt =====
-- `CheckTimer` between the points that the handlers hold and the frames that are published.
use auto_fastlio.Prelude.{ℕ, ◌-◌, ◌/◌, ◌%◌, ◌+◌, Bool, not, ◌||◌, [], ◌∷◌, ◌++◌, ◌==◌, ltb}
use auto_fastlio.Comm.{PointFrame, u64, ratio_of_ms_to_ns}
use auto_fastlio.PubHandler.{LidarPubHandler}
use auto_fastlio.PubHandler.Timer.{
  PubHandler, get_lidar_base_time, get_recent_time_stamp, take_points_of, packet_of,
  take_all_points,
}

module _ {F : Type 0} (id : ℕ) where
  abbrev due_state : PubHandler F → PubHandler F
  due_state s = record s {
    last_pub_time = s.last_pub_time + s.publish_interval;
    handlers = take_all_points s.handlers;
  }

  -- The state after the points of one handler are taken, and after they are published.
  abbrev taken : ℕ → PubHandler F → PubHandler F
  taken k s = record s { handlers = take_points_of k s.handlers }

  abbrev frame_of : ℕ → LidarPubHandler F → PointFrame F
  frame_of k h = record {
    base_time = get_lidar_base_time h.points_clouds ∷ [];
    lidar_num = 1;
    lidar_point = packet_of k h.points_clouds ∷ [];
  }

  abbrev sent : ℕ → LidarPubHandler F → PubHandler F → PubHandler F
  sent k h s = record (taken k s) { published = s.published ++ frame_of k h ∷ [] }

  -- The test that the newest point ends a frame, negated.
  abbrev not_due : PubHandler F → LidarPubHandler F → Bool
  not_due s h =
      not (get_recent_time_stamp h.points_clouds / ratio_of_ms_to_ns % s.publish_interval_ms == 0)
      || get_recent_time_stamp h.points_clouds / ratio_of_ms_to_ns == 0

  abbrev too_short : PubHandler F → LidarPubHandler F → Bool
  too_short s h =
      ltb
        ((get_recent_time_stamp h.points_clouds + u64 - get_lidar_base_time h.points_clouds) % u64)
        s.publish_interval_tolerance
