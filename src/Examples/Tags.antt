-- ===== src/Examples/Tags.antt =====
-- The saved file and the markers of the waypoint manager, with numbers for poses.
use auto_fastlio.Prelude.{
  ℕ, ◌+◌, ◌*◌, ◌-◌, ◌≡◌, refl, true, Option, none, some, List, [], ◌∷◌, map, leb,
}
use auto_fastlio.Prelude.Int.{pos}
use auto_fastlio.Comm.Text.{codes}
use auto_fastlio.Waypoint.{Poses, WaypointManager, world_pose_of}
use auto_fastlio.Waypoint.Geometry.{Geometry}
use auto_fastlio.Waypoint.File.{Output}
use auto_fastlio.Waypoint.Markers.{
  Marker, sphere_marker, text_marker, markers_from, publish_markers,
}

abbrev shifts : Poses
shifts = record { Pose = ℕ; Stamp = ℕ; mul = λ a b. a + b; inverse = λ a. 0; le = leb }

abbrev plane : Geometry shifts
plane = record {
  translation = λ t. record { x = t; y = 0; z = 0 };
  quaternion = λ t. record { qx = 0; qy = 0; qz = 0; qw = 1 };
  normalized = λ q. q;
  with_linear = λ q t. t;
  plus = λ a b. a + b;
  minus = λ a b. a - b;
  times = λ a b. a * b;
  atan2 = λ a b. a;
  literal = λ a b. a;
}

abbrev disk : Output shifts
disk = record { c_str = λ events. []; opens = λ path. true }

-- The door's submap has a pose in the map, the desk's has none; the gate is pending.
abbrev tags : WaypointManager shifts
tags = record {
  has_frame = true;
  latest_frame_pose = 5;
  latest_frame_stamp = 30;
  submap_world_pose = (pos 1, 100) ∷ [];
  submap_references = [];
  waypoints =
      record { name = codes "desk"; submap_id = pos 0; submap_sensor = 3 }
      ∷ record { name = codes "door"; submap_id = pos 1; submap_sensor = 7 }
      ∷ [];
  pending_waypoints = record { name = codes "gate"; stamp = 25; odom_sensor = 4 } ∷ [];
}

abbrev shown : Option (List (Marker shifts)) → List (Marker shifts)
shown none = []
shown (some ms) = ms

-- The desk is not drawn; the door has its sphere and its name.
drawn_names :
    map (λ m. m.text) (shown (publish_markers shifts plane 9 true tags)) ≡ [] ∷ codes "door" ∷ []
unfolding publish_markers markers_from world_pose_of sphere_marker text_marker
drawn_names = refl
