-- ===== src/Examples/Waypoints.antt =====
-- The waypoint manager, with turns by 0 and by 180 degrees for poses.
use auto_fastlio.Prelude.{
  ℕ, ◌+◌, ◌-◌, ◌*◌, ◌≡◌, refl, Bool, true, false, Option, none, some, [], ◌∷◌, leb, if◌then◌else◌,
  arith,
}
use auto_fastlio.Prelude.Int.{pos}
use auto_fastlio.Prelude.Decimal.{text_eq}
use auto_fastlio.Comm.Text.{codes}
use auto_fastlio.Waypoint.{
  Poses, SubmapReference, SubMap, WaypointManager, EstimationFrame, find_submap_for_stamp,
  add_waypoint_cb, on_insert_submap, on_new_submap,
}
use auto_fastlio.Waypoint.Geometry.{Geometry}
use auto_fastlio.Waypoint.Lookup.{get_waypoint_cb}
use auto_fastlio.Waypoint.Names.{total, on_new_submap-total, add_waypoint_cb-total}
use auto_fastlio.Waypoint.Resolve.{get_waypoint_cb-after_add}

abbrev turn : Bool → Bool → Bool
turn true true = false
turn true false = true
turn false b = b

abbrev turns : Poses
turns = record { Pose = Bool; Stamp = ℕ; mul = turn; inverse = λ a. a; le = leb }

abbrev plane : Geometry turns
plane = record {
  translation = λ t. record { x = 1; y = 2; z = 0 };
  quaternion = λ t. record { qx = 0; qy = 0; qz = if t then 1 else 0; qw = if t then 0 else 1 };
  normalized = λ q. q;
  with_linear = λ q t. t;
  plus = λ a b. a + b;
  minus = λ a b. a - b;
  times = λ a b. a * b;
  atan2 = λ a b. a;
  literal = λ a b. a;
}

abbrev submap_ref : SubmapReference turns
submap_ref = record { id = pos 0; first_stamp = 10; last_stamp = 20; odom_origin_sensor = true }

-- The sensor was last seen at the stamp 15; one waypoint is pending.
abbrev manager : WaypointManager turns
manager = record {
  has_frame = true;
  latest_frame_pose = false;
  latest_frame_stamp = 15;
  submap_world_pose = [];
  submap_references = submap_ref ∷ [];
  waypoints = [];
  pending_waypoints = record { name = codes "gate"; stamp = 25; odom_sensor = true } ∷ [];
}

abbrev frame_at : ℕ → Option (EstimationFrame turns)
frame_at t = some (record { stamp = t; world_sensor = true })

-- A submap that covers the pending waypoint.
abbrev next_submap : SubMap turns
next_submap = record {
  id = pos 1;
  frames = frame_at 20 ∷ frame_at 30 ∷ [];
  origin_frame = frame_at 20;
  world_origin = false;
}

on_new_submap-total_example :
    total turns (codes "gate") (on_new_submap turns (some next_submap) manager)
    ≡ total turns (codes "gate") manager
on_new_submap-total_example = on_new_submap-total turns (codes "gate") (some next_submap) manager

add_waypoint_cb-total_example :
    total turns (codes "gate") (add_waypoint_cb turns (codes "gate") manager).1
    ≡ (if text_eq (codes "gate") (codes "gate") then 1 else total turns (codes "gate") manager)
add_waypoint_cb-total_example =
    add_waypoint_cb-total turns (codes "gate") (codes "gate") manager refl (λ e. omega (arith, e))

covered : find_submap_for_stamp turns 15 (submap_ref ∷ []) ≡ some submap_ref
unfolding find_submap_for_stamp
covered = refl

-- The map turns the first submap: its pose is the correction after the origin's.
abbrev corrected : SubMap turns
corrected = record { id = pos 0; frames = []; origin_frame = none; world_origin = false }

get_waypoint_cb-after_add_example :
    get_waypoint_cb turns plane 9
      (codes "dock")
      (on_insert_submap turns (some corrected) (add_waypoint_cb turns (codes "dock") manager).1)
    ≡ some (record {
      frame_id = codes "map";
      stamp = 9;
      position = record { x = 1; y = 2; z = 0 };
      orientation = record { qx = 0; qy = 0; qz = 1; qw = 0 };
    })
get_waypoint_cb-after_add_example =
    get_waypoint_cb-after_add turns plane 9 (codes "dock") manager submap_ref corrected refl
      (λ e. omega (arith, e)) covered refl
