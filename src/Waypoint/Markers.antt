-- ===== src/Waypoint/Markers.antt =====
-- `publish_markers` of glim/glim_ext_addon/waypoint_manager/include/glim_ext/
-- waypoint_manager_module.hpp. The clock is an argument; a colour channel is a decimal fraction.
pub mod Order
use auto_fastlio.Prelude.{
  ℕ, ◌+◌, Bool, true, false, not, ◌||◌, Option, none, some, List, [], ◌∷◌, if◌then◌else◌, length,
  ◌==◌,
}
use auto_fastlio.Prelude.Int.{ℤ, pos}
use auto_fastlio.Comm.Text.{codes}
use auto_fastlio.Waypoint.{Poses, WaypointEntry, WaypointManager, world_pose_of}
use auto_fastlio.Waypoint.Geometry.{Geometry, Vector, Quaternion}

pub data Shape : Type 0 where
  sphere text_view_facing : Shape

-- `r`, `g`, `b`, `a` in tenths.
pub record Colour : Type 0 where
  pub r : ℕ
  pub g : ℕ
  pub b : ℕ
  pub a : ℕ

-- visualization_msgs::msg::Marker, whose action is ADD in each.
pub record Marker (P : Poses) : Type 0 where
  pub frame_id : List ℕ
  pub stamp : ℕ
  pub ns : List ℕ
  pub id : ℕ
  pub shape : Shape
  pub position : Vector P
  pub orientation : Quaternion P
  pub scale : Vector P
  pub color : Colour
  pub text : List ℕ

module _ (P : Poses) (G : Geometry P) where
  -- `T_world` with its linear part normalized.
  unfoldable pub current_pose : P.Pose → WaypointEntry P → P.Pose
  current_pose pose wp =
      let world = P.mul pose wp.submap_sensor in
      G.with_linear (G.normalized (G.quaternion world)) world

  unfoldable pub sphere_marker : ℕ → ℕ → P.Pose → Marker P
  sphere_marker now idx world = record {
    frame_id = codes "map";
    stamp = now;
    ns = codes "waypoints";
    id = idx;
    shape = sphere;
    position = G.translation world;
    orientation = G.quaternion world;
    scale = record { x = G.literal 3 10; y = G.literal 3 10; z = G.literal 3 10 };
    color = record { r = 1; g = 9; b = 2; a = 10 };
    text = [];
  }

  unfoldable pub text_marker : List ℕ → Marker P → Marker P
  text_marker name m = record {
    frame_id = m.frame_id;
    stamp = m.stamp;
    ns = codes "waypoint_names";
    id = m.id;
    shape = text_view_facing;
    position = record {
      x = m.position.x;
      y = m.position.y;
      z = G.plus m.position.z (G.literal 4 10);
    };
    orientation = m.orientation;
    scale = record { x = G.literal 0 1; y = G.literal 0 1; z = G.literal 25 100 };
    color = record { r = 10; g = 10; b = 10; a = 10 };
    text = name;
  }

  unfoldable pub markers_from : ℕ → ℕ → List (ℤ × P.Pose) → List (WaypointEntry P) → List (Marker P)
  markers_from now idx poses [] = []
  markers_from now idx poses (wp ∷ wps) = elim (world_pose_of P wp.submap_id poses) [
    | none ↦ markers_from now idx poses wps
    | some pose ↦
        let m = sphere_marker now idx (current_pose pose wp) in
        m ∷ text_marker wp.name m ∷ markers_from now (idx + 1) poses wps
  ]

  -- What is published, if anything; `has_publisher`: `marker_pub` is set.
  unfoldable pub publish_markers : ℕ → Bool → WaypointManager P → Option (List (Marker P))
  publish_markers now has_publisher m =
      if not has_publisher || (length m.waypoints == 0)
      then none
      else some (markers_from now 0 m.submap_world_pose m.waypoints)
