-- ===== src/Waypoint/Lookup.antt =====
-- `get_waypoint_cb` of glim/glim_ext_addon/waypoint_manager/include/glim_ext/
-- waypoint_manager_module.hpp. The clock is an argument.
use auto_fastlio.Prelude.{ℕ, not, Option, none, some, List, [], ◌∷◌, if◌then◌else◌}
use auto_fastlio.Prelude.Int.{ℤ}
use auto_fastlio.Prelude.Decimal.{text_eq}
use auto_fastlio.Comm.Text.{codes}
use auto_fastlio.Waypoint.{Poses, WaypointEntry, WaypointManager, world_pose_of}
use auto_fastlio.Waypoint.Geometry.{Vector, Quaternion, Geometry}

-- `res->pose` when `res->found` is set.
pub record PoseStamped (P : Poses) : Type 0 where
  pub frame_id : List ℕ
  pub stamp : ℕ
  pub position : Vector P
  pub orientation : Quaternion P

module _ (P : Poses) (G : Geometry P) where
  unfoldable pub reply_of : ℕ → P.Pose → PoseStamped P
  reply_of now world = record {
    frame_id = codes "map";
    stamp = now;
    position = G.translation world;
    orientation = G.normalized (G.quaternion world);
  }

  -- The loop, which ends at the first waypoint of that name: the answer, or none when `found` is
  -- false.
  unfoldable pub resolve_first :
      ℕ → List ℕ → List (ℤ × P.Pose) → List (WaypointEntry P) → Option (PoseStamped P)
  resolve_first now name poses [] = none
  resolve_first now name poses (wp ∷ wps) =
      if not (text_eq wp.name name)
      then resolve_first now name poses wps
      else elim (world_pose_of P wp.submap_id poses) [
        | none ↦ none
        | some world ↦ some (reply_of now (P.mul world wp.submap_sensor))
      ]

  unfoldable pub get_waypoint_cb : ℕ → List ℕ → WaypointManager P → Option (PoseStamped P)
  get_waypoint_cb now name m = resolve_first now name m.submap_world_pose m.waypoints
