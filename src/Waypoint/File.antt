-- ===== src/Waypoint/File.antt =====
-- The saved waypoints of the waypoint manager, `write_yaml` and its two callers in glim/glim_ext_addon/
-- waypoint_manager/include/glim_ext/waypoint_manager_module.hpp. Eigen, yaml-cpp's emitter and the
-- opening of files are parameters. A double is the type of the stamps.
pub mod Nesting
pub mod Saved
use auto_fastlio.Prelude.{
  ℕ, Bool, true, false, ◌&&◌, Option, none, some, List, [], ◌∷◌, ◌++◌, if◌then◌else◌, length, ◌==◌,
}
use auto_fastlio.Prelude.Int.{ℤ}
use auto_fastlio.Prelude.Decimal.{to_string}
use auto_fastlio.Comm.Text.{codes}
use auto_fastlio.Waypoint.Geometry.{Vector, Quaternion, Geometry}
use auto_fastlio.Waypoint.{Poses, WaypointEntry, PendingWaypoint, WaypointManager, world_pose_of}

-- What is handed to the emitter: `YAML::Key` with its text, `YAML::Flow` with its vector, and the
-- values, before each of which stands `YAML::Value` where it follows a key.
pub data YamlEvent (P : Poses) : Type 0 where
  begin_map end_map begin_seq end_seq : YamlEvent P
  key : List ℕ → YamlEvent P
  text : List ℕ → YamlEvent P
  integer : ℤ → YamlEvent P
  double : P.Stamp → YamlEvent P
  flow : List P.Stamp → YamlEvent P

-- yaml-cpp's emitter, and whether a path opens for writing.
pub record Output (P : Poses) : Type 0 where
  pub c_str : List (YamlEvent P) → List ℕ
  pub opens : List ℕ → Bool

module _ (P : Poses) (G : Geometry P) where
  unfoldable pub xyz : Vector P → List P.Stamp
  xyz t = t.x ∷ t.y ∷ t.z ∷ []

  unfoldable pub qxyzw : Quaternion P → List P.Stamp
  qxyzw q = q.qx ∷ q.qy ∷ q.qz ∷ q.qw ∷ []

  unfoldable pub yaw_of : Quaternion P → P.Stamp
  yaw_of q = G.atan2 (G.times (G.literal 2 1) (G.plus (G.times q.qw q.qz) (G.times q.qx q.qy))) (
      G.minus (G.literal 1 1)
        (G.times (G.literal 2 1) (G.plus (G.times q.qy q.qy) (G.times q.qz q.qz))))

  -- The members of a waypoint whose submap has a pose in the map.
  unfoldable pub map_events : Option P.Pose → WaypointEntry P → List (YamlEvent P)
  map_events none wp = []
  map_events (some pose) wp =
      let world = P.mul pose wp.submap_sensor in
      let q_map = G.normalized (G.quaternion world) in
      key (codes "map_xyz")
      ∷ flow (xyz (G.translation world))
      ∷ key (codes "map_yaw")
      ∷ double (yaw_of q_map)
      ∷ key (codes "map_qxyzw")
      ∷ flow (qxyzw q_map)
      ∷ []

  unfoldable pub waypoint_events : List (ℤ × P.Pose) → List (WaypointEntry P) → List (YamlEvent P)
  waypoint_events poses [] = []
  waypoint_events poses (wp ∷ wps) =
      begin_map
      ∷ key (codes "name")
      ∷ text wp.name
      ∷ key (codes "submap_id")
      ∷ integer wp.submap_id
      ∷ key (codes "local_xyz")
      ∷ flow (xyz (G.translation wp.submap_sensor))
      ∷ key (codes "local_qxyzw")
      ∷ flow (qxyzw (G.normalized (G.quaternion wp.submap_sensor)))
      ∷ (map_events (world_pose_of P wp.submap_id poses) wp ++ end_map ∷ waypoint_events poses wps)

  unfoldable pub pending_events : List (PendingWaypoint P) → List (YamlEvent P)
  pending_events [] = []
  pending_events (pwp ∷ pwps) =
      begin_map
      ∷ key (codes "name")
      ∷ text pwp.name
      ∷ key (codes "stamp")
      ∷ double pwp.stamp
      ∷ key (codes "odom_xyz")
      ∷ flow (xyz (G.translation pwp.odom_sensor))
      ∷ key (codes "odom_qxyzw")
      ∷ flow (qxyzw (G.normalized (G.quaternion pwp.odom_sensor)))
      ∷ end_map
      ∷ pending_events pwps

  unfoldable pub document : WaypointManager P → List (YamlEvent P)
  document m =
      begin_map
      ∷ key (codes "waypoints")
      ∷ begin_seq
      ∷ (waypoint_events m.submap_world_pose m.waypoints
          ++ end_seq
            ∷ key (codes "pending_waypoints")
            ∷ begin_seq
            ∷ (pending_events m.pending_waypoints ++ end_seq ∷ end_map ∷ []))

  -- The answer, and what is written where, if a file opens.
  unfoldable pub write_yaml :
      Output P → List ℕ → WaypointManager P → Bool × Option (List ℕ × List ℕ)
  write_yaml out path m =
      if out.opens path then (true, some (path, out.c_str (document m))) else (false, none)

  unfoldable pub path_of : List ℕ → List ℕ
  path_of request = if length request == 0 then codes "/tmp/waypoints.yaml" else request

  -- The success and the message of the response, and what is written.
  unfoldable pub save_waypoints_cb :
      Output P → List ℕ → WaypointManager P → (Bool × List ℕ) × Option (List ℕ × List ℕ)
  save_waypoints_cb out request m =
      let path = path_of request in
      let (ok, written) = write_yaml out path m in
      (
        (
          ok,
          if ok
              then codes "saved "
                ++ to_string (length m.waypoints)
                ++ codes " waypoints ("
                ++ to_string (length m.pending_waypoints)
                ++ codes " pending) to "
                ++ path
              else codes "failed to open " ++ path,
        ),
        written,
      )

  unfoldable pub autosave : Output P → WaypointManager P → Option (List ℕ × List ℕ)
  autosave out m =
      if (length m.waypoints == 0) && (length m.pending_waypoints == 0)
      then none
      else (let (ok, written) = write_yaml out (codes "/tmp/waypoints_autosave.yaml") m in written)
