-- ===== src/Waypoint.antt =====
-- The waypoint manager: glim/glim_ext_addon/waypoint_manager/include/glim_ext/
-- waypoint_manager_module.hpp. Every callback holds the mutex, so it is one step. The poses are
-- those of Eigen, and the stamps doubles: both are parameters.
pub mod Names
pub mod Geometry
pub mod Lookup
pub mod Resolve
pub mod File
pub mod Markers
use auto_fastlio.Prelude.{
  ℕ, Bool, true, false, not, ◌&&◌, Option, none, some, List, [], ◌∷◌, ◌++◌, if◌then◌else◌, map,
  length, ◌==◌,
}
use auto_fastlio.Prelude.Int.{ℤ, int_eq}
use auto_fastlio.Prelude.Decimal.{text_eq}
use auto_fastlio.Comm.Text.{codes}

-- Rigid motions with their product and inverse, and stamps with `<=`.
pub record Poses : Type 1 where
  pub Pose : Type 0
  pub Stamp : Type 0
  pub mul : Pose → Pose → Pose
  pub inverse : Pose → Pose
  pub le : Stamp → Stamp → Bool

pub record WaypointEntry (P : Poses) : Type 0 where
  pub name : List ℕ
  pub submap_id : ℤ
  pub submap_sensor : P.Pose

pub record SubmapReference (P : Poses) : Type 0 where
  pub id : ℤ
  pub first_stamp : P.Stamp
  pub last_stamp : P.Stamp
  pub odom_origin_sensor : P.Pose

pub record PendingWaypoint (P : Poses) : Type 0 where
  pub name : List ℕ
  pub stamp : P.Stamp
  pub odom_sensor : P.Pose

-- The members. `submap_references` has its newest element first, as the search meets them.
pub record WaypointManager (P : Poses) : Type 0 where
  pub has_frame : Bool
  pub latest_frame_pose : P.Pose
  pub latest_frame_stamp : P.Stamp
  pub submap_world_pose : List (ℤ × P.Pose)
  pub submap_references : List (SubmapReference P)
  pub waypoints : List (WaypointEntry P)
  pub pending_waypoints : List (PendingWaypoint P)

-- The frames of GLIM, as far as they are read.
pub record EstimationFrame (P : Poses) : Type 0 where
  pub stamp : P.Stamp
  pub world_sensor : P.Pose

-- A submap: its frames, of which any can be null, and its origin frame.
pub record SubMap (P : Poses) : Type 0 where
  pub id : ℤ
  pub frames : List (Option (EstimationFrame P))
  pub origin_frame : Option (EstimationFrame P)
  pub world_origin : P.Pose

-- What `add_waypoint_cb` answers: the four texts of its message.
pub data AddReply : Type 0 where
  no_odometry : AddReply
  empty_name : AddReply
  tagged : ℤ → AddReply
  queued : AddReply

module _ (P : Poses) where
  -- `submap_world_pose[id] = pose`, and `find`.
  unfoldable pub set_world_pose : ℤ → P.Pose → List (ℤ × P.Pose) → List (ℤ × P.Pose)
  set_world_pose id pose [] = (id, pose) ∷ []
  set_world_pose id pose ((j, old) ∷ poses) =
      if int_eq j id then (j, pose) ∷ poses else (j, old) ∷ set_world_pose id pose poses

  unfoldable pub world_pose_of : ℤ → List (ℤ × P.Pose) → Option P.Pose
  world_pose_of id [] = none
  world_pose_of id ((j, pose) ∷ poses) = if int_eq j id then some pose else world_pose_of id poses

  unfoldable pub on_update_new_frame :
      Option (EstimationFrame P) → WaypointManager P → WaypointManager P
  on_update_new_frame none m = m
  on_update_new_frame (some frame) m = record m {
    latest_frame_pose = frame.world_sensor;
    latest_frame_stamp = frame.stamp;
    has_frame = true;
  }

  -- `find_submap_for_stamp_locked`: the newest submap whose stamps enclose it.
  unfoldable pub find_submap_for_stamp :
      P.Stamp → List (SubmapReference P) → Option (SubmapReference P)
  find_submap_for_stamp stamp [] = none
  find_submap_for_stamp stamp (r ∷ refs) =
      if P.le r.first_stamp stamp && P.le stamp r.last_stamp
      then some r
      else find_submap_for_stamp stamp refs

  -- The entry that `add_waypoint_locked` appends.
  unfoldable pub entry_of : List ℕ → P.Pose → SubmapReference P → WaypointEntry P
  entry_of name odom_sensor submap = record {
    name = name;
    submap_id = submap.id;
    submap_sensor = P.mul (P.inverse submap.odom_origin_sensor) odom_sensor;
  }

  -- `erase_waypoint_named_locked` and `erase_pending_waypoint_named_locked`.
  unfoldable pub erase_waypoint_named : List ℕ → List (WaypointEntry P) → List (WaypointEntry P)
  erase_waypoint_named name [] = []
  erase_waypoint_named name (wp ∷ wps) =
      if text_eq wp.name name
      then erase_waypoint_named name wps
      else wp ∷ erase_waypoint_named name wps

  unfoldable pub erase_pending_waypoint_named :
      List ℕ → List (PendingWaypoint P) → List (PendingWaypoint P)
  erase_pending_waypoint_named name [] = []
  erase_pending_waypoint_named name (wp ∷ wps) =
      if text_eq wp.name name
      then erase_pending_waypoint_named name wps
      else wp ∷ erase_pending_waypoint_named name wps

  -- The loop of `bind_pending_waypoints_locked`: the waypoints, and those that still wait.
  unfoldable pub bind_from :
      List (SubmapReference P)
      → List (PendingWaypoint P)
      → List (WaypointEntry P)
      → List (WaypointEntry P) × List (PendingWaypoint P)
  bind_from refs [] wps = (wps, [])
  bind_from refs (p ∷ pending) wps = elim (find_submap_for_stamp p.stamp refs) [
    | none ↦ (let (wps', rest) = bind_from refs pending wps in (wps', p ∷ rest))
    | some submap ↦ bind_from refs pending (wps ++ entry_of p.name p.odom_sensor submap ∷ [])
  ]

  unfoldable pub bind_pending_waypoints : WaypointManager P → WaypointManager P
  bind_pending_waypoints m =
      let (wps, rest) = bind_from m.submap_references m.pending_waypoints m.waypoints in
      record m { waypoints = wps; pending_waypoints = rest }

  -- `frames.front()` and `frames.back()` of a submap with frames.
  unfoldable pub first_frame : List (Option (EstimationFrame P)) → Option (EstimationFrame P)
  first_frame [] = none
  first_frame (f ∷ fs) = f

  unfoldable pub last_frame : List (Option (EstimationFrame P)) → Option (EstimationFrame P)
  last_frame [] = none
  last_frame (f ∷ []) = f
  last_frame (f ∷ g ∷ fs) = last_frame (g ∷ fs)

  -- A submap without frames, or with a null one of the three, is passed over.
  unfoldable pub on_new_submap : Option (SubMap P) → WaypointManager P → WaypointManager P
  on_new_submap none m = m
  on_new_submap (some submap) m = elim (first_frame submap.frames) [
    | none ↦ m
    | some first ↦ elim (last_frame submap.frames) [
      | none ↦ m
      | some last ↦ elim submap.origin_frame [
        | none ↦ m
        | some origin ↦ bind_pending_waypoints (record m {
          submap_references =
              record {
                id = submap.id;
                first_stamp = first.stamp;
                last_stamp = last.stamp;
                odom_origin_sensor = origin.world_sensor;
              }
              ∷ m.submap_references;
        })
      ]
    ]
  ]

  unfoldable pub on_insert_submap : Option (SubMap P) → WaypointManager P → WaypointManager P
  on_insert_submap none m = m
  on_insert_submap (some submap) m = record m {
    submap_world_pose = set_world_pose submap.id submap.world_origin m.submap_world_pose;
  }

  unfoldable pub on_update_submaps :
      List (Option (SubMap P)) → WaypointManager P → WaypointManager P
  on_update_submaps [] m = m
  on_update_submaps (sm ∷ submaps) m = on_update_submaps submaps (on_insert_submap sm m)

  -- `add_waypoint_cb`: the answer (a success unless one of the first two) and the state.
  unfoldable pub add_waypoint_cb : List ℕ → WaypointManager P → AddReply × WaypointManager P
  add_waypoint_cb name m =
      if not m.has_frame
      then (no_odometry, m)
      else if length name == 0
      then (empty_name, m)
      else let wps = erase_waypoint_named name m.waypoints in
        let pending = erase_pending_waypoint_named name m.pending_waypoints in
        elim (find_submap_for_stamp m.latest_frame_stamp m.submap_references) [
          | some submap ↦ (
            tagged submap.id,
            record m {
              waypoints = wps ++ entry_of name m.latest_frame_pose submap ∷ [];
              pending_waypoints = pending;
            },
          )
          | none ↦ (
            queued,
            record m {
              waypoints = wps;
              pending_waypoints =
                  pending
                  ++ record {
                    name = name;
                    stamp = m.latest_frame_stamp;
                    odom_sensor = m.latest_frame_pose;
                  }
                    ∷ [];
            },
          )
        ]

  unfoldable pub list_waypoints_cb : WaypointManager P → List (List ℕ)
  list_waypoints_cb m =
      map (λ wp. wp.name) m.waypoints
      ++ map (λ wp. wp.name ++ codes " (pending)") m.pending_waypoints
