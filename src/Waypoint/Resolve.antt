-- ===== src/Waypoint/Resolve.antt =====
-- Where a waypoint is: its place in its submap, carried along by the submap's pose in the map.
use auto_fastlio.Prelude.{
  ℕ, ◌≡◌, ◌≢◌, refl, sym, ◌∙◌, ap, true, false, some, List, [], ◌∷◌, ◌++◌, ◌==◌, length, arith,
  Bool-cases, inl, inr,
}
use auto_fastlio.Prelude.Int.{ℤ, int_eq, int_eq_refl}
use auto_fastlio.Prelude.Decimal.{text_eq, text_eq_iff}
use auto_fastlio.Waypoint.{
  Poses, WaypointEntry, SubmapReference, SubMap, WaypointManager, find_submap_for_stamp, entry_of,
  erase_waypoint_named, add_waypoint_cb, on_insert_submap, world_pose_of, set_world_pose,
}
use auto_fastlio.Comm.Text.{codes}
use auto_fastlio.Waypoint.Geometry.{Geometry}
use auto_fastlio.Waypoint.Lookup.{reply_of, resolve_first, get_waypoint_cb}

module _ (P : Poses) (G : Geometry P) (now : ℕ) where
  -- A name that was erased is not met again: the search goes on to what stands behind.
  resolve_first-erased :
      (name : List ℕ) (poses : List (ℤ × P.Pose)) (wps more : List (WaypointEntry P))
      → resolve_first P G now name poses (erase_waypoint_named P name wps ++ more)
        ≡ resolve_first P G now name poses more
  unfolding erase_waypoint_named resolve_first
  resolve_first-erased name poses [] more = refl
  resolve_first-erased name poses (wp ∷ wps) more = elim (Bool-cases (text_eq wp.name name)) [
    | inl same ↦ rw same (resolve_first-erased name poses wps more)
    | inr differs ↦ ground (arith, differs, resolve_first-erased name poses wps more)
  ]

  resolve_first-entry :
      (name : List ℕ) (poses : List (ℤ × P.Pose)) (odom : P.Pose) (submap : SubmapReference P)
      (world : P.Pose)
      → world_pose_of P submap.id poses ≡ some world
      → resolve_first P G now name poses (entry_of P name odom submap ∷ [])
        ≡ some (reply_of P G now (P.mul world (P.mul (P.inverse submap.odom_origin_sensor) odom)))
  unfolding resolve_first entry_of
  resolve_first-entry name poses odom submap world at = rw ((text_eq_iff name name).1 refl, at) refl

  set_world_pose-found :
      (id : ℤ) (pose : P.Pose) (poses : List (ℤ × P.Pose))
      → world_pose_of P id (set_world_pose P id pose poses) ≡ some pose
  unfolding set_world_pose world_pose_of
  set_world_pose-found id pose [] = rw (int_eq_refl id) refl
  set_world_pose-found id pose ((j, old) ∷ poses) = elim (Bool-cases (int_eq j id)) [
    | inl same ↦ ground (arith, same)
    | inr differs ↦ ground (arith, differs, set_world_pose-found id pose poses)
  ]

  -- A waypoint that is tagged in a submap, and then looked up after the map has given that submap
  -- any new pose, whatever waypoints of that name there were before, is found: in the frame "map", at
  -- the translation and the normalized quaternion of the submap's new pose times the inverse of the
  -- submap's origin in the odometry times the odometry pose at which it was tagged, the products
  -- rounded as the code's are.
  pub get_waypoint_cb-after_add :
      (name : List ℕ) (m : WaypointManager P) (submap : SubmapReference P) (sm : SubMap P)
      → m.has_frame ≡ true
      → length name ≢ 0
      → find_submap_for_stamp P m.latest_frame_stamp m.submap_references ≡ some submap
      → sm.id ≡ submap.id
      → let place =
          P.mul sm.world_origin (P.mul (P.inverse submap.odom_origin_sensor) m.latest_frame_pose) in
        get_waypoint_cb P G now name (on_insert_submap P (some sm) (add_waypoint_cb P name m).1)
        ≡ some (record {
          frame_id = codes "map";
          stamp = now;
          position = G.translation place;
          orientation = G.normalized (G.quaternion place);
        })
  unfolding get_waypoint_cb on_insert_submap add_waypoint_cb reply_of
  get_waypoint_cb-after_add name m submap sm framed named found same =
      let some_name : (length name == 0) ≡ false = ground (arith, named) in
      let poses = set_world_pose P sm.id sm.world_origin m.submap_world_pose in
      let world : world_pose_of P submap.id poses ≡ some sm.world_origin =
        ap (λ i. world_pose_of P i poses) (sym same)
        ∙ set_world_pose-found sm.id sm.world_origin m.submap_world_pose in
      rw (framed, some_name, found)
        (resolve_first-erased name poses m.waypoints
            (entry_of P name m.latest_frame_pose submap ∷ [])
          ∙ resolve_first-entry name poses m.latest_frame_pose submap _ world)
