-- ===== src/Waypoint/File/Nesting.antt =====
-- What a reader of the file that `write_yaml` of waypoint_manager_module.hpp writes meets.
use auto_fastlio.Prelude.{
  ℕ, ◌≡◌, refl, ap, ◌∙◌, Bool, true, false, Option, none, some, ◌>>=◌, List, [], ◌∷◌, ◌++◌,
  append_assoc, append-nil, map, if◌then◌else◌,
}
use auto_fastlio.Prelude.Int.{ℤ}
use auto_fastlio.Prelude.Decimal.{text_eq}
use auto_fastlio.Comm.Text.{codes}
use auto_fastlio.Waypoint.{Poses, WaypointEntry, PendingWaypoint, WaypointManager, world_pose_of}
use auto_fastlio.Waypoint.Geometry.{Geometry}
use auto_fastlio.Waypoint.File.{
  YamlEvent, begin_map, end_map, begin_seq, end_seq, key, text, integer, double, flow, map_events,
  waypoint_events, pending_events, document,
}

-- Where a reader stands: before the document, in a sequence, before a key, before its value.
pub data Level : Type 0 where
  at_start in_seq at_key at_value : Level

-- A value stands here, if one may.
unfoldable pub take_value : List Level → Option (List Level)
take_value [] = none
take_value (at_start ∷ s) = some s
take_value (in_seq ∷ s) = some (in_seq ∷ s)
take_value (at_value ∷ s) = some (at_key ∷ s)
take_value (at_key ∷ s) = none

unfoldable pub leave : Bool → List Level → Option (List Level)
leave true (at_key ∷ s) = some s
leave false (in_seq ∷ s) = some s
leave _ _ = none

unfoldable pub meet_key : List Level → Option (List Level)
meet_key (at_key ∷ s) = some (at_value ∷ s)
meet_key _ = none

module _ (P : Poses) where
  unfoldable pub read_event : YamlEvent P → List Level → Option (List Level)
  read_event begin_map s = take_value s >>= λ t. some (at_key ∷ t)
  read_event begin_seq s = take_value s >>= λ t. some (in_seq ∷ t)
  read_event end_map s = leave true s
  read_event end_seq s = leave false s
  read_event (key k) s = meet_key s
  read_event (text t) s = take_value s
  read_event (integer i) s = take_value s
  read_event (double d) s = take_value s
  read_event (flow ds) s = take_value s

  -- The levels that are left open, or none where an event stands that may not.
  unfoldable pub read_events : List (YamlEvent P) → List Level → Option (List Level)
  read_events [] s = some s
  read_events (e ∷ es) s = read_event e s >>= λ t. read_events es t

  unfoldable pub is_key : List ℕ → YamlEvent P → Bool
  is_key k (key j) = text_eq j k
  is_key k _ = false

  -- The first event of each value with the key `k`; `next`: the event before was that key.
  unfoldable pub values_of : List ℕ → Bool → List (YamlEvent P) → List (YamlEvent P)
  values_of k next [] = []
  values_of k next (e ∷ es) =
      let rest = values_of k (is_key k e) es in if next then e ∷ rest else rest

module _ (P : Poses) (G : Geometry P) where
  map_events-read :
      (o : Option P.Pose) (wp : WaypointEntry P) (es : List (YamlEvent P)) (s : List Level)
      → read_events P (map_events P G o wp ++ end_map ∷ es) (at_key ∷ s) ≡ read_events P es s
  unfolding map_events read_events read_event take_value leave meet_key
  map_events-read none wp es s = refl
  map_events-read (some pose) wp es s = refl

  map_events-names :
      (o : Option P.Pose) (wp : WaypointEntry P) (es : List (YamlEvent P))
      → values_of P (codes "name") false (map_events P G o wp ++ end_map ∷ es)
        ≡ values_of P (codes "name") false es
  unfolding map_events values_of is_key text_eq
  map_events-names none wp es = refl
  map_events-names (some pose) wp es = refl

  waypoint_events-read :
      (poses : List (ℤ × P.Pose)) (wps : List (WaypointEntry P)) (es : List (YamlEvent P))
      (s : List Level)
      → read_events P (waypoint_events P G poses wps ++ es) (in_seq ∷ s)
        ≡ read_events P es (in_seq ∷ s)
  unfolding waypoint_events read_events read_event take_value leave meet_key
  waypoint_events-read poses [] es s = refl
  waypoint_events-read poses (wp ∷ wps) es s =
      let shown = map_events P G (world_pose_of P wp.submap_id poses) wp in
      ap (λ l. read_events P l (at_key ∷ in_seq ∷ s))
        (append_assoc shown (end_map ∷ waypoint_events P G poses wps) es)
      ∙ map_events-read (world_pose_of P wp.submap_id poses) wp
          (waypoint_events P G poses wps ++ es) (in_seq ∷ s)
      ∙ waypoint_events-read poses wps es s

  pending_events-read :
      (pwps : List (PendingWaypoint P)) (es : List (YamlEvent P)) (s : List Level)
      → read_events P (pending_events P G pwps ++ es) (in_seq ∷ s) ≡ read_events P es (in_seq ∷ s)
  unfolding pending_events read_events read_event take_value leave meet_key
  pending_events-read [] es s = refl
  pending_events-read (pwp ∷ pwps) es s = pending_events-read pwps es s

  pub document-read :
      (m : WaypointManager P) → read_events P (document P G m) (at_start ∷ []) ≡ some []
  unfolding document read_events read_event take_value leave meet_key
  document-read m =
      waypoint_events-read m.submap_world_pose m.waypoints
        (end_seq
          ∷ key (codes "pending_waypoints")
          ∷ begin_seq
          ∷ (pending_events P G m.pending_waypoints ++ end_seq ∷ end_map ∷ []))
        (at_key ∷ [])
      ∙ pending_events-read m.pending_waypoints (end_seq ∷ end_map ∷ []) (at_key ∷ [])

  waypoint_events-names :
      (poses : List (ℤ × P.Pose)) (wps : List (WaypointEntry P)) (es : List (YamlEvent P))
      → values_of P (codes "name") false (waypoint_events P G poses wps ++ es)
        ≡ map (λ wp. text wp.name) wps ++ values_of P (codes "name") false es
  unfolding waypoint_events values_of is_key text_eq
  waypoint_events-names poses [] es = refl
  waypoint_events-names poses (wp ∷ wps) es =
      let shown = map_events P G (world_pose_of P wp.submap_id poses) wp in
      ap (λ l. text wp.name ∷ values_of P (codes "name") false l)
        (append_assoc shown (end_map ∷ waypoint_events P G poses wps) es)
      ∙ ap (λ l. text wp.name ∷ l)
          (map_events-names (world_pose_of P wp.submap_id poses) wp
              (waypoint_events P G poses wps ++ es)
            ∙ waypoint_events-names poses wps es)

  pending_events-names :
      (pwps : List (PendingWaypoint P)) (es : List (YamlEvent P))
      → values_of P (codes "name") false (pending_events P G pwps ++ es)
        ≡ map (λ pwp. text pwp.name) pwps ++ values_of P (codes "name") false es
  unfolding pending_events values_of is_key text_eq
  pending_events-names [] es = refl
  pending_events-names (pwp ∷ pwps) es = ap (λ l. text pwp.name ∷ l) (pending_events-names pwps es)

  pub document-names :
      (m : WaypointManager P)
      → values_of P (codes "name") false (document P G m)
        ≡ map (λ wp. text wp.name) m.waypoints ++ map (λ pwp. text pwp.name) m.pending_waypoints
  unfolding document values_of is_key text_eq
  document-names m =
      waypoint_events-names m.submap_world_pose m.waypoints (
        end_seq
        ∷ key (codes "pending_waypoints")
        ∷ begin_seq
        ∷ (pending_events P G m.pending_waypoints ++ end_seq ∷ end_map ∷ []))
      ∙ ap (λ l. map (λ wp. text wp.name) m.waypoints ++ l)
          (pending_events-names m.pending_waypoints (end_seq ∷ end_map ∷ []) ∙ append-nil _)
