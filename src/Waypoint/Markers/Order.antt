-- ===== src/Waypoint/Markers/Order.antt =====
-- The markers that `publish_markers` of waypoint_manager_module.hpp publishes.
use auto_fastlio.Prelude.{
  ℕ, zero, suc, ◌+◌, ◌*◌, ◌≡◌, refl, sym, ap, subst, Bool, true, false, not, ◌||◌, if◌then◌else◌,
  length, ◌==◌, ◌∙◌, arith, none, some, List, [], ◌∷◌, inl, inr, get_elem?, Option-cases,
  some_injective,
}
use auto_fastlio.Prelude.Int.{ℤ}
use auto_fastlio.Comm.Text.{codes}
use auto_fastlio.Waypoint.{Poses, WaypointEntry, WaypointManager, world_pose_of}
use auto_fastlio.Waypoint.Geometry.{Geometry}
use auto_fastlio.Waypoint.Markers.{
  Marker, sphere_marker, text_marker, current_pose, markers_from, publish_markers,
}

-- The marker at an even place is a sphere, at an odd place a name; both have half the place for id.
pub data IsPlaced (P : Poses) (idx j : ℕ) (m : Marker P) : Type 0 where
  sphere_at : (i : ℕ) → j ≡ 2 * i → m.ns ≡ codes "waypoints" → m.id ≡ idx + i → IsPlaced P idx j m
  name_at :
      (i : ℕ) → j ≡ 2 * i + 1 → m.ns ≡ codes "waypoint_names" → m.id ≡ idx + i → IsPlaced P idx j m

module _ (P : Poses) (G : Geometry P) where
  IsPlaced-later : (idx j : ℕ) (m : Marker P) → IsPlaced P (idx + 1) j m → IsPlaced P idx (j + 2) m
  IsPlaced-later idx j m (sphere_at i at ns id) =
      sphere_at (i + 1) (omega (arith, at)) ns (omega (arith, id))
  IsPlaced-later idx j m (name_at i at ns id) =
      name_at (i + 1) (omega (arith, at)) ns (omega (arith, id))

  markers_from-unknown :
      (now idx : ℕ) (poses : List (ℤ × P.Pose)) (wp : WaypointEntry P)
      (wps : List (WaypointEntry P))
      → world_pose_of P wp.submap_id poses ≡ none
      → markers_from P G now idx poses (wp ∷ wps) ≡ markers_from P G now idx poses wps
  unfolding markers_from
  markers_from-unknown now idx poses wp wps unknown = rw (markers_from, unknown) refl

  markers_from-known :
      (now idx : ℕ) (poses : List (ℤ × P.Pose)) (wp : WaypointEntry P)
      (wps : List (WaypointEntry P)) (pose : P.Pose)
      → world_pose_of P wp.submap_id poses ≡ some pose
      → markers_from P G now idx poses (wp ∷ wps)
        ≡ sphere_marker P G now idx (current_pose P G pose wp)
          ∷ text_marker P G wp.name (sphere_marker P G now idx (current_pose P G pose wp))
          ∷ markers_from P G now (idx + 1) poses wps
  unfolding markers_from
  markers_from-known now idx poses wp wps pose known = rw (markers_from, known) refl

  pair-IsPlaced :
      (now idx : ℕ) (world : P.Pose) (name : List ℕ) (rest : List (Marker P))
      → ((j : ℕ) (m : Marker P) → get_elem? rest j ≡ some m → IsPlaced P (idx + 1) j m)
      → (j : ℕ) (m : Marker P)
      → get_elem?
          (sphere_marker P G now idx world
            ∷ text_marker P G name (sphere_marker P G now idx world)
            ∷ rest)
          j
        ≡ some m
      → IsPlaced P idx j m
  unfolding sphere_marker text_marker
  pair-IsPlaced now idx world name rest later zero m e =
      subst (IsPlaced P idx 0) (some_injective e) (sphere_at 0 refl refl (omega arith))
  pair-IsPlaced now idx world name rest later (suc zero) m e =
      subst (IsPlaced P idx 1) (some_injective e) (name_at 0 refl refl (omega arith))
  pair-IsPlaced now idx world name rest later (suc (suc j)) m e =
      subst (λ k. IsPlaced P idx k m) (omega arith) (IsPlaced-later idx j m (later j m e))

  markers_from-IsPlaced :
      (now idx : ℕ) (poses : List (ℤ × P.Pose)) (wps : List (WaypointEntry P)) (j : ℕ)
      (m : Marker P)
      → get_elem? (markers_from P G now idx poses wps) j ≡ some m
      → IsPlaced P idx j m
  unfolding markers_from
  markers_from-IsPlaced now idx poses [] j m e = absurd (cc e)
  markers_from-IsPlaced now idx poses (wp ∷ wps) j m e =
      elim (Option-cases (world_pose_of P wp.submap_id poses)) [
        | inl unknown ↦
            markers_from-IsPlaced now idx poses wps j m (
              sym (ap (λ l. get_elem? l j) (markers_from-unknown now idx poses wp wps unknown)) ∙ e)
        | inr (pose, known) ↦
            pair-IsPlaced now idx (current_pose P G pose wp) wp.name
              (markers_from P G now (idx + 1) poses wps)
              (λ k n f. markers_from-IsPlaced now (idx + 1) poses wps k n f) j m
              (sym (ap (λ l. get_elem? l j) (markers_from-known now idx poses wp wps pose known))
                ∙ e)
      ]

  IsPlaced-distinct :
      (j k : ℕ) (a b : Marker P)
      → IsPlaced P 0 j a
      → IsPlaced P 0 k b
      → a.ns ≡ b.ns
      → a.id ≡ b.id
      → j ≡ k
  IsPlaced-distinct j k a b (sphere_at i at ns id) (sphere_at i' at' ns' id') same same_id =
      omega (arith, at, at', id, id', same_id)
  IsPlaced-distinct j k a b (name_at i at ns id) (name_at i' at' ns' id') same same_id =
      omega (arith, at, at', id, id', same_id)
  IsPlaced-distinct j k a b (sphere_at i at ns id) (name_at i' at' ns' id') same same_id =
      absurd (cc (sym ns ∙ same ∙ ns'))
  IsPlaced-distinct j k a b (name_at i at ns id) (sphere_at i' at' ns' id') same same_id =
      absurd (cc (sym ns ∙ same ∙ ns'))

  -- No marker of what is published replaces another: two with the same namespace and the same id are
  -- one and the same, whatever the waypoints and however many of their submaps have no pose yet.
  pub publish_markers-distinct :
      (now : ℕ) (has_publisher : Bool) (w : WaypointManager P) (markers : List (Marker P)) (j k : ℕ)
      (a b : Marker P)
      → publish_markers P G now has_publisher w ≡ some markers
      → get_elem? markers j ≡ some a
      → get_elem? markers k ≡ some b
      → a.ns ≡ b.ns
      → a.id ≡ b.id
      → j ≡ k
  unfolding publish_markers
  publish_markers-distinct now has_publisher w markers j k a b published at_j at_k ns id =
      let drawn =
        shown_when (not has_publisher || (length w.waypoints == 0))
          (markers_from P G now 0 w.submap_world_pose w.waypoints) published in
      IsPlaced-distinct j k a b
        (markers_from-IsPlaced now 0 w.submap_world_pose w.waypoints j a
          (ap (λ l. get_elem? l j) drawn ∙ at_j))
        (markers_from-IsPlaced now 0 w.submap_world_pose w.waypoints k b
          (ap (λ l. get_elem? l k) drawn ∙ at_k))
        ns id
    where
      shown_when :
          (hidden : Bool) (l : List (Marker P))
          → (if hidden then none else some l) ≡ some markers
          → l ≡ markers
      shown_when true l e = absurd (cc e)
      shown_when false l e = some_injective e
