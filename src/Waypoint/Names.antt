-- ===== src/Waypoint/Names.antt =====
-- Names of waypoints: none is lost or doubled when pending ones are bound, and adding one replaces
-- the one of its name.
use auto_fastlio.Prelude.{
  ℕ, ◌+◌, ◌≡◌, ◌≢◌, refl, ◌∙◌, ap, true, false, Option, none, some, List, [], ◌∷◌, ◌++◌, ◌==◌,
  if◌then◌else◌, length, arith, Option-cases, Bool-cases, inl, inr,
}
use auto_fastlio.Prelude.Decimal.{text_eq, text_eq_iff}
use auto_fastlio.Waypoint.{
  Poses, WaypointEntry, PendingWaypoint, SubmapReference, SubMap, WaypointManager,
  find_submap_for_stamp, entry_of, erase_waypoint_named, erase_pending_waypoint_named, bind_from,
  bind_pending_waypoints, on_new_submap, first_frame, last_frame, add_waypoint_cb,
}

module _ (P : Poses) (n : List ℕ) where
  -- How many waypoints have the name n, among the tagged and among the pending ones.
  unfoldable pub count : List (WaypointEntry P) → ℕ
  count [] = 0
  count (wp ∷ wps) = (if text_eq wp.name n then 1 else 0) + count wps

  unfoldable pub count_pending : List (PendingWaypoint P) → ℕ
  count_pending [] = 0
  count_pending (wp ∷ wps) = (if text_eq wp.name n then 1 else 0) + count_pending wps

  -- How many in all.
  abbrev pub total : WaypointManager P → ℕ
  total m = count m.waypoints + count_pending m.pending_waypoints

  count-append : (a b : List (WaypointEntry P)) → count (a ++ b) ≡ count a + count b
  unfolding count
  count-append [] b = omega arith
  count-append (x ∷ a) b = omega (arith, count-append a b)

  count_pending-append :
      (a b : List (PendingWaypoint P)) → count_pending (a ++ b) ≡ count_pending a + count_pending b
  unfolding count_pending
  count_pending-append [] b = omega arith
  count_pending-append (x ∷ a) b = omega (arith, count_pending-append a b)

  -- The two rounds of the binding.
  bind_from-none :
      (refs : List (SubmapReference P)) (p : PendingWaypoint P) (pending : List (PendingWaypoint P))
      (wps : List (WaypointEntry P))
      → find_submap_for_stamp P p.stamp refs ≡ none
      → bind_from P refs (p ∷ pending) wps
        ≡ ((bind_from P refs pending wps).0, p ∷ (bind_from P refs pending wps).1)
  unfolding bind_from
  bind_from-none refs p pending wps out = rw (out, bind_from) refl

  bind_from-some :
      (refs : List (SubmapReference P)) (p : PendingWaypoint P) (pending : List (PendingWaypoint P))
      (wps : List (WaypointEntry P)) (submap : SubmapReference P)
      → find_submap_for_stamp P p.stamp refs ≡ some submap
      → bind_from P refs (p ∷ pending) wps
        ≡ bind_from P refs pending (wps ++ entry_of P p.name p.odom_sensor submap ∷ [])
  unfolding bind_from
  bind_from-some refs p pending wps submap found = rw (found, bind_from) refl

  abbrev both : List (WaypointEntry P) × List (PendingWaypoint P) → ℕ
  both r = count r.0 + count_pending r.1

  bind_from-count :
      (refs : List (SubmapReference P)) (pending : List (PendingWaypoint P))
      (wps : List (WaypointEntry P))
      → both (bind_from P refs pending wps) ≡ count wps + count_pending pending
  unfolding count count_pending entry_of
  bind_from-count refs [] wps = unfold bind_from in refl
  bind_from-count refs (p ∷ pending) wps =
      elim (Option-cases (find_submap_for_stamp P p.stamp refs)) [
        | inl out ↦
            ap both (bind_from-none refs p pending wps out)
            ∙ omega (arith, bind_from-count refs pending wps)
        | inr (submap, e) ↦
            ap both (bind_from-some refs p pending wps submap e)
            ∙ omega (
              arith,
              bind_from-count refs pending (wps ++ entry_of P p.name p.odom_sensor submap ∷ []),
              count-append wps (entry_of P p.name p.odom_sensor submap ∷ []),
            )
      ]

  -- Whatever submap arrives, every name is had as often as before, tagged or pending.
  pub on_new_submap-total :
      (submap : Option (SubMap P)) (m : WaypointManager P)
      → total (on_new_submap P submap m) ≡ total m
  unfolding on_new_submap bind_pending_waypoints
  on_new_submap-total none m = refl
  on_new_submap-total (some submap) m = elim (Option-cases (first_frame P submap.frames)) [
    | inl a ↦ rw (a, on_new_submap) refl
    | inr (first, a) ↦ elim (Option-cases (last_frame P submap.frames)) [
      | inl b ↦ rw (a, on_new_submap, b) refl
      | inr (last, b) ↦ elim (Option-cases submap.origin_frame) [
        | inl c ↦ rw (a, on_new_submap, b, c) refl
        | inr (origin, c) ↦
            rw (a, on_new_submap, b, c) (bind_from-count _ m.pending_waypoints m.waypoints)
      ]
    ]
  ]

  same_left : (a b : List ℕ) → text_eq a b ≡ true → text_eq a n ≡ text_eq b n
  same_left a b e = ap (λ t. text_eq t n) ((text_eq_iff a b).0 e)

  same_right : (a b : List ℕ) → text_eq b n ≡ true → text_eq a b ≡ text_eq a n
  same_right a b e = ap (λ t. text_eq a t) ((text_eq_iff b n).0 e)

  -- Erasing a name leaves the others.
  erase-count :
      (name : List ℕ) (wps : List (WaypointEntry P))
      → count (erase_waypoint_named P name wps) ≡ (if text_eq name n then 0 else count wps)
  unfolding count erase_waypoint_named
  erase-count name [] = ground arith
  erase-count name (wp ∷ wps) = elim (Bool-cases (text_eq wp.name name)) [
    | inl same ↦ ground (arith, erase-count name wps, same_left wp.name name same)
    | inr differs ↦ elim (Bool-cases (text_eq name n)) [
      | inl this ↦ ground (arith, erase-count name wps, same_right wp.name name this)
      | inr other ↦ ground (arith, erase-count name wps)
    ]
  ]

  erase_pending-count :
      (name : List ℕ) (wps : List (PendingWaypoint P))
      → count_pending (erase_pending_waypoint_named P name wps)
        ≡ (if text_eq name n then 0 else count_pending wps)
  unfolding count_pending erase_pending_waypoint_named
  erase_pending-count name [] = ground arith
  erase_pending-count name (wp ∷ wps) = elim (Bool-cases (text_eq wp.name name)) [
    | inl same ↦ ground (arith, erase_pending-count name wps, same_left wp.name name same)
    | inr differs ↦ elim (Bool-cases (text_eq name n)) [
      | inl this ↦ ground (arith, erase_pending-count name wps, same_right wp.name name this)
      | inr other ↦ ground (arith, erase_pending-count name wps)
    ]
  ]

  -- When there is a frame and the name is not empty, `add_waypoint_cb` leaves that name exactly once,
  -- tagged or pending, and every other name as often as it was.
  pub add_waypoint_cb-total :
      (name : List ℕ) (m : WaypointManager P)
      → m.has_frame ≡ true
      → length name ≢ 0
      → total (add_waypoint_cb P name m).1 ≡ (if text_eq name n then 1 else total m)
  unfolding add_waypoint_cb
  add_waypoint_cb-total name m framed named =
      let wps = erase_waypoint_named P name m.waypoints in
      let pending = erase_pending_waypoint_named P name m.pending_waypoints in
      let new : PendingWaypoint P = record {
        name = name;
        stamp = m.latest_frame_stamp;
        odom_sensor = m.latest_frame_pose;
      } in
      let some_name : (length name == 0) ≡ false = ground (arith, named) in
      elim (Option-cases (find_submap_for_stamp P m.latest_frame_stamp m.submap_references)) [
        | inl out ↦
            rw (framed, some_name, out)
              (unfold count_pending in
                ground (
                  arith,
                  count_pending-append pending (new ∷ []),
                  erase-count name m.waypoints,
                  erase_pending-count name m.pending_waypoints,
                ))
        | inr (submap, e) ↦
            rw (framed, some_name, e)
              (unfold count entry_of in
                ground (
                  arith,
                  count-append wps (entry_of P name m.latest_frame_pose submap ∷ []),
                  erase-count name m.waypoints,
                  erase_pending-count name m.pending_waypoints,
                ))
      ]
