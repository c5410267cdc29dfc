-- ===== src/Waypoint/File/Saved.antt =====
-- What `save_waypoints_cb` and `autosave` of waypoint_manager_module.hpp leave on the disk.
use auto_fastlio.Prelude.{
  ℕ, ◌≡◌, refl, ◌+◌, ◌<◌, arith, true, false, Option, some, List, [], ◌∷◌, ◌++◌, map, length, ◌&&◌,
  ◌==◌, ==_iff,
}
use auto_fastlio.Comm.Text.{codes}
use auto_fastlio.Waypoint.{Poses, WaypointManager}
use auto_fastlio.Waypoint.Geometry.{Geometry}
use auto_fastlio.Waypoint.File.{YamlEvent, text, Output, document, write_yaml, autosave}
use auto_fastlio.Waypoint.File.Nesting.{
  at_start, read_events, values_of, document-read, document-names,
}

-- What was written at `path`: one document whose maps and sequences are all closed, with a value for
-- each key, that has the names of all waypoints and then of all pending ones, in their order.
pub record Records (P : Poses) (out : Output P) (path : List ℕ) (m : WaypointManager P)
    (written : Option (List ℕ × List ℕ)) : Type 0 where
  pub events : List (YamlEvent P)
  pub file : written ≡ some (path, out.c_str events)
  pub nested : read_events P events (at_start ∷ []) ≡ some []
  pub names :
      values_of P (codes "name") false events
      ≡ map (λ wp. text wp.name) m.waypoints ++ map (λ pwp. text pwp.name) m.pending_waypoints

module _ (P : Poses) (G : Geometry P) (out : Output P) (m : WaypointManager P) where
  write_yaml-Records :
      (path : List ℕ)
      → out.opens path ≡ true
      → ((write_yaml P G out path m).0 ≡ true) × Records P out path m (write_yaml P G out path m).1
  unfolding write_yaml
  write_yaml-Records path opens = (
    rw opens refl,
    record {
      events = document P G m;
      file = rw opens refl;
      nested = document-read P G m;
      names = document-names P G m;
    },
  )

  -- What is saved every ten seconds has every waypoint, and every pending one, of a session.
  pub autosave-Records :
      0 < length m.waypoints + length m.pending_waypoints
      → out.opens (codes "/tmp/waypoints_autosave.yaml") ≡ true
      → Records P out (codes "/tmp/waypoints_autosave.yaml") m (autosave P G out m)
  unfolding autosave
  autosave-Records some_named opens =
      rw (not_empty (length m.waypoints) (length m.pending_waypoints) some_named)
        (write_yaml-Records (codes "/tmp/waypoints_autosave.yaml") opens).1
    where
      not_empty : (a b : ℕ) → 0 < a + b → ((a == 0) && (b == 0)) ≡ false
      not_empty a b h = ground (arith, ==_iff a 0, ==_iff b 0)
