-- ===== src/PubHandler/Arrival.antt =====
-- A packet on its way through RawDataProcess of src/livox_ros_driver2/src/comm/pub_handler.cpp.
use auto_fastlio.Prelude.{
  ℕ, ◌+◌, ◌≤◌, inl, inr, Option, none, some, List, [], ◌∷◌, ◌++◌, ◌==◌, ltb, ◌>>=◌, arith,
  Bool-cases,
}
use auto_fastlio.Comm.{PointXyzlt, LidarExtParameter}
use auto_fastlio.Numerics.{Numerics}
use auto_fastlio.PubHandler.{
  Layout, RawPacket, LidarPubHandler, new_handler, set_lidars_ext_param, point_cloud_process,
}
use auto_fastlio.PubHandler.Timer.{check_timer}
use auto_fastlio.PubHandler.Queue.{PubProcess, assign_at, prepared_handler}

-- The keys of a map, each above the one before, from a lowest one on.
abbrev pub SortedFrom {ℓ} : {A : Type ℓ} → ℕ → List (ℕ × A) → Type 0
SortedFrom low [] = Unit {0}
SortedFrom low ((j, v) ∷ m) = (low ≤ j) × SortedFrom (j + 1) m

pub assign_at-SortedFrom {ℓ} :
    {A : Type ℓ} (k : ℕ) (v : A) (low : ℕ) (m : List (ℕ × A))
    → low ≤ k
    → SortedFrom low m
    → SortedFrom low (assign_at k v m)
unfolding assign_at
assign_at-SortedFrom k v low [] h s = (h, tt)
assign_at-SortedFrom k v low ((j, w) ∷ m) h (a, s) = elim (Bool-cases (j == k)) [
  | inl same ↦ rw same (a, s)
  | inr differ ↦ elim (Bool-cases (ltb k j)) [
    | inl before ↦
        let put : SortedFrom low ((k, v) ∷ (j, w) ∷ m) = (h, (ground (arith, before), s)) in
        rw (differ, before) put
    | inr after ↦
        rw (differ, after) (a, assign_at-SortedFrom k v (j + 1) m (ground (arith, differ, after)) s)
  ]
]

module _ {F : Type 0} (id : ℕ) where
  -- What a lidar holds, by its entry.
  abbrev points_at : Option (LidarPubHandler F) → List (PointXyzlt F)
  points_at none = []
  points_at (some h) = h.points_clouds

module _ (N : Numerics) where
  -- The handler by what the two maps have for it.
  abbrev found_or_new : Option (LidarPubHandler N.Float) → LidarPubHandler N.Float
  found_or_new none = new_handler N
  found_or_new (some h) = h

  abbrev with_param :
      Option (LidarExtParameter N.Float) → LidarPubHandler N.Float → LidarPubHandler N.Float
  with_param none h = h
  with_param (some param) h = set_lidars_ext_param N param.param h

  -- The rest of the round, for the lidar `k`.
  abbrev process_as : Layout → ℕ → ℕ → RawPacket → PubProcess N.Float → Option (PubProcess N.Float)
  process_as layout now k raw s =
      point_cloud_process N layout raw (prepared_handler N k s) >>= λ handler.
      check_timer now k (record s.timers { handlers = assign_at k handler s.timers.handlers })
      >>= λ timers. some (record s { timers = timers })

  -- The handler with the points of a packet.
  abbrev with_new : ℕ → PubProcess N.Float → List (PointXyzlt N.Float) → LidarPubHandler N.Float
  with_new k s new = record (prepared_handler N k s) {
    points_clouds = (prepared_handler N k s).points_clouds ++ new;
  }
