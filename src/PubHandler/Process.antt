-- ===== src/PubHandler/Process.antt =====
-- What processing a packet does to the handler of its lidar.
use auto_fastlio.Prelude.{
  ℕ, zero, suc, ◌+◌, ◌≡◌, refl, sym, ◌∙◌, ap, some, List, ◌++◌, ◌>>=◌, append_assoc, append-nil,
  arith, Bool-cases, Option-cases, inl, inr, ◌==◌, if◌then◌else◌,
}
use auto_fastlio.Comm.{PointXyzlt, ExtParameter, livox_lidar_type}
use auto_fastlio.Numerics.{Numerics}
use auto_fastlio.PubHandler.{
  Layout, RawPacket, LidarPubHandler, round_points, process_from, point_cloud_process,
  set_lidars_ext_param,
}
use auto_fastlio.PubHandler.Reference.{rounds_of, packet_points}
use auto_fastlio.PubHandler.Rounds.{rounds_of-eq-packet_points}

module _ (N : Numerics) where
  -- The extrinsic parameters are taken once: those set first stay.
  pub set_lidars_ext_param-set_lidars_ext_param :
      (first second : ExtParameter N.Float) (h : LidarPubHandler N.Float)
      → set_lidars_ext_param N second (set_lidars_ext_param N first h)
        ≡ set_lidars_ext_param N first h
  unfolding set_lidars_ext_param
  set_lidars_ext_param-set_lidars_ext_param first second h =
      elim (Bool-cases h.is_set_extrinsic_params) [
        | inl before ↦ ground (arith, before)
        | inr not_yet ↦ rw not_yet refl
      ]

  module _ (layout : Layout) (pkt : RawPacket) where
    -- The handler with new points behind those it holds.
    abbrev pub grown : LidarPubHandler N.Float → List (PointXyzlt N.Float) → LidarPubHandler N.Float
    grown h new = record h { points_clouds = h.points_clouds ++ new }

    process_from_lem :
        (rounds i : ℕ) (h : LidarPubHandler N.Float)
        → process_from N layout pkt rounds i h ≡ (
            rounds_of (round_points N layout h.extrinsic pkt) rounds i >>= λ new.
            some (grown h new))
    unfolding rounds_of process_from
    process_from_lem zero i h =
        ap (λ l. some (record h { points_clouds = l })) (sym (append-nil h.points_clouds))
    process_from_lem (suc rounds) i h =
        elim (Option-cases (round_points N layout h.extrinsic pkt i)) [
          | inl fault ↦ rw fault refl
          | inr (points, first) ↦ rw first (
              process_from_lem rounds (i + 1) (grown h points)
              ∙ elim (Option-cases
                  (rounds_of (round_points N layout h.extrinsic pkt) rounds (i + 1))) [
                    | inl fault ↦ rw fault refl
                    | inr (rest, later) ↦ rw later (
                        ap (λ l. some (record h { points_clouds = l }))
                          (append_assoc h.points_clouds points rest))
                  ])
        ]

    -- What processing a packet does, told by its points one by one: a Livox packet appends its points
    -- number 0, 1, … to those that the handler holds, as many as its records, twice as many for data
    -- with two echoes and none for an unknown data type, and is undefined exactly if one of them
    -- cannot be read; a packet of another protocol changes nothing.
    pub point_cloud_process_lem :
        (h : LidarPubHandler N.Float)
        → point_cloud_process N layout pkt h ≡ (
            if pkt.lidar_type == livox_lidar_type
            then (packet_points N layout h.extrinsic pkt >>= λ new. some (grown h new))
            else some h)
    unfolding point_cloud_process
    point_cloud_process_lem h = elim (Bool-cases (pkt.lidar_type == livox_lidar_type)) [
      | inl livox ↦ rw livox (
          process_from_lem pkt.point_num 0 h
          ∙ ap (λ o. o >>= λ new. some (grown h new))
              (rounds_of-eq-packet_points N layout h.extrinsic pkt))
      | inr foreign ↦ rw foreign refl
    ]
