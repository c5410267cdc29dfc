-- ===== src/Lds/Ready.antt =====
-- The devices of a data source that is ready for packets, and what a packet does to one of them.
use auto_fastlio.Prelude.{
  ℕ, ◌<◌, ◌≡◌, refl, ap, inl, inr, none, some, List, [], ◌∷◌, ◌++◌, ◌==◌, if◌then◌else◌, get_elem?,
  set, length, read, arith, Bool-cases, length-append,
}
use auto_fastlio.Comm.{u32, PointPacket, PointXyzlt}
use auto_fastlio.Ldq.{null, LidarDataQueue, block_size, delete_storage, queue_is_full}
use auto_fastlio.Ldq.Refine.{Entry, Holds, queue_is_full_iff, queue_is_empty_iff}
use auto_fastlio.Ldq.Lifecycle.{init_queue-Holds}
use auto_fastlio.Ldq.Transfer.{queue_push_any-Holds}
use auto_fastlio.Numerics.{Numerics}
use auto_fastlio.Semaphore.{signal_if_zero}
use auto_fastlio.Lds.{
  LidarDevice, Lds, calculate_packet_queue_size, allocated, push_or_drop, signal_after,
  push_lidar_data,
}

-- A queue that has no block yet holds nothing; one that has a block is a bounded queue.
pub data Contains {F : Type 0} (cap : ℕ) (q : LidarDataQueue F) (es : List (Entry F)) : Type 0 where
  fresh : q.storage_packet ≡ null → q.rd_idx ≡ q.wr_idx → es ≡ [] → Contains cap q es
  live : Holds cap q es → Contains cap q es

-- What a bounded queue keeps of one more entry: the newest is dropped when there is no room.
abbrev pub offered : {F : Type 0} → ℕ → List (Entry F) → Entry F → List (Entry F)
offered cap es e = if length es == cap then es else es ++ e ∷ []

module _ (N : Numerics) where
  -- The capacity that `PushLidarData` gives a queue at a publishing frequency.
  abbrev pub capacity : N.Double → ℕ
  capacity freq = block_size (calculate_packet_queue_size N freq)

  pub calculate_packet_queue_size-lt : (freq : N.Double) → calculate_packet_queue_size N freq < u32
  unfolding calculate_packet_queue_size
  calculate_packet_queue_size-lt freq = ground arith

  pub allocated-Holds :
      (freq : N.Double) (q : LidarDataQueue N.Float) (es : List (Entry N.Float))
      → Contains (capacity freq) q es
      → (q' : LidarDataQueue N.Float) × (allocated N freq q ≡ some q') × Holds (capacity freq) q' es
  unfolding allocated delete_storage
  allocated-Holds freq q es (fresh no_block idle nothing) =
      let (q', e, h) =
        init_queue-Holds q (calculate_packet_queue_size N freq)
          (calculate_packet_queue_size-lt freq)
          (λ (f : delete_storage q.storage_packet ≡ none). ground (arith, f)) in
      (q', ground arith, rw nothing h)
  allocated-Holds freq q es (live h) = (q, ground (arith, h.storage), h)

  -- The push takes the packet's points if there is room, and leaves the queue alone if not.
  pub push_or_drop-Holds :
      (cap : ℕ) (q : LidarDataQueue N.Float) (es : List (Entry N.Float))
      (packet : PointPacket N.Float) (base_time : ℕ) {pts : List (PointXyzlt N.Float)}
      → Holds cap q es
      → read packet.points_num packet.points ≡ some pts
      → (q' : LidarDataQueue N.Float) × (push_or_drop N q packet base_time ≡ some q')
        × Holds cap q' (offered cap es (record { base_time = base_time; points = pts }))
  unfolding push_or_drop
  push_or_drop-Holds cap q es packet base_time {pts} h e = elim (Bool-cases (length es == cap)) [
    | inl full ↦ (q, ground (arith, queue_is_full_iff h), rw full h)
    | inr room ↦
        let below : length es < cap = ground (arith, h.cap_eq, h.fits) in
        let (q', got, h') = queue_push_any-Holds packet base_time h below e in
        (q', ground (arith, queue_is_full_iff h), rw room h')
  ]

  -- The semaphore is raised whenever it is at 0: after a drop, and after a push, which leaves the
  -- queue with an entry.
  signal_after-Holds :
      (cap count : ℕ) (q q' : LidarDataQueue N.Float) (es : List (Entry N.Float))
      (e : Entry N.Float)
      → Holds cap q es
      → Holds cap q' (offered cap es e)
      → signal_after N (queue_is_full q) q' count ≡ signal_if_zero count
  unfolding signal_after
  signal_after-Holds cap count q q' es e h h' = elim (Bool-cases (length es == cap)) [
    | inl full ↦ ground (arith, queue_is_full_iff h)
    | inr room ↦
        let grown : offered cap es e ≡ es ++ e ∷ [] = rw room refl in
        ground (
          arith,
          queue_is_full_iff h,
          queue_is_empty_iff h',
          ap length grown,
          length-append es (e ∷ []),
        )
  ]

  -- `PushLidarData` for a device that is there, with a packet whose points can be read, is defined:
  -- the packet goes to the end of that device's queue, or is dropped if the queue is at capacity;
  -- no other device changes, and the semaphore is raised if it is at 0.
  pub push_lidar_data_lem :
      (lds : Lds N) (packet : PointPacket N.Float) (index base_time : ℕ)
      {pts : List (PointXyzlt N.Float)} {lidar : LidarDevice N.Float} {es : List (Entry N.Float)}
      → get_elem? lds.lidars index ≡ some lidar
      → Contains (capacity lds.publish_freq) lidar.queue es
      → read packet.points_num packet.points ≡ some pts
      → (q' : LidarDataQueue N.Float) × (push_lidar_data N lds packet index base_time
          ≡ some (record lds {
            lidars = set lds.lidars index (record lidar { queue = q' });
            pcd_semaphore = signal_if_zero lds.pcd_semaphore;
          }))
        × Holds (capacity lds.publish_freq) q' (
            offered (capacity lds.publish_freq) es (record { base_time = base_time; points = pts }))
  unfolding push_lidar_data
  push_lidar_data_lem lds packet index base_time {pts} {lidar} {es} at held e =
      let (q, ready, h) = allocated-Holds lds.publish_freq lidar.queue es held in
      let (q', pushed, h') =
        push_or_drop-Holds (capacity lds.publish_freq) q es packet base_time h e in
      (
        q',
        rw
            (
              at,
              ready,
              pushed,
              signal_after-Holds (capacity lds.publish_freq) lds.pcd_semaphore q q' es
                  (record { base_time = base_time; points = pts }) h h',
            )
            refl,
        h',
      )
