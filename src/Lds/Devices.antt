-- ===== src/Lds/Devices.antt =====
-- The device list of the data source: reset and the two emptiness tests.
use auto_fastlio.Prelude.{
  ℕ, suc, ◌<◌, ◌≡◌, refl, sym, ap, ◌∙◌, inl, inr, none, some, List, [], ◌∷◌, ◌==◌, get_elem?, set,
  length, read, arith, Option-cases, get_elem?-read, get_elem?-set_self,
}
use auto_fastlio.Comm.{PointPacket, off}
use auto_fastlio.Ldq.{
  freed, LidarDataQueue, deinit_queue, queue_used_size, queue_is_empty, queue_is_full,
  queue_push_any, store,
}
use auto_fastlio.Ldq.Refine.{Entry, Holds, queue_used_size-length, queue_is_empty_iff}
use auto_fastlio.ImuQueue
use auto_fastlio.Numerics.{Numerics}
use auto_fastlio.Lds.{
  LidarDevice, Lds, reset_lidar, all_queues_empty, all_queues_read, is_all_queue_empty,
  is_all_queue_read_stop, allocated, push_or_drop, push_lidar_data,
}
use auto_fastlio.Lds.Ready.{Contains, fresh, live}
use auto_fastlio.Lds.Frames.{IsReady}

-- The two tests of a queue, by its indices and by its used size, agree.
queue_is_empty-eq-unused :
    {F : Type 0} {cap : ℕ} {q : LidarDataQueue F} {es : List (Entry F)}
    → Contains cap q es
    → queue_is_empty q ≡ (queue_used_size q == 0)
queue_is_empty-eq-unused {q = q} (fresh no_block same nothing) = fresh_lem q same
  where
    fresh_lem :
        {F : Type 0} (q : LidarDataQueue F)
        → q.rd_idx ≡ q.wr_idx
        → queue_is_empty q ≡ (queue_used_size q == 0)
    fresh_lem q same = unfold queue_is_empty queue_used_size in ground arith
queue_is_empty-eq-unused (live h) =
    queue_is_empty_iff h ∙ ap (λ t. t == 0) (sym (queue_used_size-length h))

module _ (N : Numerics) where
  all_queues_agree :
      (cap : ℕ) (lidars : List (LidarDevice N.Float))
      → ((i : ℕ) (lidar : LidarDevice N.Float)
          → get_elem? lidars i ≡ some lidar
          → (es : List (Entry N.Float)) × Contains cap lidar.queue es)
      → all_queues_empty N lidars ≡ all_queues_read N lidars
  unfolding all_queues_empty all_queues_read
  all_queues_agree cap [] held = refl
  all_queues_agree cap (lidar ∷ lidars) held =
      let (es, h) = held 0 lidar refl in
      rw (queue_is_empty-eq-unused h, all_queues_agree cap lidars (λ i. held (suc i))) refl

  -- In a data source that is ready, `IsAllQueueEmpty` and `IsAllQueueReadStop` give one answer:
  -- equal indices and a used size of 0 are the same, also across a wrap of the indices.
  pub is_all_queue_empty-eq-read_stop :
      (lds : Lds N) → IsReady N lds → is_all_queue_empty N lds ≡ is_all_queue_read_stop N lds
  unfolding is_all_queue_empty is_all_queue_read_stop
  is_all_queue_empty-eq-read_stop lds ready =
      elim (Option-cases (read lds.lidar_count lds.lidars)) [
        | inl e ↦ rw e refl
        | inr (visited, e) ↦ rw e (
            ap some (
              all_queues_agree _ visited (λ i lidar at.
                ready.queues i lidar (get_elem?-read lds.lidar_count lds.lidars i e at))))
      ]

  -- `ResetLidar` on a device whose queue has a block is defined and turns the device off, but keeps
  -- the address of the freed block: a second reset, and the next packet for that device, are
  -- undefined.
  pub reset_lidar-then_push :
      (lds : Lds N) (lidar : LidarDevice N.Float) (packet : PointPacket N.Float) (index t src : ℕ)
      {cap : ℕ} {es : List (Entry N.Float)}
      → Holds cap lidar.queue es
      → index < length lds.lidars
      → (lidar' : LidarDevice N.Float) × (reset_lidar N lidar src ≡ some lidar')
        × (lidar'.connect_state ≡ off)
        × (reset_lidar N lidar' src ≡ none)
        × (push_lidar_data N (record lds { lidars = set lds.lidars index lidar' }) packet index t
            ≡ none)
  unfolding reset_lidar deinit_queue push_lidar_data allocated push_or_drop queue_is_full
  reset_lidar-then_push lds lidar packet index t src h inside =
      let lidar' : LidarDevice N.Float = record lidar {
        queue = record { storage_packet = freed; rd_idx = 0; wr_idx = 0; size = 0; mask = 0 };
        imu_data = [];
        data_src = src;
        connect_state = off;
      } in
      (
        lidar',
        unfold ImuQueue.clear in ground (arith, h.storage),
        refl,
        refl,
        rw (get_elem?-set_self lds.lidars index lidar' inside)
            (rw (no_block lidar'.queue refl) refl),
      )
    where
      no_block :
          (q : LidarDataQueue N.Float) → q.storage_packet ≡ freed → queue_push_any q packet t ≡ none
      no_block q e = unfold queue_push_any store in ground (arith, e)
