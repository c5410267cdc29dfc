-- ===== src/Lddc/Order.antt =====
-- What the polling loops of lddc.cpp publish, and in which order.
use auto_fastlio.Prelude.{
  ℕ, zero, suc, ◌+◌, ◌*◌, ◌^◌, ◌%◌, ◌<◌, ◌≤◌, ◌≡◌, refl, ◌∙◌, true, false, Option, some, List, [],
  ◌∷◌, ◌==◌, if◌then◌else◌, get_elem?, length, arith, map, ap,
}
use auto_fastlio.Comm.{PointXyzlt, StoragePacket, livox_lidar_type}
use auto_fastlio.Numerics.{Numerics}
use auto_fastlio.Ldq.{block, blank, LidarDataQueue, queue_is_empty}
use auto_fastlio.Ldq.Refine.{Entry, Holds, queue_is_empty_iff, popped_packet}
use auto_fastlio.Lds.{LidarDevice, Lds}
use auto_fastlio.Lddc.Messages.{
  PointCloud2, CustomMsg, init_custom_msg, header_fields, cloud_point, custom_point,
}
use auto_fastlio.Lddc.Contents.{init_pointcloud2_msg_lem, fill_points_to_custom_msg_lem}
use auto_fastlio.Lddc.Publish.{
  Lddc, Publisher, Message, cloud, custom, point_cloud2_msg, livox_custom_msg, deliver_pointcloud2,
  deliver_custom, publish, cast_to, get_current_publisher, publish_pointcloud2_data,
  publish_custom_point_data,
}
use auto_fastlio.Lddc.Drain.{done, no_fuel, drain, drain_lem, deliver_all}
use auto_fastlio.Lddc.Log.{
  PublishesOn, with_published, messages_of, deliver_all-messages, stamp_of-some,
}
use auto_fastlio.Lddc.Polling.{
  publish_by_format, poll, polling_lidar_point_cloud_data, publish_pcl_msg,
}

module _ (N : Numerics) where
  -- The cloud of an entry: all its points, in order, stamped with the frame's base time.
  abbrev pub cloud_of : List ℕ → Entry N.Float → Message N
  cloud_of frame_id e = cloud (record {
    frame_id = frame_id;
    fields = header_fields;
    stamp = e.base_time;
    height = 1;
    width = length e.points;
    point_step = 26;
    row_step = length e.points * 26 % 2 ^ 32;
    is_bigendian = false;
    is_dense = true;
    points = map (cloud_point N) e.points;
  })

  -- The custom message of an entry of one device.
  abbrev pub custom_of : List ℕ → LidarDevice N.Float → Entry N.Float → Message N
  custom_of frame_id lidar e = custom (record {
    frame_id = frame_id;
    stamp = e.base_time;
    timebase = e.base_time;
    point_num = length e.points;
    lidar_id = if lidar.lidar_type == livox_lidar_type then lidar.handle % 256 else 0;
    points = map (custom_point N e.base_time) e.points;
  })

  module _ (p : Publisher) (frame_id : List ℕ) where
    publish_pointcloud2_data-ready :
        (lds : Lds N) (index : ℕ) (lddc : Lddc N) (msg : PointCloud2 N)
        → PublishesOn N p frame_id point_cloud2_msg lddc
        → publish_pointcloud2_data N lds index msg lddc
          ≡ some (with_published N lddc ((p, cloud msg) ∷ []))
    unfolding publish_pointcloud2_data get_current_publisher publish cast_to
    publish_pointcloud2_data-ready lds index lddc msg ready =
        ground (arith, ready.single, ready.made, ready.kind, ready.ros)

    publish_custom_point_data-ready :
        (lds : Lds N) (index : ℕ) (lddc : Lddc N) (msg : CustomMsg N.Float)
        → PublishesOn N p frame_id livox_custom_msg lddc
        → publish_custom_point_data N lds index msg lddc
          ≡ some (with_published N lddc ((p, custom msg) ∷ []))
    unfolding publish_custom_point_data get_current_publisher publish cast_to
    publish_custom_point_data-ready lds index lddc msg ready =
        ground (arith, ready.single, ready.made, ready.kind, ready.ros)

    -- Each body publishes the message of the entry that was popped.
    deliver_pointcloud2_lem :
        (lds : Lds N) (index : ℕ) (lddc : Lddc N) (e : Entry N.Float) (x : PointXyzlt N.Float)
        (xs : List (PointXyzlt N.Float))
        → PublishesOn N p frame_id point_cloud2_msg lddc
        → e.points ≡ x ∷ xs
        → deliver_pointcloud2 N lds index (popped_packet blank e) lddc
          ≡ some (with_published N lddc ((p, cloud_of frame_id e) ∷ []))
    unfolding deliver_pointcloud2
    deliver_pointcloud2_lem lds index lddc e x xs ready split =
        rw
          (
            init_pointcloud2_msg_lem N lddc.frame_id (popped_packet blank e) refl,
            stamp_of-some N e x xs split,
          )
          (publish_pointcloud2_data-ready lds index lddc _ ready)
        ∙ ap (λ f. some (with_published N lddc ((p, cloud_of f e) ∷ []))) ready.frame

    deliver_custom_lem :
        (lds : Lds N) (index : ℕ) (lidar : LidarDevice N.Float) (lddc : Lddc N) (e : Entry N.Float)
        (x : PointXyzlt N.Float) (xs : List (PointXyzlt N.Float))
        → get_elem? lds.lidars index ≡ some lidar
        → PublishesOn N p frame_id livox_custom_msg lddc
        → e.points ≡ x ∷ xs
        → deliver_custom N lds index (popped_packet blank e) lddc
          ≡ some (with_published N lddc ((p, custom_of frame_id lidar e) ∷ []))
    unfolding deliver_custom init_custom_msg
    deliver_custom_lem lds index lidar lddc e x xs at ready split =
        rw
          (
            at,
            stamp_of-some N e x xs split,
            fill_points_to_custom_msg_lem N _ (popped_packet blank e) refl,
          )
          (publish_custom_point_data-ready lds index lddc _ ready)
        ∙ ap (λ f. some (with_published N lddc ((p, custom_of f lidar e) ∷ []))) ready.frame

  poll-round :
      (fuel : ℕ) (lds : Lds N) (index : ℕ) (q q' : LidarDataQueue N.Float) (lddc lddc' : Lddc N)
      → lds.request_exit ≡ false
      → queue_is_empty q ≡ false
      → publish_by_format N (suc fuel) lds index q lddc ≡ done (q', lddc')
      → poll N (suc fuel) lds index q lddc ≡ poll N fuel lds index q' lddc'
  unfolding poll
  poll-round fuel lds index q q' lddc lddc' stay busy round = ground arith

  poll-idle :
      (fuel : ℕ) (lds : Lds N) (index : ℕ) (q : LidarDataQueue N.Float) (lddc : Lddc N)
      → queue_is_empty q ≡ true
      → poll N (suc fuel) lds index q lddc ≡ done (q, lddc)
  unfolding poll
  poll-idle fuel lds index q lddc idle = ground arith

  polling_lidar_point_cloud_data-block :
      (fuel : ℕ) (lds : Lds N) (index : ℕ) (lidar : LidarDevice N.Float) (lddc : Lddc N)
      (b : List (StoragePacket N.Float))
      → lidar.queue.storage_packet ≡ block b
      → polling_lidar_point_cloud_data N fuel lds index lidar lddc
        ≡ poll N fuel lds index lidar.queue lddc
  unfolding polling_lidar_point_cloud_data
  polling_lidar_point_cloud_data-block fuel lds index lidar lddc b allocated = ground arith

  same_log : {a b : Lddc N} → some a ≡ some b → a ≡ b
  same_log e = cc

  -- A round that drains, and the test of the queue that ends the loop.
  poll_lem :
      (deliver : StoragePacket N.Float → Lddc N → Option (Lddc N)) (lds : Lds N)
      (index capacity : ℕ) (lddc lddc' : Lddc N) (fuel : ℕ) (q : LidarDataQueue N.Float)
      (es : List (Entry N.Float))
      → ((f : ℕ) (queue : LidarDataQueue N.Float)
          → publish_by_format N f lds index queue lddc ≡ drain deliver f queue lddc)
      → deliver_all deliver es lddc ≡ some lddc'
      → Holds capacity q es
      → lds.request_exit ≡ false
      → length es + 1 < fuel
      → (q' : LidarDataQueue N.Float) × (poll N fuel lds index q lddc ≡ done (q', lddc'))
        × Holds capacity q' []
  unfolding deliver_all
  poll_lem deliver lds index capacity lddc lddc' zero q es same all h stay enough =
      absurd (omega arith)
  poll_lem deliver lds index capacity lddc lddc' (suc zero) q es same all h stay enough =
      absurd (omega arith)
  poll_lem deliver lds index capacity lddc lddc' (suc (suc fuel)) q [] same all h stay enough = (
    q,
    poll-idle (suc fuel) lds index q lddc (queue_is_empty_iff h ∙ ground arith)
        ∙ ap (λ l. done (q, l)) (same_log all),
    h,
  )
  poll_lem deliver lds index capacity lddc lddc' (suc (suc fuel)) q (e ∷ es) same all h stay
        enough =
      let (q', drained, h') =
        drain_lem deliver (suc (suc fuel)) capacity q (e ∷ es) lddc lddc' h (omega arith) all in
      let round = same (suc (suc fuel)) q ∙ drained in
      let busy : queue_is_empty q ≡ false = queue_is_empty_iff h ∙ ground arith in
      let idle : queue_is_empty q' ≡ true = queue_is_empty_iff h' ∙ ground arith in
      (
        q',
        poll-round (suc fuel) lds index q q' lddc lddc' stay busy round
            ∙ poll-idle fuel lds index q' lddc' idle,
        h',
      )

  -- In the PointCloud2 format, with no exit requested, one publisher of that format for all lidars
  -- and more fuel than entries and one, polling a device whose queue holds es ends: its queue is
  -- empty then, and one cloud for each entry with points has been published, in the queue's order.
  pub polling_lidar_point_cloud_data-pointcloud2 :
      (fuel capacity index : ℕ) (lds : Lds N) (lidar : LidarDevice N.Float) (lddc : Lddc N)
      (p : Publisher) (frame_id : List ℕ) (es : List (Entry N.Float))
      → Holds capacity lidar.queue es
      → PublishesOn N p frame_id point_cloud2_msg lddc
      → lds.request_exit ≡ false
      → length es + 1 < fuel
      → (q' : LidarDataQueue N.Float) × (polling_lidar_point_cloud_data N fuel lds index lidar lddc
          ≡ done (q', with_published N lddc (messages_of N p (cloud_of frame_id) es)))
        × Holds capacity q' []
  unfolding publish_by_format
  polling_lidar_point_cloud_data-pointcloud2 fuel capacity index lds lidar lddc p frame_id es h
        ready stay enough =
      let all =
        deliver_all-messages N p frame_id point_cloud2_msg (deliver_pointcloud2 N lds index)
          (cloud_of frame_id) (deliver_pointcloud2_lem p frame_id lds index) lddc es ready in
      let (q', polled, h') =
        poll_lem (deliver_pointcloud2 N lds index) lds index capacity lddc _ fuel lidar.queue es
          (λ f queue. ground (arith, ready.chosen)) all h stay enough in
      (
        q',
        polling_lidar_point_cloud_data-block fuel lds index lidar lddc h.buf h.storage ∙ polled,
        h',
      )

  -- In the custom format, with no exit requested, one publisher of that format for all lidars and
  -- more fuel than entries and one, polling device `index` ends: its queue is empty then, and one
  -- custom message for each entry with points has been published, in the queue's order.
  pub polling_lidar_point_cloud_data-custom :
      (fuel capacity index : ℕ) (lds : Lds N) (lidar : LidarDevice N.Float) (lddc : Lddc N)
      (p : Publisher) (frame_id : List ℕ) (es : List (Entry N.Float))
      → get_elem? lds.lidars index ≡ some lidar
      → Holds capacity lidar.queue es
      → PublishesOn N p frame_id livox_custom_msg lddc
      → lds.request_exit ≡ false
      → length es + 1 < fuel
      → (q' : LidarDataQueue N.Float) × (polling_lidar_point_cloud_data N fuel lds index lidar lddc
          ≡ done (q', with_published N lddc (messages_of N p (custom_of frame_id lidar) es)))
        × Holds capacity q' []
  unfolding publish_by_format
  polling_lidar_point_cloud_data-custom fuel capacity index lds lidar lddc p frame_id es at h ready
        stay enough =
      let all =
        deliver_all-messages N p frame_id livox_custom_msg (deliver_custom N lds index)
          (custom_of frame_id lidar)
          (λ l e x xs. deliver_custom_lem p frame_id lds index lidar l e x xs at) lddc es ready in
      let (q', polled, h') =
        poll_lem (deliver_custom N lds index) lds index capacity lddc _ fuel lidar.queue es
          (λ f queue. ground (arith, ready.chosen)) all h stay enough in
      (
        q',
        polling_lidar_point_cloud_data-block fuel lds index lidar lddc h.buf h.storage ∙ polled,
        h',
      )

  -- In any other format, with no exit requested, polling a device whose queue holds something does
  -- not end, whatever the fuel: no round takes anything from the queue.
  pub polling_lidar_point_cloud_data-endless :
      (fuel capacity index : ℕ) (lds : Lds N) (lidar : LidarDevice N.Float) (lddc : Lddc N)
      (e : Entry N.Float) (es : List (Entry N.Float))
      → Holds capacity lidar.queue (e ∷ es)
      → lds.request_exit ≡ false
      → 2 ≤ lddc.transfer_format
      → polling_lidar_point_cloud_data N fuel lds index lidar lddc ≡ no_fuel
  unfolding poll publish_by_format publish_pcl_msg
  polling_lidar_point_cloud_data-endless fuel capacity index lds lidar lddc e es h stay other =
      polling_lidar_point_cloud_data-block fuel lds index lidar lddc h.buf h.storage
      ∙ endless fuel (queue_is_empty_iff h ∙ ground arith)
    where
      endless :
          (f : ℕ)
          → queue_is_empty lidar.queue ≡ false
          → poll N f lds index lidar.queue lddc ≡ no_fuel
      endless zero busy = refl
      endless (suc f) busy = ground (arith, endless f busy)
