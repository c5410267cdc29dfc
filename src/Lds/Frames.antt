-- ===== src/Lds/Frames.antt =====
-- StoragePointData: a frame of packets, delivered to the queues of the devices that it names.
use native.Mathlib.Decide.{ℕ_discrete}
use auto_fastlio.Prelude.{
  get_elem?-some-lt, ℕ, zero, suc, ◌+◌, ◌<◌, ◌≡◌, refl, sym, subst, ◌∙◌, inl, inr, true, false,
  some, List, ◌==◌, if◌then◌else◌, get_elem?, set, length, read, arith, Option-cases, length-set,
  get_elem?-set_self, get_elem?-set_ne, get_elem?-lt,
}
use auto_fastlio.Comm.{PointPacket, PointFrame, PointXyzlt, max_source_lidar}
use auto_fastlio.CacheIndex.{get_index}
use auto_fastlio.CacheIndex.Invariant.{IsConsistent}
use auto_fastlio.CacheIndex.Answers.{get_index-lt}
use auto_fastlio.Ldq.Refine.{Entry}
use auto_fastlio.Ldq.{LidarDataQueue}
use auto_fastlio.Numerics.{Numerics}
use auto_fastlio.Semaphore.{signal_if_zero}
use auto_fastlio.Lds.{
  LidarDevice, Lds, storage_point, storage_points_from, storage_point_data, push_lidar_data,
}
use auto_fastlio.Lds.Ready.{Contains, live, offered, capacity, push_lidar_data_lem}
use auto_fastlio.Lds.Deliveries.{
  Delivery, deliveries, delivery, deliveries-zero, deliveries-suc, accepted, received,
}

module _ (N : Numerics) where
  -- 32 devices, each with a queue in order, and a consistent index.
  pub record IsReady (lds : Lds N) : Type 0 where
    pub count : length lds.lidars ≡ max_source_lidar
    pub queues :
        (i : ℕ) (lidar : LidarDevice N.Float)
        → get_elem? lds.lidars i ≡ some lidar
        → (es : List (Entry N.Float)) × Contains (capacity N lds.publish_freq) lidar.queue es
    pub cache : IsConsistent lds.cache_index

  -- What a step does to the device at `index`, which holds es before it.
  pub record Moves (lds lds' : Lds N) (index : ℕ) (lidar : LidarDevice N.Float)
      (es' : List (Entry N.Float)) : Type 0 where
    pub ready : IsReady lds'
    pub same_cache : lds'.cache_index ≡ lds.cache_index
    pub same_freq : lds'.publish_freq ≡ lds.publish_freq
    pub queue' : LidarDataQueue N.Float
    pub device : get_elem? lds'.lidars index ≡ some (record lidar { queue = queue' })
    pub holds : Contains (capacity N lds.publish_freq) queue' es'

  stay :
      (lds : Lds N) (index : ℕ) (lidar : LidarDevice N.Float) (es : List (Entry N.Float))
      → IsReady lds
      → get_elem? lds.lidars index ≡ some lidar
      → Contains (capacity N lds.publish_freq) lidar.queue es
      → Moves lds lds index lidar es
  stay lds index lidar es ready at held = record {
    ready = ready;
    same_cache = refl;
    same_freq = refl;
    queue' = lidar.queue;
    device = at;
    holds = held;
  }

  -- The state after a push to device i.
  abbrev pushed_lds : Lds N → ℕ → LidarDevice N.Float → LidarDataQueue N.Float → Lds N
  pushed_lds lds i lidar q = record lds {
    lidars = set lds.lidars i (record lidar { queue = q });
    pcd_semaphore = signal_if_zero lds.pcd_semaphore;
  }

  pushed-IsReady :
      (lds : Lds N) (i : ℕ) (lidar : LidarDevice N.Float) (q : LidarDataQueue N.Float)
      (es : List (Entry N.Float))
      → IsReady lds
      → i < length lds.lidars
      → Contains (capacity N lds.publish_freq) q es
      → IsReady (pushed_lds lds i lidar q)
  pushed-IsReady lds i lidar q es ready inside held = record {
    count = length-set lds.lidars i (record lidar { queue = q }) ∙ ready.count;
    queues = λ j other at. elim (ℕ_discrete i j) [
      | yes p ↦
          let here : record lidar { queue = q } ≡ other =
            ground
              (arith, at, get_elem?-set_self lds.lidars i (record lidar { queue = q }) inside) in
          (
            es,
            subst (λ (d : LidarDevice N.Float). Contains (capacity N lds.publish_freq) d.queue es)
                here held,
          )
      | no p ↦
          ready.queues j other
            (sym (get_elem?-set_ne lds.lidars i j (record lidar { queue = q }) p) ∙ at)
    ];
    cache = ready.cache;
  }

  -- A push to device i, seen from the device at `index`.
  pushed-Moves :
      (lds : Lds N) (packet : PointPacket N.Float) (i index t : ℕ) {pts : List (PointXyzlt N.Float)}
      (lidar : LidarDevice N.Float) (es : List (Entry N.Float))
      → IsReady lds
      → get_elem? lds.lidars index ≡ some lidar
      → Contains (capacity N lds.publish_freq) lidar.queue es
      → i < max_source_lidar
      → read packet.points_num packet.points ≡ some pts
      → (lds' : Lds N) × (push_lidar_data N lds packet i t ≡ some lds')
        × Moves lds lds' index lidar (
            if i == index
            then offered (capacity N lds.publish_freq) es (record { base_time = t; points = pts })
            else es)
  pushed-Moves lds packet i index t {pts} lidar es ready at held small e =
      elim (ℕ_discrete i index) [
        | yes p ↦
            let inside : index < length lds.lidars = get_elem?-some-lt lds.lidars index lidar at in
            let (q, done, h) = push_lidar_data_lem N lds packet index t at held e in
            let same : (i == index) ≡ true = ground (arith, p) in
            (
              pushed_lds lds index lidar q,
              rw p done,
              rw same (record {
                ready = pushed-IsReady lds index lidar q _ ready inside (live h);
                same_cache = refl;
                same_freq = refl;
                queue' = q;
                device = get_elem?-set_self lds.lidars index (record lidar { queue = q }) inside;
                holds = live h;
              }),
            )
        | no p ↦
            let inside : i < length lds.lidars = omega (arith, ready.count) in
            let (other, at_i) = get_elem?-lt lds.lidars i inside in
            let (es_i, held_i) = ready.queues i other at_i in
            let (q, done, h) = push_lidar_data_lem N lds packet i t at_i held_i e in
            let differs : (i == index) ≡ false = ground (arith, p) in
            (
              pushed_lds lds i other q,
              done,
              rw differs (record {
                ready = pushed-IsReady lds i other q _ ready inside (live h);
                same_cache = refl;
                same_freq = refl;
                queue' = lidar.queue;
                device = get_elem?-set_ne lds.lidars i index (record other { queue = q }) p ∙ at;
                holds = held;
              }),
            )
      ]

  storage_point-Moves :
      (lds : Lds N) (packet : PointPacket N.Float) (index t : ℕ) {pts : List (PointXyzlt N.Float)}
      (lidar : LidarDevice N.Float) (es : List (Entry N.Float))
      → IsReady lds
      → get_elem? lds.lidars index ≡ some lidar
      → Contains (capacity N lds.publish_freq) lidar.queue es
      → read packet.points_num packet.points ≡ some pts
      → (lds' : Lds N) × (storage_point N lds packet t ≡ some lds')
        × Moves lds lds' index lidar (
            accepted (capacity N lds.publish_freq) lds.cache_index index es (record {
              lidar_type = packet.lidar_type;
              handle = packet.handle;
              entry = record { base_time = t; points = pts };
            }))
  unfolding storage_point accepted
  storage_point-Moves lds packet index t lidar es ready at held e =
      elim (Option-cases (get_index lds.cache_index packet.lidar_type packet.handle)) [
        | inl unknown ↦ (
          lds,
          rw (unknown, storage_point) refl,
          rw (unknown, accepted) (stay lds index lidar es ready at held),
        )
        | inr (i, known) ↦
            let (lds', done, m) =
              pushed-Moves lds packet i index t lidar es ready at held
                (get_index-lt ready.cache packet.lidar_type packet.handle i known) e in
            (lds', rw (known, storage_point) done, rw (known, accepted) m)
      ]

  chain :
      {lds lds₁ lds₂ : Lds N} {index : ℕ} {lidar : LidarDevice N.Float}
      {es₁ es₂ : List (Entry N.Float)} (m : Moves lds lds₁ index lidar es₁)
      → Moves lds₁ lds₂ index (record lidar { queue = m.queue' }) es₂
      → Moves lds lds₂ index lidar es₂
  chain {es₂ = es₂} m n = record {
    ready = n.ready;
    same_cache = n.same_cache ∙ m.same_cache;
    same_freq = n.same_freq ∙ m.same_freq;
    queue' = n.queue';
    device = n.device;
    holds = subst (λ f. Contains (capacity N f) n.queue' es₂) m.same_freq n.holds;
  }

  storage_points_from-Moves :
      (rounds i : ℕ) (lds : Lds N) (frame : PointFrame N.Float) (ds : List (Delivery N.Float))
      (index : ℕ) (lidar : LidarDevice N.Float) (es : List (Entry N.Float))
      → IsReady lds
      → get_elem? lds.lidars index ≡ some lidar
      → Contains (capacity N lds.publish_freq) lidar.queue es
      → deliveries rounds i frame ≡ some ds
      → (lds' : Lds N) × (storage_points_from N rounds i lds frame ≡ some lds')
        × Moves lds lds' index lidar
            (received (capacity N lds.publish_freq) lds.cache_index index es ds)
  unfolding storage_points_from received
  storage_points_from-Moves zero i lds frame ds index lidar es ready at held e =
      (lds, refl, rw (deliveries-zero i frame e) (stay lds index lidar es ready at held))
  storage_points_from-Moves (suc rounds) i lds frame ds index lidar es ready at held e =
      let (p, t, pts, rest, at_p, at_t, readable, later, split) = deliveries-suc rounds i frame e in
      let (lds₁, done₁, m) = storage_point-Moves lds p index t lidar es ready at held readable in
      let es₁ : List (Entry N.Float) =
        accepted (capacity N lds.publish_freq) lds.cache_index index es (delivery p t pts) in
      let (lds₂, done₂, n) =
        storage_points_from-Moves rounds (i + 1) lds₁ frame rest index
          (record lidar { queue = m.queue' }) es₁ m.ready m.device
          (subst (λ f. Contains (capacity N f) m.queue' es₁) (sym m.same_freq) m.holds) later in
      let at_cache =
        subst
          (λ f.
            Moves lds lds₂ index lidar (received (capacity N f) lds₁.cache_index index es₁ rest))
          m.same_freq (chain m n) in
      let moved =
        subst
          (λ c.
            Moves lds lds₂ index lidar (received (capacity N lds.publish_freq) c index es₁ rest))
          m.same_cache at_cache in
      (
        lds₂,
        rw (at_p, at_t, done₁) done₂,
        subst
            (λ x.
              Moves lds lds₂ index lidar
                (received (capacity N lds.publish_freq) lds.cache_index index es x))
            (sym split) moved,
      )

  -- `StoragePointData` on a frame whose packets can be read is defined: the source stays ready, its
  -- index and frequency stay as they are, and the queue of any one device (which holds es before)
  -- receives the packets of its own handle, in order, each dropped if the queue is at capacity.
  pub storage_point_data_lem :
      (lds : Lds N) (frame : PointFrame N.Float) (ds : List (Delivery N.Float)) (index : ℕ)
      (lidar : LidarDevice N.Float) (es : List (Entry N.Float))
      → IsReady lds
      → get_elem? lds.lidars index ≡ some lidar
      → Contains (capacity N lds.publish_freq) lidar.queue es
      → deliveries frame.lidar_num 0 frame ≡ some ds
      → (lds' : Lds N) × (storage_point_data N lds frame ≡ some lds')
        × Moves lds lds' index lidar
            (received (capacity N lds.publish_freq) lds.cache_index index es ds)
  unfolding storage_point_data
  storage_point_data_lem lds frame ds index lidar es ready at held e =
      storage_points_from-Moves frame.lidar_num 0 lds frame ds index lidar es ready at held e
