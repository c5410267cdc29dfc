-- ===== src/Ldq/Transfer.antt =====
-- Push and pop of ldq.cpp, on a ring queue that holds a list of entries.
use native.Mathlib.Nat.{one-le-pow, mod-lt}
use auto_fastlio.Prelude.{
  ℕ, suc, ◌+◌, ◌%◌, ◌^◌, ◌<◌, ◌≡◌, refl, sym, ap, ◌∙◌, true, false, Option, none, some, List, [],
  ◌∷◌, ◌++◌, length, get_elem?, set, read, length-set, length-read, length-append, read_full,
  get_elem?-lt, bit_and, arith,
}
use auto_fastlio.Prelude.Bits.{bit_and-low_ones}
use auto_fastlio.Comm.{u32, PointXyzlt, PointPacket, StoragePacket}
use auto_fastlio.Ldq.{
  block, LidarDataQueue, queue_is_empty, store, queue_pop_update, queue_pop, queue_push_any,
}
use auto_fastlio.Ldq.Window.{window, window-set}
use auto_fastlio.Ldq.Refine.{Entry, Shows, Holds, popped_packet, queue_is_empty_iff}

module _ {F : Type 0} where
  -- Entries at the end of a window.
  Shows-snoc :
      (os : List (Option (StoragePacket F))) (es : List (Entry F)) (p : StoragePacket F)
      (e : Entry F)
      → Shows os es
      → (p.base_time ≡ e.base_time) × (p.points ≡ e.points) × (p.points_num ≡ length e.points)
      → Shows (os ++ some p ∷ []) (es ++ e ∷ [])
  Shows-snoc [] [] p e s h = (h.0, h.1, h.2, tt)
  Shows-snoc [] (x ∷ es) p e s h = absurd s
  Shows-snoc (none ∷ os) [] p e s h = absurd s
  Shows-snoc (some o ∷ os) [] p e s h = absurd s
  Shows-snoc (none ∷ os) (x ∷ es) p e s h = absurd s
  Shows-snoc (some o ∷ os) (x ∷ es) p e s h = (s.0, s.1, s.2, Shows-snoc os es p e s.3 h)

  -- The element that a push writes.
  abbrev pub pushed_packet :
      StoragePacket F → PointPacket F → ℕ → List (PointXyzlt F) → StoragePacket F
  pushed_packet old packet base_time pts = record old {
    base_time = base_time;
    points_num = packet.points_num;
    points = pts;
  }

  -- The queue after a push.
  abbrev pub pushed_queue : LidarDataQueue F → List (StoragePacket F) → LidarDataQueue F
  pushed_queue q buf = record q { storage_packet = block buf; wr_idx = (q.wr_idx + 1) % u32 }

  module _ {cap : ℕ} {q : LidarDataQueue F} {es : List (Entry F)} (h : Holds cap q es) where
    write_slot : bit_and q.wr_idx q.mask ≡ q.wr_idx % 2 ^ h.k
    write_slot = rw h.mask (bit_and-low_ones h.k q.wr_idx)

    slot_lt : (i : ℕ) → i % 2 ^ h.k < length h.buf
    slot_lt i = omega (arith, h.len, mod-lt i {m = 2 ^ h.k} (one-le-pow h.k 2 (omega arith)))

    queue_push_any_lem :
        (packet : PointPacket F) (base_time : ℕ) (old : StoragePacket F) {pts : List (PointXyzlt F)}
        → get_elem? h.buf (q.wr_idx % 2 ^ h.k) ≡ some old
        → read packet.points_num packet.points ≡ some pts
        → queue_push_any q packet base_time
          ≡ some (
            1,
            pushed_queue q
                (set h.buf (q.wr_idx % 2 ^ h.k) (pushed_packet old packet base_time pts)),
          )
    unfolding queue_push_any store
    queue_push_any_lem packet base_time old found e = ground (arith, write_slot, h.storage)

    pushed-Holds :
        (e : Entry F) (p : StoragePacket F)
        → length es < cap
        → (p.base_time ≡ e.base_time) × (p.points ≡ e.points) × (p.points_num ≡ length e.points)
        → Holds cap (pushed_queue q (set h.buf (q.wr_idx % 2 ^ h.k) p)) (es ++ e ∷ [])
    pushed-Holds e p room shown = record {
      k = h.k;
      buf = set h.buf (q.wr_idx % 2 ^ h.k) p;
      storage = refl;
      len = length-set h.buf (q.wr_idx % 2 ^ h.k) p ∙ h.len;
      width = h.width;
      cap_eq = h.cap_eq;
      mask = h.mask;
      size = h.size;
      rd_small = h.rd_small;
      wr_eq = omega (arith, h.wr_eq, one_more);
      fits = omega (arith, h.cap_eq, one_more);
      shows =
          rw
            (
              one_more,
              window-set h.buf h.k q.rd_idx (length es) (q.wr_idx % 2 ^ h.k) p h.width h.len
                  (omega (arith, h.cap_eq)) h.rd_small (ap (λ t. t % 2 ^ h.k) h.wr_eq),
            )
            (Shows-snoc (window h.buf h.k q.rd_idx (length es)) es p e h.shows shown);
    }
      where
        one_more : length (es ++ e ∷ []) ≡ suc (length es)
        one_more = length-append es (e ∷ []) ∙ omega arith

  -- A push of a packet whose points can be read, into a queue below its capacity, is defined, reports
  -- one packet and appends the entry.
  pub queue_push_any-Holds :
      {cap : ℕ} {q : LidarDataQueue F} {es : List (Entry F)} (packet : PointPacket F)
      (base_time : ℕ) {pts : List (PointXyzlt F)}
      → Holds cap q es
      → length es < cap
      → read packet.points_num packet.points ≡ some pts
      → (q' : LidarDataQueue F) × (queue_push_any q packet base_time ≡ some (1, q'))
        × Holds cap q' (es ++ record { base_time = base_time; points = pts } ∷ [])
  queue_push_any-Holds {q = q} packet base_time {pts} h room e =
      let (old, found) = get_elem?-lt h.buf (q.wr_idx % 2 ^ h.k) (slot_lt h q.wr_idx) in
      (
        pushed_queue q (set h.buf (q.wr_idx % 2 ^ h.k) (pushed_packet old packet base_time pts)),
        queue_push_any_lem h packet base_time old found e,
        pushed-Holds h (record { base_time = base_time; points = pts })
            (pushed_packet old packet base_time pts) room
            (refl, refl, sym (length-read packet.points_num packet.points e)),
      )

  -- A pop of an empty queue leaves the queue and `*out` as they are.
  pub queue_pop-empty :
      {cap : ℕ} {q : LidarDataQueue F} (out : StoragePacket F)
      → Holds cap q []
      → queue_pop q out ≡ some (false, out, q)
  unfolding queue_pop
  queue_pop-empty {q = q} out h = ground (arith, queue_is_empty_iff h)

  -- The first slot of a non-empty window.
  Shows-uncons :
      (o : Option (StoragePacket F)) (os : List (Option (StoragePacket F))) (e : Entry F)
      (es : List (Entry F))
      → Shows (o ∷ os) (e ∷ es)
      → (p : StoragePacket F) × (o ≡ some p)
        × ((p.base_time ≡ e.base_time) × (p.points ≡ e.points) × (p.points_num ≡ length e.points))
        × Shows os es
  Shows-uncons none os e es s = absurd s
  Shows-uncons (some p) os e es s = (p, refl, (s.0, s.1, s.2), s.3)

  queue_pop_lem :
      (q : LidarDataQueue F) (out : StoragePacket F) (e : Entry F) (b : List (StoragePacket F))
      (p : StoragePacket F) (i : ℕ)
      → queue_is_empty q ≡ false
      → q.storage_packet ≡ block b
      → bit_and q.rd_idx q.mask ≡ i
      → get_elem? b i ≡ some p
      → (p.base_time ≡ e.base_time) × (p.points ≡ e.points) × (p.points_num ≡ length e.points)
      → queue_pop q out ≡ some (true, popped_packet out e, queue_pop_update q)
  unfolding queue_pop
  queue_pop_lem q out e b p i busy st at found shown = ground (arith, read_full e.points)

  -- A pop of a queue that holds something is defined, gives the oldest entry and leaves the others.
  pub queue_pop-Holds :
      {cap : ℕ} {q : LidarDataQueue F} (out : StoragePacket F) (e : Entry F) (es : List (Entry F))
      → Holds cap q (e ∷ es)
      → (queue_pop q out ≡ some (true, popped_packet out e, queue_pop_update q))
        × Holds cap (queue_pop_update q) es
  unfolding queue_pop_update
  queue_pop-Holds {q = q} out e es h =
      let (p, found, shown, rest) =
        Shows-uncons (get_elem? h.buf (q.rd_idx % 2 ^ h.k))
          (window h.buf h.k ((q.rd_idx + 1) % 2 ^ 32) (length es)) e es h.shows in
      (
        queue_pop_lem q out e h.buf p (q.rd_idx % 2 ^ h.k) (queue_is_empty_iff h ∙ ground arith)
            h.storage (rw h.mask (bit_and-low_ones h.k q.rd_idx)) found shown,
        record {
          k = h.k;
          buf = h.buf;
          storage = h.storage;
          len = h.len;
          width = h.width;
          cap_eq = h.cap_eq;
          mask = h.mask;
          size = h.size;
          rd_small = omega arith;
          wr_eq = omega (arith, h.wr_eq);
          fits = omega (arith, h.fits);
          shows = rest;
        },
      )
