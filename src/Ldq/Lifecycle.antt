-- ===== src/Ldq/Lifecycle.antt =====
-- InitQueue, ResetQueue and DeInitQueue of ldq.cpp.
use native.Mathlib.Nat.{one-le-pow}
use auto_fastlio.Prelude.{
  ℕ, ◌+◌, ◌-◌, ◌%◌, ◌^◌, ◌<◌, ◌≡◌, refl, ◌≢◌, ◌∙◌, true, false, none, some, List, [], replicate,
  length-replicate, arith,
}
use auto_fastlio.Comm.{u32, PointPacket}
use auto_fastlio.Ldq.{
  freed, block, LidarDataQueue, blank, block_size, delete_storage, init_queue, deinit_queue,
  reset_queue, queue_is_full, queue_is_empty, store, queue_push_any,
}
use auto_fastlio.Ldq.Size.{block_size-IsBlockSize}
use auto_fastlio.Ldq.Refine.{Entry, Holds, pow_le}

module _ {F : Type 0} where
  -- A queue whose block can be released (it is null or live) can be initialised with any 32-bit
  -- size: that is defined, and the queue is then one of `block_size` entries that holds nothing.
  pub init_queue-Holds :
      (q : LidarDataQueue F) (n : ℕ)
      → n < 2 ^ 32
      → delete_storage q.storage_packet ≢ none
      → (q' : LidarDataQueue F) × (init_queue q n ≡ some (true, q')) × Holds (block_size n) q' []
  unfolding init_queue
  init_queue-Holds q n h alive =
      let (k, e, b) = block_size-IsBlockSize n h in
      (
        record {
          storage_packet = block (replicate (block_size n) blank);
          rd_idx = 0;
          wr_idx = 0;
          size = block_size n;
          mask = (block_size n + u32 - 1) % u32;
        },
        ground arith,
        record {
          k = k;
          buf = replicate (block_size n) blank;
          storage = refl;
          len = length-replicate (block_size n) blank ∙ e;
          width = b;
          cap_eq = e;
          mask = omega (arith, e, one-le-pow k 2, pow_le k b);
          size = e;
          rd_small = omega arith;
          wr_eq = omega arith;
          fits = omega arith;
          shows = tt;
        },
      )

  -- `ResetQueue` keeps the block and forgets the entries.
  pub reset_queue-Holds :
      {cap : ℕ} {q : LidarDataQueue F} (es : List (Entry F))
      → Holds cap q es
      → Holds cap (reset_queue q) []
  unfolding reset_queue
  reset_queue-Holds es h = record {
    k = h.k;
    buf = h.buf;
    storage = h.storage;
    len = h.len;
    width = h.width;
    cap_eq = h.cap_eq;
    mask = h.mask;
    size = h.size;
    rd_small = omega arith;
    wr_eq = omega arith;
    fits = omega arith;
    shows = tt;
  }

  -- `DeInitQueue` on a queue with a block is defined, frees the block and keeps its address: the
  -- queue it leaves reads as empty and not full, and to release it again, to initialise it or to
  -- push onto it is undefined.
  pub deinit_queue-freed :
      {cap : ℕ} {q : LidarDataQueue F} (es : List (Entry F)) (n t : ℕ) (packet : PointPacket F)
      → Holds cap q es
      → (q' : LidarDataQueue F) × (deinit_queue q ≡ some (true, q'))
        × (queue_is_empty q' ≡ true)
        × (queue_is_full q' ≡ false)
        × (deinit_queue q' ≡ none)
        × (init_queue q' n ≡ none)
        × (queue_push_any q' packet t ≡ none)
  unfolding deinit_queue init_queue queue_push_any store queue_is_empty queue_is_full
  deinit_queue-freed {q = q} es n t packet h = (
    record { storage_packet = freed; rd_idx = 0; wr_idx = 0; size = 0; mask = 0 },
    ground (arith, h.storage),
    refl,
    refl,
    refl,
    refl,
    ground arith,
  )
