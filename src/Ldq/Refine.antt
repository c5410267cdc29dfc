-- ===== src/Ldq/Refine.antt =====
-- A ring queue that holds a list of entries, oldest first, and what its counters then say.
use native.Mathlib.Nat.{one-le-pow, pow-le-pow_right}
use auto_fastlio.Prelude.{
  ℕ, ◌+◌, ◌-◌, ◌%◌, ◌^◌, ◌≤◌, ◌<◌, ◌≡◌, Option, some, List, [], ◌∷◌, length, ◌==◌, arith,
}
use auto_fastlio.Comm.{PointXyzlt, StoragePacket}
use auto_fastlio.Ldq.{
  block, LidarDataQueue, queue_used_size, queue_unused_size, queue_is_full, queue_is_empty,
}
use auto_fastlio.Ldq.Window.{window}

pub pow_le : (k : ℕ) → k ≤ 31 → 2 ^ k ≤ 2 ^ 31
pow_le k h = pow-le-pow_right {n = 2} (omega arith) h

-- What a consumer gets of a frame: its base time and its points.
pub record Entry (F : Type 0) : Type 0 where
  pub base_time : ℕ
  pub points : List (PointXyzlt F)

module _ {F : Type 0} where
  -- The slots hold these entries, in this order, each with its number of points.
  abbrev pub Shows : List (Option (StoragePacket F)) → List (Entry F) → Type 0
  Shows [] [] = Unit {0}
  Shows (some p ∷ os) (e ∷ es) =
      (p.base_time ≡ e.base_time)
      × (p.points ≡ e.points)
      × (p.points_num ≡ length e.points)
      × Shows os es
  Shows _ _ = ⊥

  -- The representation of a bounded queue of `cap` entries.
  pub record Holds (cap : ℕ) (q : LidarDataQueue F) (es : List (Entry F)) : Type 0 where
    pub k : ℕ
    pub buf : List (StoragePacket F)
    pub storage : q.storage_packet ≡ block buf
    pub len : length buf ≡ 2 ^ k
    pub width : k ≤ 31
    pub cap_eq : cap ≡ 2 ^ k
    pub mask : q.mask ≡ 2 ^ k - 1
    pub size : q.size ≡ 2 ^ k
    pub rd_small : q.rd_idx < 2 ^ 32
    pub wr_eq : q.wr_idx ≡ (q.rd_idx + length es) % 2 ^ 32
    pub fits : length es ≤ 2 ^ k
    pub shows : Shows (window buf k q.rd_idx (length es)) es

  module _ {cap : ℕ} {q : LidarDataQueue F} {es : List (Entry F)} (h : Holds cap q es) where
    -- The indices wrap, and their difference is still the number of entries held.
    pub queue_used_size-length : queue_used_size q ≡ length es
    unfolding queue_used_size
    queue_used_size-length = omega (arith, pow_le h.k h.width)

    pub queue_unused_size-length : queue_unused_size q + length es ≡ cap
    unfolding queue_unused_size
    queue_unused_size-length = omega (arith, pow_le h.k h.width, queue_used_size-length)

    pub queue_is_full_iff : queue_is_full q ≡ (length es == cap)
    unfolding queue_is_full
    queue_is_full_iff = ground (arith, pow_le h.k h.width, one-le-pow h.k 2)

    pub queue_is_empty_iff : queue_is_empty q ≡ (length es == 0)
    unfolding queue_is_empty
    queue_is_empty_iff = ground (arith, pow_le h.k h.width)

  -- What a pop of the entry e leaves in `*out`.
  abbrev pub popped_packet : StoragePacket F → Entry F → StoragePacket F
  popped_packet out e = record out {
    base_time = e.base_time;
    points_num = length e.points;
    points = e.points;
  }
