-- ===== src/Lddc/Contents.antt =====
-- What the messages of lddc.cpp hold of a packet.
use auto_fastlio.Prelude.{
  ℕ, ◌+◌, ◌-◌, ◌*◌, ◌%◌, ◌≡◌, refl, sym, ap₂, ◌∙◌, true, false, some, List, [], ◌∷◌, ◌++◌, map,
  get_elem?, arith, length, ◌≤◌, ◌<◌, append_assoc, get_elem?-append_length, length-append,
}
use auto_fastlio.Comm.{PointXyzlt, StoragePacket, u32, u64}
use auto_fastlio.Numerics.{Numerics}
use auto_fastlio.Lddc.Messages.{
  CustomMsg, header_fields, points_from, stamp_of, cloud_point, custom_point, init_pointcloud2_msg,
  fill_points_to_custom_msg,
}

-- The loop reads exactly the points of the packet, in order.
pub points_from_lem :
    {F B : Type 0} (f : PointXyzlt F → B) (i : ℕ) (before points all : List (PointXyzlt F))
    → i ≡ length before
    → all ≡ before ++ points
    → points_from f (length points) i all ≡ some (map f points)
unfolding points_from
points_from_lem f i before [] all e split = refl
points_from_lem f i before (p ∷ points) all e split =
    let here : get_elem? all i ≡ some p =
      ap₂ get_elem? split e ∙ get_elem?-append_length before p points in
    let shifted : before ++ (p ∷ points) ≡ (before ++ p ∷ []) ++ points =
      sym (append_assoc before (p ∷ []) points) in
    let rest =
      points_from_lem f (i + 1) (before ++ p ∷ []) points all
        (omega (arith, length-append before (p ∷ []))) (split ∙ shifted) in
    rw (here, rest) refl

-- The message that a packet with all its points becomes.
module _ (N : Numerics) where
  pub init_pointcloud2_msg_lem :
      (frame_id : List ℕ) (pkg : StoragePacket N.Float)
      → pkg.points_num ≡ length pkg.points
      → init_pointcloud2_msg N frame_id pkg
        ≡ some (record {
          frame_id = frame_id;
          fields = header_fields;
          stamp = stamp_of pkg;
          height = 1;
          width = length pkg.points;
          point_step = 26;
          row_step = length pkg.points * 26 % u32;
          is_bigendian = false;
          is_dense = true;
          points = map (cloud_point N) pkg.points;
        })
  unfolding init_pointcloud2_msg
  init_pointcloud2_msg_lem frame_id pkg e =
      rw (e, points_from_lem (cloud_point N) 0 [] pkg.points pkg.points refl refl) refl

  -- A custom message carries every point of the packet, in order, and its time is the packet's.
  pub fill_points_to_custom_msg_lem :
      (msg : CustomMsg N.Float) (pkg : StoragePacket N.Float)
      → pkg.points_num ≡ length pkg.points
      → fill_points_to_custom_msg N msg pkg
        ≡ some (record msg { points = msg.points ++ map (custom_point N pkg.base_time) pkg.points })
  unfolding fill_points_to_custom_msg
  fill_points_to_custom_msg_lem msg pkg e =
      rw (e, points_from_lem (custom_point N pkg.base_time) 0 [] pkg.points pkg.points refl refl)
        refl

  -- A point no earlier than the base time and less than 2^32 ns (about 4.29 s) after it keeps its
  -- time: base time and offset add up to it.
  pub custom_point-offset_time :
      (base_time : ℕ) (p : PointXyzlt N.Float)
      → base_time ≤ p.offset_time
      → p.offset_time < u64
      → p.offset_time - base_time < u32
      → base_time + (custom_point N base_time p).offset_time ≡ p.offset_time
  unfolding custom_point
  custom_point-offset_time base_time p h small near = omega arith
