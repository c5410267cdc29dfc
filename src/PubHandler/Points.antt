-- ===== src/PubHandler/Points.antt =====
-- The points of one lidar in frames and in handlers, and how they are taken out of a handler.
use auto_fastlio.Prelude.{
  ℕ, ◌+◌, ◌≡◌, refl, sym, ◌∙◌, ap, true, false, Option, some, List, [], ◌∷◌, ◌++◌, ◌==◌, ltb,
  if◌then◌else◌, length, append_assoc, append-nil, ◌⊎◌, arith, Bool-cases, ==_iff, inl, inr,
  List-cases,
}
use auto_fastlio.Comm.{PointXyzlt, PointPacket, PointFrame, max_source_lidar}
use auto_fastlio.PubHandler.{LidarPubHandler}
use auto_fastlio.PubHandler.Timer.{
  PubHandler, get_lidar_base_time, handler_of, without_points, take_points_of, packet_of, collect,
  take_all_points,
}

module _ {F : Type 0} (id : ℕ) where
  -- The points of one lidar: in packets, in frames, and in its handler.
  unfoldable pub in_packets : List (PointPacket F) → List (PointXyzlt F)
  in_packets [] = []
  in_packets (p ∷ ps) = (if p.handle == id then p.points else []) ++ in_packets ps

  unfoldable pub in_frames : List (PointFrame F) → List (PointXyzlt F)
  in_frames [] = []
  in_frames (f ∷ fs) = in_packets f.lidar_point ++ in_frames fs

  unfoldable pub held : List (ℕ × LidarPubHandler F) → List (PointXyzlt F)
  held [] = []
  held ((j, h) ∷ hs) = (if j == id then h.points_clouds else []) ++ held hs

  -- All points of the lidar that were ever taken in: published, and then those still held.
  abbrev pub all_points : PubHandler F → List (PointXyzlt F)
  all_points s = in_frames s.published ++ held s.handlers

  in_packets-append :
      (a b : List (PointPacket F)) → in_packets (a ++ b) ≡ in_packets a ++ in_packets b
  unfolding in_packets
  in_packets-append [] b = refl
  in_packets-append (p ∷ a) b =
      ap (λ t. (if p.handle == id then p.points else []) ++ t) (in_packets-append a b)
      ∙ sym (append_assoc (if p.handle == id then p.points else []) (in_packets a) (in_packets b))

  in_frames-append : (a b : List (PointFrame F)) → in_frames (a ++ b) ≡ in_frames a ++ in_frames b
  unfolding in_frames
  in_frames-append [] b = refl
  in_frames-append (f ∷ a) b =
      ap (λ t. in_packets f.lidar_point ++ t) (in_frames-append a b)
      ∙ sym (append_assoc (in_packets f.lidar_point) (in_frames a) (in_frames b))

  pub held-take_all : (hs : List (ℕ × LidarPubHandler F)) → held (take_all_points hs) ≡ []
  unfolding held take_all_points without_points
  held-take_all [] = refl
  held-take_all ((j, h) ∷ hs) = elim (Bool-cases (j == id)) [
    | inl same ↦ rw same (held-take_all hs)
    | inr other ↦ rw other (held-take_all hs)
  ]

  -- The points of one handler, if it is that of the lidar.
  abbrev pub own : ℕ → List (PointXyzlt F) → List (PointXyzlt F)
  own j points = if j == id then points else []

  pub own-nil : (j : ℕ) → own j [] ≡ []
  own-nil j = elim (Bool-cases (j == id)) [ inl same ↦ rw same refl | inr other ↦ rw other refl ]

  -- The frame with one more packet.
  abbrev grown : ℕ → LidarPubHandler F → PointFrame F → PointFrame F
  grown j h frame = record {
    base_time = frame.base_time ++ get_lidar_base_time h.points_clouds ∷ [];
    lidar_num = frame.lidar_num + 1;
    lidar_point = frame.lidar_point ++ packet_of j h.points_clouds ∷ [];
  }

  collect-cons :
      (j : ℕ) (h : LidarPubHandler F) (hs : List (ℕ × LidarPubHandler F))
      (frame frame' : PointFrame F)
      → collect ((j, h) ∷ hs) frame ≡ some frame'
      → ((h.points_clouds ≡ []) × (collect hs frame ≡ some frame'))
        ⊎ (collect hs (grown j h frame) ≡ some frame')
  unfolding collect
  collect-cons j h hs frame frame' e = elim (Bool-cases (ltb frame.lidar_num max_source_lidar)) [
    | inr full ↦ absurd (ground (arith, e, full))
    | inl room ↦ elim (List-cases h.points_clouds) [
      | inl nothing ↦ inl (nothing, ground (arith, e, room, nothing))
      | inr (p, ps, split) ↦ inr (ground (arith, e, room, split, ap length split))
    ]
  ]

  grown-points :
      (j : ℕ) (h : LidarPubHandler F) (frame : PointFrame F)
      → in_packets (grown j h frame).lidar_point
        ≡ in_packets frame.lidar_point ++ own j h.points_clouds
  unfolding in_packets packet_of
  grown-points j h frame =
      in_packets-append frame.lidar_point (packet_of j h.points_clouds ∷ [])
      ∙ ap (λ t. in_packets frame.lidar_point ++ t) (append-nil (own j h.points_clouds))

  -- A frame that was collected holds what was in it before and all that the handlers held.
  pub collect-held :
      (hs : List (ℕ × LidarPubHandler F)) (frame frame' : PointFrame F)
      → collect hs frame ≡ some frame'
      → in_packets frame'.lidar_point ≡ in_packets frame.lidar_point ++ held hs
  unfolding held
  collect-held [] frame frame' e =
      let same : frame ≡ frame' = unfold collect in cc in
      ap (λ (f : PointFrame F). in_packets f.lidar_point) (sym same)
      ∙ sym (append-nil (in_packets frame.lidar_point))
  collect-held ((j, h) ∷ hs) frame frame' e = elim (collect-cons j h hs frame frame' e) [
    | inl (nothing, rest) ↦
        collect-held hs frame frame' rest
        ∙ ap (λ t. in_packets frame.lidar_point ++ (t ++ held hs))
            (sym (ap (own j) nothing ∙ own-nil j))
    | inr rest ↦
        collect-held hs (grown j h frame) frame' rest
        ∙ ap (λ t. t ++ held hs) (grown-points j h frame)
        ∙ append_assoc (in_packets frame.lidar_point) (own j h.points_clouds) (held hs)
  ]

  -- Publishing one more frame, with all that was held.
  pub published-once :
      (fs : List (PointFrame F)) (f : PointFrame F) (now later : List (PointXyzlt F))
      → in_packets f.lidar_point ++ later ≡ now
      → in_frames (fs ++ f ∷ []) ++ later ≡ in_frames fs ++ now
  unfolding in_frames
  published-once fs f now later e =
      ap (λ t. t ++ later)
        (in_frames-append fs (f ∷ [])
          ∙ ap (λ t. in_frames fs ++ t) (append-nil (in_packets f.lidar_point)))
      ∙ append_assoc (in_frames fs) (in_packets f.lidar_point) later
      ∙ ap (λ t. in_frames fs ++ t) e

  -- Of two handlers of different lidars, one at most is that of this lidar.
  own-swap :
      (k j : ℕ) (a b rest : List (PointXyzlt F))
      → (j == k) ≡ false
      → own k a ++ (own j b ++ rest) ≡ own j b ++ (own k a ++ rest)
  own-swap k j a b rest apart = elim (Bool-cases (j == id)) [
    | inl here ↦
        let elsewhere : (k == id) ≡ false = ground (arith, here, apart) in rw (elsewhere, here) refl
    | inr other ↦ rw other refl
  ]

  take-hit :
      (k j : ℕ) (g : LidarPubHandler F) (hs : List (ℕ × LidarPubHandler F))
      → (j == k) ≡ true
      → (take_points_of k ((j, g) ∷ hs) ≡ (j, without_points g) ∷ hs)
        × (handler_of k ((j, g) ∷ hs) ≡ some g)
  unfolding take_points_of handler_of
  take-hit k j g hs same = (rw same refl, rw same refl)

  take-miss :
      (k j : ℕ) (g : LidarPubHandler F) (hs : List (ℕ × LidarPubHandler F))
      → (j == k) ≡ false
      → (take_points_of k ((j, g) ∷ hs) ≡ (j, g) ∷ take_points_of k hs)
        × (handler_of k ((j, g) ∷ hs) ≡ handler_of k hs)
  unfolding take_points_of handler_of
  take-miss k j g hs apart = (rw apart refl, rw apart refl)

  same_handler :
      {r : Option (LidarPubHandler F)} {g h : LidarPubHandler F} → r ≡ some g → r ≡ some h → g ≡ h
  same_handler e f = cc

  -- What a handler held, and what is held without it.
  pub held-take_points_of :
      (k : ℕ) (hs : List (ℕ × LidarPubHandler F)) (h : LidarPubHandler F)
      → handler_of k hs ≡ some h
      → own k h.points_clouds ++ held (take_points_of k hs) ≡ held hs
  unfolding held without_points
  held-take_points_of k [] h e = unfold handler_of in cc
  held-take_points_of k ((j, g) ∷ hs) h e = elim (Bool-cases (j == k)) [
    | inl same ↦
        let (taken, found) = take-hit k j g hs same in
        ap (λ t. own k h.points_clouds ++ held t) taken
        ∙ ap (λ t. own k h.points_clouds ++ (t ++ held hs)) (own-nil j)
        ∙ ap (λ (x : LidarPubHandler F). own k x.points_clouds ++ held hs)
            (sym (same_handler found e))
        ∙ ap (λ i. own i g.points_clouds ++ held hs) (sym ((==_iff j k).0 same))
    | inr apart ↦
        let (taken, found) = take-miss k j g hs apart in
        ap (λ t. own k h.points_clouds ++ held t) taken
        ∙ own-swap k j h.points_clouds g.points_clouds (held (take_points_of k hs)) apart
        ∙ ap (λ t. own j g.points_clouds ++ t) (held-take_points_of k hs h (sym found ∙ e))
  ]
