-- ===== src/AngleFilter/Spec.antt =====
-- What filter_cloud of lidar_angle_filter_node.cpp is to keep, by the points of a scan one after
-- the other: a reference for its loops.
use auto_fastlio.Prelude.{
  ℕ, zero, suc, ◌+◌, ◌*◌, ◌≡◌, refl, sym, ap, ◌∙◌, inl, inr, Bool, true, false, none, some, List,
  [], ◌∷◌, ◌++◌, append_assoc, append-nil, if◌then◌else◌, length, drop, take, arith, Bool-cases,
  length-append,
}
use auto_fastlio.Numerics.{Numerics}
use auto_fastlio.AngleFilter.{Angles, Host, Parameters, point_is_usable}
use auto_fastlio.AngleFilter.Cloud.{SensorMsgs, PointCloud2, read_coordinate}
use auto_fastlio.AngleFilter.Node.{Tally, Fields, no_points, is_kept}

module _ (N : Numerics) (A : Angles N) (H : Host N) (M : SensorMsgs) where
  -- The points of a scan from one on, each as the memory from its first byte on.
  unfoldable pub row_points : PointCloud2 M → ℕ → ℕ → ℕ → List (List ℕ)
  row_points cloud row_offset zero column = []
  row_points cloud row_offset (suc left) column =
      drop (row_offset + column * cloud.point_step) cloud.data_bytes
      ∷ row_points cloud row_offset left (column + 1)

  unfoldable pub points_from : PointCloud2 M → ℕ → ℕ → List (List ℕ)
  points_from cloud zero row = []
  points_from cloud (suc left) row =
      row_points cloud (row * cloud.row_step) cloud.width 0 ++ points_from cloud left (row + 1)

  -- All points, row by row.
  abbrev pub points_of : PointCloud2 M → List (List ℕ)
  points_of cloud = points_from cloud cloud.height 0

  module _ (p : Parameters N) (f : Fields) (cloud : PointCloud2 M) where
    -- A test of the coordinates of a point.
    unfoldable pub holds_at : (N.Double → N.Double → N.Double → Bool) → List ℕ → Bool
    holds_at test point = elim (read_coordinate N H M point f.x_field cloud.is_bigendian) [
      | none ↦ false
      | some x ↦ elim (read_coordinate N H M point f.y_field cloud.is_bigendian) [
        | none ↦ false
        | some y ↦ elim (read_coordinate N H M point f.z_field cloud.is_bigendian) [
          | none ↦ false
          | some z ↦ test x y z
        ]
      ]
    ]

    abbrev pub survives : List ℕ → Bool
    survives = holds_at (is_kept N A H M p)

    abbrev pub usable : List ℕ → Bool
    usable = holds_at (λ x y z. point_is_usable N A x y z p.min_usable_range)

    -- The points that are kept, in order; their bytes, and how many of them are usable.
    unfoldable pub survivors : List (List ℕ) → List (List ℕ)
    survivors [] = []
    survivors (q ∷ qs) = let rest = survivors qs in if survives q then q ∷ rest else rest

    unfoldable pub joined : List (List ℕ) → List ℕ
    joined [] = []
    joined (q ∷ qs) = take cloud.point_step q ++ joined qs

    unfoldable pub usable_count : List (List ℕ) → ℕ
    usable_count [] = 0
    usable_count (q ∷ qs) = (if usable q then 1 else 0) + usable_count qs

    unfoldable pub masked_count : List (List ℕ) → ℕ
    masked_count [] = 0
    masked_count (q ∷ qs) = (if survives q then 0 else 1) + masked_count qs

    -- What the loops add for some points.
    unfoldable pub add_points : Tally → List (List ℕ) → Tally
    add_points t qs = record {
      kept = t.kept ++ joined (survivors qs);
      kept_points = t.kept_points + length (survivors qs);
      masked_points = t.masked_points + masked_count qs;
      usable_points = t.usable_points + usable_count (survivors qs);
    }

    abbrev pub tally : List ℕ → ℕ → ℕ → ℕ → Tally
    tally a b c d = record { kept = a; kept_points = b; masked_points = c; usable_points = d }

    tally_eq :
        {a a' : List ℕ} {b b' c c' d d' : ℕ}
        → a ≡ a'
        → b ≡ b'
        → c ≡ c'
        → d ≡ d'
        → tally a b c d ≡ tally a' b' c' d'
    tally_eq e1 e2 e3 e4 = rw (e1, e2, e3, e4) refl

    survivors-append : (qs rs : List (List ℕ)) → survivors (qs ++ rs) ≡ survivors qs ++ survivors rs
    unfolding survivors
    survivors-append [] rs = refl
    survivors-append (q ∷ qs) rs = elim (Bool-cases (survives q)) [
      | inl s ↦ rw s (ap (λ t. q ∷ t) (survivors-append qs rs))
      | inr s ↦ rw s (survivors-append qs rs)
    ]

    joined-append : (qs rs : List (List ℕ)) → joined (qs ++ rs) ≡ joined qs ++ joined rs
    unfolding joined
    joined-append [] rs = refl
    joined-append (q ∷ qs) rs =
        ap (λ t. take cloud.point_step q ++ t) (joined-append qs rs)
        ∙ sym (append_assoc (take cloud.point_step q) (joined qs) (joined rs))

    usable_count-append :
        (qs rs : List (List ℕ)) → usable_count (qs ++ rs) ≡ usable_count qs + usable_count rs
    unfolding usable_count
    usable_count-append [] rs = omega arith
    usable_count-append (q ∷ qs) rs = omega (arith, usable_count-append qs rs)

    masked_count-append :
        (qs rs : List (List ℕ)) → masked_count (qs ++ rs) ≡ masked_count qs + masked_count rs
    unfolding masked_count
    masked_count-append [] rs = omega arith
    masked_count-append (q ∷ qs) rs = omega (arith, masked_count-append qs rs)

    pub add_points-nil : (t : Tally) → add_points t [] ≡ t
    unfolding add_points survivors joined usable_count masked_count
    add_points-nil t = tally_eq (append-nil t.kept) (omega arith) (omega arith) (omega arith)

    pub add_points-append :
        (t : Tally) (qs rs : List (List ℕ))
        → add_points (add_points t qs) rs ≡ add_points t (qs ++ rs)
    unfolding add_points
    add_points-append t qs rs =
        tally_eq
          (append_assoc t.kept (joined (survivors qs)) (joined (survivors rs))
            ∙ ap (λ u. t.kept ++ u)
                (sym (
                  ap joined (survivors-append qs rs)
                  ∙ joined-append (survivors qs) (survivors rs))))
          (omega (
            arith,
            ap length (survivors-append qs rs),
            length-append (survivors qs) (survivors rs),
          ))
          (omega (arith, masked_count-append qs rs))
          (omega (
            arith,
            ap usable_count (survivors-append qs rs),
            usable_count-append (survivors qs) (survivors rs),
          ))

    -- A point with these coordinates is tested on them.
    pub holds_at-read :
        (test : N.Double → N.Double → N.Double → Bool) (x y z : N.Double) (q : List ℕ)
        → read_coordinate N H M q f.x_field cloud.is_bigendian ≡ some x
        → read_coordinate N H M q f.y_field cloud.is_bigendian ≡ some y
        → read_coordinate N H M q f.z_field cloud.is_bigendian ≡ some z
        → holds_at test q ≡ test x y z
    unfolding holds_at
    holds_at-read test x y z q e1 e2 e3 = rw (e1, e2, e3, holds_at) refl

    -- One point that is kept, and one that is not.
    pub add_points-kept :
        (t : Tally) (q : List ℕ) (u : Bool)
        → survives q ≡ true
        → usable q ≡ u
        → add_points t (q ∷ [])
          ≡ tally
              (t.kept ++ take cloud.point_step q)
              (t.kept_points + 1)
              t.masked_points
              (if u then t.usable_points + 1 else t.usable_points)
    unfolding add_points survivors joined usable_count masked_count
    add_points-kept t q u s e =
        rw (s, e)
          (tally_eq (ap (λ r. t.kept ++ r) (append-nil (take cloud.point_step q))) refl
            (omega arith) (ground arith))

    pub add_points-lost :
        (t : Tally) (q : List ℕ)
        → survives q ≡ false
        → add_points t (q ∷ []) ≡ tally t.kept t.kept_points (t.masked_points + 1) t.usable_points
    unfolding add_points survivors joined usable_count masked_count
    add_points-lost t q s = rw s (tally_eq (append-nil t.kept) (omega arith) refl (omega arith))

    -- The loops start from nothing.
    pub add_points-start :
        (qs : List (List ℕ))
        → add_points no_points qs
          ≡ tally
              (joined (survivors qs))
              (length (survivors qs))
              (masked_count qs)
              (usable_count (survivors qs))
    unfolding add_points
    add_points-start qs = tally_eq refl (omega arith) (omega arith) (omega arith)
