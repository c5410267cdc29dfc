-- ===== src/Pcd2Pgm/Extent.antt =====
-- The least coordinate that the first loop of setMapTopicMsgDynamicBounds in pcd2pgm/src/pcd2pgm.cpp
-- finds.
use auto_fastlio.Prelude.{
  ℕ, zero, suc, ◌≡◌, refl, sym, subst, ◌∙◌, ◌⊎◌, inl, inr, Bool, true, false, some, [], ◌∷◌,
  get_elem?, some_injective, Bool-cases,
}
use auto_fastlio.Numerics.{Numerics, Rounding}
use auto_fastlio.Pcd2Pgm.{PointXyz, Cloud}
use auto_fastlio.Pcd2Pgm.Raster.{extent, max_of}

-- What IEEE 754 says of `<`, also with values that are not numbers.
pub record IsOrder {D : Type 0} (lt : D → D → Bool) : Type 0 where
  pub trans : (a b c : D) → lt a b ≡ true → lt b c ≡ true → lt a c ≡ true
  pub irrefl : (a : D) → lt a a ≡ false

module _ (N : Numerics) (R : Rounding N) where
  -- A least coordinate of a cloud, or the largest double, if that is not above it.
  pub record IsLeast (along : PointXyz N.Float → N.Float) (cloud : Cloud N) (m : N.Double)
      : Type 0 where
    pub below_all :
        (i : ℕ) (q : PointXyz N.Float)
        → get_elem? cloud i ≡ some q
        → N.lt (N.widen (along q)) m ≡ false
    pub attained :
        (m ≡ R.max)
        ⊎ ((i : ℕ) × (q : PointXyz N.Float) × (get_elem? cloud i ≡ some q)
            × (N.widen (along q) ≡ m))

  -- What the loop gives from `low` on.
  record Reached (along : PointXyz N.Float → N.Float) (cloud : Cloud N) (low m : N.Double)
      : Type 0 where
    down : (m ≡ low) ⊎ (N.lt m low ≡ true)
    under :
        (i : ℕ) (q : PointXyz N.Float)
        → get_elem? cloud i ≡ some q
        → N.lt (N.widen (along q)) m ≡ false
    met :
        (m ≡ low)
        ⊎ ((i : ℕ) × (q : PointXyz N.Float) × (get_elem? cloud i ≡ some q)
            × (N.widen (along q) ≡ m))

  module _ (order : IsOrder N.lt) (along : PointXyz N.Float → N.Float) where
    not_below :
        (a b m : N.Double) → (m ≡ b) ⊎ (N.lt m b ≡ true) → N.lt a b ≡ false → N.lt a m ≡ false
    not_below a b m (inl same) e = rw same e
    not_below a b m (inr less) e = elim (Bool-cases (N.lt a m)) [
      | inl lower ↦ absurd (cc (sym (order.trans a m b lower less) ∙ e))
      | inr kept ↦ kept
    ]

    lower :
        (v low m : N.Double) → N.lt v low ≡ true → (m ≡ v) ⊎ (N.lt m v ≡ true) → N.lt m low ≡ true
    lower v low m e (inl same) = rw same e
    lower v low m e (inr less) = order.trans m v low less e

    first_or_later :
        (p : PointXyz N.Float) (ps : Cloud N) (m : N.Double)
        → N.lt (N.widen (along p)) m ≡ false
        → ((i : ℕ) (q : PointXyz N.Float)
            → get_elem? ps i ≡ some q
            → N.lt (N.widen (along q)) m ≡ false)
        → (i : ℕ) (q : PointXyz N.Float) → get_elem? (p ∷ ps) i ≡ some q
        → N.lt (N.widen (along q)) m ≡ false
    first_or_later p ps m first later zero q e =
        subst (λ t. N.lt (N.widen (along t)) m ≡ false) (some_injective e) first
    first_or_later p ps m first later (suc i) q e = later i q e

    Reached-less :
        (p : PointXyz N.Float) (ps : Cloud N) (low m : N.Double)
        → N.lt (N.widen (along p)) low ≡ true
        → Reached along ps (N.widen (along p)) m
        → Reached along (p ∷ ps) low m
    Reached-less p ps low m less r = record {
      down = inr (lower (N.widen (along p)) low m less r.down);
      under =
          first_or_later p ps m
            (not_below (N.widen (along p)) (N.widen (along p)) m r.down
              (order.irrefl (N.widen (along p))))
            r.under;
      met = elim r.met [
        | inl same ↦ inr (0, p, refl, sym same)
        | inr (i, q, at, same) ↦ inr (suc i, q, at, same)
      ];
    }

    Reached-stays :
        (p : PointXyz N.Float) (ps : Cloud N) (low m : N.Double)
        → N.lt (N.widen (along p)) low ≡ false
        → Reached along ps low m
        → Reached along (p ∷ ps) low m
    Reached-stays p ps low m stays r = record {
      down = r.down;
      under = first_or_later p ps m (not_below (N.widen (along p)) low m r.down stays) r.under;
      met = elim r.met [ inl same ↦ inl same | inr (i, q, at, same) ↦ inr (suc i, q, at, same) ];
    }

    extent-Reached :
        (cloud : Cloud N) (low high : N.Double)
        → Reached along cloud low (extent N R along cloud low high).0
    unfolding extent
    extent-Reached [] low high = record {
      down = inl refl;
      under = λ i q e. absurd (cc e);
      met = inl refl;
    }
    extent-Reached (p ∷ ps) low high = elim (Bool-cases (N.lt (N.widen (along p)) low)) [
      | inl less ↦
          rw (extent, less)
            (Reached-less p ps low _ less
              (extent-Reached ps (N.widen (along p)) (max_of N R high (N.widen (along p)))))
      | inr stays ↦
          rw (extent, stays)
            (Reached-stays p ps low _ stays
              (extent-Reached ps low (max_of N R high (N.widen (along p)))))
    ]

    pub extent-IsLeast :
        (cloud : Cloud N) (high : N.Double)
        → IsLeast along cloud (extent N R along cloud R.max high).0
    extent-IsLeast cloud high =
        let r = extent-Reached cloud R.max high in record { below_all = r.under; attained = r.met }
