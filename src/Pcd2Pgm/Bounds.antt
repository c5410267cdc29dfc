-- ===== src/Pcd2Pgm/Bounds.antt =====
-- What the two rasterisers of pcd2pgm/src/pcd2pgm.cpp write.
use auto_fastlio.Prelude.{
  ℕ, ◌+◌, ◌*◌, ◌%◌, ◌^◌, ◌<◌, ◌≡◌, refl, ap, ◌∙◌, inl, inr, Bool, false, ◌||◌, Option, some, List,
  [], ◌∷◌, ◌>>=◌, if◌then◌else◌, replicate, arith, Option-cases, >>=-eq-some,
}
use auto_fastlio.Prelude.Int.{ℤ, pos}
use auto_fastlio.Numerics.{Numerics, Rounding}
use auto_fastlio.Pcd2Pgm.{PointXyz, Cloud, Parameters, OccupancyGrid}
use auto_fastlio.Pcd2Pgm.Raster.{
  is_inside_int, mark_or_drop, cell_of, fixed_from, set_map_topic_msg_fixed_bounds, filled_map,
  cells_across, extent, dynamic_from, set_map_topic_msg_dynamic_bounds, cell_along,
}
use auto_fastlio.Pcd2Pgm.Extent.{IsOrder, IsLeast, extent-IsLeast}
use auto_fastlio.Pcd2Pgm.Cells.{
  Shows, Fits, hits, occupied, shade, zeros-Shows, mark_or_drop-Shows, mark_or_skip-eq-drop,
}

-- How many of the cells lie outside the grid.
unfoldable pub outside : ℕ → ℕ → List (ℤ × ℤ) → ℕ
outside w h [] = 0
outside w h (c ∷ cs) = (if is_inside_int w h c.0 c.1 then 0 else 1) + outside w h cs

module _ (N : Numerics) (R : Rounding N) where
  -- The cells of all points: `none` if a coordinate has no cell in the range of int.
  unfoldable pub cells_of : N.Float → N.Double → N.Double → Cloud N → Option (List (ℤ × ℤ))
  cells_of resolution ox oy [] = some []
  cells_of resolution ox oy (p ∷ ps) =
      cell_of N R resolution ox oy p >>= λ c. cells_of resolution ox oy ps >>= λ cs. some (c ∷ cs)

  or-false : (b : Bool) → (b || false) ≡ b
  or-false b = ground arith

  or_swap : (a b c : Bool) → (b || (a || c)) ≡ ((a || b) || c)
  or_swap a b c = ground arith

  fixed_from-Shows :
      (resolution : N.Float) (ox oy : N.Double) {w h : ℕ}
      → Fits w h
      → (cloud : Cloud N) (cs : List (ℤ × ℤ)) (full : ℕ → ℕ → Bool) (cells : List ℕ) (dropped : ℕ)
      → cells_of resolution ox oy cloud ≡ some cs
      → Shows w h full cells
      → (cells' : List ℕ) × (fixed_from N R resolution ox oy w h cloud cells dropped
          ≡ some (cells', dropped + outside w h cs))
        × Shows w h (λ i j. occupied cs i j || full i j) cells'
  unfolding fixed_from cells_of outside occupied
  fixed_from-Shows resolution ox oy {w} {h} f [] cs full cells dropped e shows =
      let none_left : cs ≡ [] = ground arith in
      rw none_left (cells, ap (λ t. some (cells, t)) (omega arith), shows)
  fixed_from-Shows resolution ox oy {w} {h} f (p ∷ ps) cs full cells dropped e shows =
      let (c, e1, rest) = >>=-eq-some (cell_of N R resolution ox oy p) _ e in
      let (cs', e2, e3) = >>=-eq-some (cells_of resolution ox oy ps) _ rest in
      let grown : cs ≡ c ∷ cs' = ground (arith, e3) in
      let (cells1, m, shows1) = mark_or_drop-Shows f c full cells dropped shows in
      let taken : ℕ = if is_inside_int w h c.0 c.1 then dropped else dropped + 1 in
      let (cells2, m2, shows2) =
        fixed_from-Shows resolution ox oy f ps cs' (λ i j. hits c i j || full i j) cells1 taken e2
          shows1 in
      rw grown (
        cells2,
        rw (e1, m)
            (m2 ∙ ap (λ t. some (cells2, t)) (count (is_inside_int w h c.0 c.1) (outside w h cs'))),
        record {
          size = shows2.size;
          at = λ i j r s.
              shows2.at i j r s
              ∙ ap (λ t. some (shade t)) (or_swap (hits c i j) (occupied cs' i j) (full i j));
        },
      )
    where
      count :
          (b : Bool) (n : ℕ)
          → (if b then dropped else dropped + 1) + n ≡ dropped + ((if b then 0 else 1) + n)
      count b n = ground arith

  shown :
      {w h : ℕ} (cs : List (ℤ × ℤ)) (cells : List ℕ)
      → Shows w h (λ i j. occupied cs i j || false) cells
      → Shows w h (occupied cs) cells
  shown cs cells shows = record {
    size = shows.size;
    at = λ i j r s. shows.at i j r s ∙ ap (λ t. some (shade t)) (or-false (occupied cs i j));
  }

  -- `setMapTopicMsgFixedBounds`, when every coordinate has a cell in the range of int and the grid
  -- fits (fewer than 2^31 columns and rows, fewer than 2^32 cells): it writes nothing out of
  -- bounds; the new map has the origin of the parameters and width * height cells; cell (i, j) is
  -- 100 if some point falls in it and 0 if none does, whatever the map held before; and the points
  -- it reports as dropped are those whose cell is outside the grid.
  pub set_map_topic_msg_fixed_bounds-Shows :
      (params : Parameters N) (stamp load_time w h : ℕ) (cloud : Cloud N) (cs : List (ℤ × ℤ))
      (msg : OccupancyGrid N)
      → R.to_u32 (R.ceil (N.div params.fixed_width_m (N.widen params.map_resolution))) ≡ some w
      → R.to_u32 (R.ceil (N.div params.fixed_height_m (N.widen params.map_resolution))) ≡ some h
      → Fits w h
      → cells_of params.map_resolution params.fixed_origin_x params.fixed_origin_y cloud ≡ some cs
      → (cells : List ℕ) × (set_map_topic_msg_fixed_bounds N R params stamp load_time cloud msg
          ≡ some (
            filled_map N R params stamp load_time w h params.fixed_origin_x params.fixed_origin_y
                cells,
            outside w h cs,
          ))
        × Shows w h (occupied cs) cells
  unfolding set_map_topic_msg_fixed_bounds
  set_map_topic_msg_fixed_bounds-Shows params stamp load_time w h cloud cs msg ew eh f e =
      let all : w * h % 2 ^ 32 ≡ w * h = omega (arith, f.cells) in
      let (cells, m, shows) =
        fixed_from-Shows params.map_resolution params.fixed_origin_x params.fixed_origin_y f cloud
          cs (λ i j. false) (replicate (w * h) 0) 0 e (zeros-Shows w h) in
      let counted : 0 + outside w h cs ≡ outside w h cs = omega arith in
      (cells, rw (ew, eh, all, m, counted) refl, shown cs cells shows)

  -- Casts to int give an int: the guard with unsigned operands accepts the same cells.
  abbrev pub CastsToInt : Type 0
  CastsToInt = (d : N.Double) (n : ℕ) → R.to_int d ≡ some (pos n) → n < 2 ^ 31

  abbrev pair : ℤ → ℤ → ℤ × ℤ
  pair i j = (i, j)

  same_pair : (i j a b : ℤ) → some (pair i j) ≡ some (pair a b) → (i ≡ a) × (j ≡ b)
  same_pair i j a b e = (cc e, cc e)

  cell_of-small :
      CastsToInt
      → (resolution : N.Float) (ox oy : N.Double) (p : PointXyz N.Float) (a b : ℤ)
      → cell_of N R resolution ox oy p ≡ some (a, b)
      → ((n : ℕ) → a ≡ pos n → n < 2 ^ 31) × ((n : ℕ) → b ≡ pos n → n < 2 ^ 31)
  unfolding cell_of cell_along
  cell_of-small casts resolution ox oy p a b e =
      let (i, e1, rest) = >>=-eq-some (cell_along N R resolution ox p.x) _ e in
      let (j, e2, e3) = >>=-eq-some (cell_along N R resolution oy p.y) _ rest in
      let (first, second) = same_pair i j a b e3 in
      (λ n g. casts _ n (e1 ∙ ap some (first ∙ g)), λ n g. casts _ n (e2 ∙ ap some (second ∙ g)))

  dynamic_from-eq-fixed :
      CastsToInt
      → (resolution : N.Float) (ox oy : N.Double) {w h : ℕ} → Fits w h
      → (cloud : Cloud N) (cells : List ℕ) (dropped : ℕ)
      → dynamic_from N R resolution ox oy w h cloud cells
        ≡ (fixed_from N R resolution ox oy w h cloud cells dropped >>= λ r. some r.0)
  unfolding dynamic_from fixed_from
  dynamic_from-eq-fixed casts resolution ox oy f [] cells dropped = refl
  dynamic_from-eq-fixed casts resolution ox oy {w} {h} f (p ∷ ps) cells dropped =
      elim (Option-cases (cell_of N R resolution ox oy p)) [
        | inl fault ↦ rw fault refl
        | inr ((a, b), e) ↦
            let (small, small') = cell_of-small casts resolution ox oy p a b e in
            rw (e, mark_or_skip-eq-drop f a b cells dropped small small')
              (elim (Option-cases (mark_or_drop w h a b cells dropped)) [
                | inl fault ↦ rw fault refl
                | inr ((cells', dropped'), m) ↦
                    rw m (dynamic_from-eq-fixed casts resolution ox oy f ps cells' dropped')
              ])
      ]

  -- `setMapTopicMsgDynamicBounds` on a cloud with a point, when every coordinate has a cell in the
  -- range of int and the grid fits, with casts to int that give an int and a `<` of doubles that is
  -- transitive and irreflexive: the map has for its origin the least x and the least y of the points
  -- (no point is below, and some point has it or it is the largest double), and cell (i, j) is 100
  -- if some point falls in it and 0 if none does.
  pub set_map_topic_msg_dynamic_bounds-Shows :
      CastsToInt
      → IsOrder N.lt
      → (params : Parameters N) (stamp load_time w h : ℕ) (p : PointXyz N.Float) (ps : Cloud N)
        (cs : List (ℤ × ℤ)) (msg : OccupancyGrid N)
      → cells_across N R params.map_resolution (extent N R (λ q. q.x) (p ∷ ps) R.max R.lowest)
        ≡ some w
      → cells_across N R params.map_resolution (extent N R (λ q. q.y) (p ∷ ps) R.max R.lowest)
        ≡ some h
      → Fits w h
      → cells_of params.map_resolution
          (extent N R (λ q. q.x) (p ∷ ps) R.max R.lowest).0
          (extent N R (λ q. q.y) (p ∷ ps) R.max R.lowest).0
          (p ∷ ps)
        ≡ some cs
      → (cells : List ℕ) × (set_map_topic_msg_dynamic_bounds N R params stamp load_time (p ∷ ps) msg
          ≡ some (
              filled_map N R params stamp load_time w h
                (extent N R (λ q. q.x) (p ∷ ps) R.max R.lowest).0
                (extent N R (λ q. q.y) (p ∷ ps) R.max R.lowest).0
                cells))
        × Shows w h (occupied cs) cells
        × IsLeast N R (λ q. q.x) (p ∷ ps) (extent N R (λ q. q.x) (p ∷ ps) R.max R.lowest).0
        × IsLeast N R (λ q. q.y) (p ∷ ps) (extent N R (λ q. q.y) (p ∷ ps) R.max R.lowest).0
  unfolding set_map_topic_msg_dynamic_bounds
  set_map_topic_msg_dynamic_bounds-Shows casts order params stamp load_time w h p ps cs msg ew eh f
        e =
      let all : w * h % 2 ^ 32 ≡ w * h = omega (arith, f.cells) in
      let (cells, m, shows) =
        fixed_from-Shows params.map_resolution (extent N R (λ q. q.x) (p ∷ ps) R.max R.lowest).0
          (extent N R (λ q. q.y) (p ∷ ps) R.max R.lowest).0 f (p ∷ ps) cs (λ i j. false)
          (replicate (w * h) 0) 0 e (zeros-Shows w h) in
      (
        cells,
        rw
            (
              ew,
              eh,
              all,
              dynamic_from-eq-fixed casts params.map_resolution
                  (extent N R (λ q. q.x) (p ∷ ps) R.max R.lowest).0
                  (extent N R (λ q. q.y) (p ∷ ps) R.max R.lowest).0 f (p ∷ ps) (replicate (w * h) 0)
                  0,
              m,
            )
            refl,
        shown cs cells shows,
        extent-IsLeast N R order (λ q. q.x) (p ∷ ps) R.lowest,
        extent-IsLeast N R order (λ q. q.y) (p ∷ ps) R.lowest,
      )
